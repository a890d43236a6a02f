-- ===== src/RouterList/Edits.antt =====
-- What saving a router without changing it sends.
use frixel_connect.Base.{
  ℕ, ◌≡◌, refl, ap, ◌∙◌, Bool, true, false, String, Option, none, some, ◌∷◌, arith, is_empty,
  get_or, leb,
}
use frixel_connect.Portal.{AuthUser}
use frixel_connect.Cache.Writes.{use_update_router}
use frixel_connect.RouterList.{
  MikrotikRouter, RoutersPage, default_values, mount_form, is_valid, payload, on_submit,
  handle_submit, handle_open_edit_dialog, submit, rotate, handle,
}

-- A router as the list may show it: with a name and a site, and what is known of its address not empty.
pub record IsKnown (r : MikrotikRouter) (h : String) : Type 0 where
  pub name : is_empty r.name ≡ false
  pub known : r.host ≡ some h
  pub filled : is_empty h ≡ false
  pub port : (elim r.port [ none ↦ true | some n ↦ leb 1 n ]) ≡ true
  pub username : (elim r.username [ none ↦ false | some u ↦ is_empty u ]) ≡ false
  pub site_name : is_empty r.site_name ≡ false

port_filled :
    (o : Option ℕ) → (elim o [ none ↦ true | some n ↦ leb 1 n ]) ≡ true → leb 1 (get_or o 80) ≡ true
port_filled none h = refl
port_filled (some n) h = h

username_filled :
    (o : Option String)
    → (elim o [ none ↦ false | some u ↦ is_empty u ]) ≡ false
    → is_empty (get_or o "admin") ≡ false
username_filled none h = refl
username_filled (some u) h = h

valid : (r : MikrotikRouter) (h : String) → IsKnown r h → is_valid (default_values (some r)) ≡ true
unfolding is_valid default_values
valid r h k =
    let host : is_empty (get_or r.host "") ≡ false =
      ap (λ o. is_empty (get_or o "")) k.known ∙ k.filled in
    rw (k.name, host, port_filled r.port k.port, username_filled r.username k.username, k.site_name)
      refl

-- When an admin opens a router and saves it as it is, with the box for a new password ticked or not, the request
-- for it has its name, address and site as they were and no password; a port that is not known is sent as 80, and a
-- username that is not known as admin.
pub unchanged_edit :
    (user : Option AuthUser) (r : MikrotikRouter) (host : String) (b : Bool) (p : RoutersPage)
    → IsKnown r host
    → p.is_pending ≡ false
    → (handle user (handle user (handle_open_edit_dialog r p) (rotate b)) submit).sent
      ≡ use_update_router r.id
          (record {
            name = r.name;
            host = host;
            port = get_or r.port 80;
            username = get_or r.username "admin";
            password = none;
            site_name = r.site_name;
          })
          user
        ∷ p.sent
unfolding handle handle_open_edit_dialog mount_form handle_submit on_submit payload default_values
unchanged_edit user r host b p k idle =
    let whole = valid r host k in
    let own : get_or r.host "" ≡ host = ap (λ o. get_or o "") k.known in
    ground (arith, idle, whole, own)
