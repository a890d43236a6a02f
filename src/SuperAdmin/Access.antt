-- ===== src/SuperAdmin/Access.antt =====
-- Who reaches the super admin's pages.
use Prim.Native.Char.{code}
use mathlib.Core.Path.{subst}
use frixel_connect.Base.{
  is_digit, text_length, text_take, ℕ, zero, suc, ◌≡◌, refl, ◌≢◌, true, false, String, List, [],
  ◌∷◌, none, some, arith, truthy, All, Bool-cases, inl, inr,
}
use frixel_connect.Storage.{Storage}
use frixel_connect.Storage.Laws.{get_item-set_item, get_item-remove_item}
use frixel_connect.Auth.{Browser}
use frixel_connect.Auth.Sessions.{truthy_of_ne}
use frixel_connect.SuperAdmin.{
  super_admin_token_key, get_super_admin_token, save_super_admin_token, clear_super_admin_token,
  Reader, SuperAdminClaims, SuperAdminUser, Console, mount, init_super_admin, on_totp_verified,
  logout, handle_totp_change, only_digits, View, super_admin_route, Event, verifies, signs_out,
  step, run, decode_super_admin_token, is_super_admin_token_expired,
}

get-save :
    (token : String) (s : Storage)
    → get_super_admin_token (save_super_admin_token token s) ≡ some token
unfolding get_super_admin_token save_super_admin_token
get-save token s = get_item-set_item super_admin_token_key super_admin_token_key token s

get-clear : (s : Storage) → get_super_admin_token (clear_super_admin_token s) ≡ none
unfolding get_super_admin_token clear_super_admin_token
get-clear s = get_item-remove_item super_admin_token_key super_admin_token_key s

-- Nobody is signed in, in memory or in the storage.
pub record IsSignedOut (c : Console) : Type 0 where
  pub nobody : c.super_admin ≡ none
  pub tokenless : get_super_admin_token c.local ≡ none

-- Every event but the server's acceptance of a code.
abbrev pub IsUnverified : Event → Type 0
IsUnverified (verifies token profile) = ⊥
IsUnverified _ = Unit {0}

step-IsSignedOut :
    (c : Console) (e : Event) → IsUnverified e → IsSignedOut c → IsSignedOut (step c e)
unfolding step
step-IsSignedOut c (verifies token profile) h v = absurd h
step-IsSignedOut c signs_out h v = record { nobody = refl; tokenless = get-clear c.local }
step-IsSignedOut c e h v = ground (arith, get-clear c.local)

run-IsSignedOut :
    (c : Console) (es : List Event) → All IsUnverified es → IsSignedOut c → IsSignedOut (run c es)
unfolding run
run-IsSignedOut c [] h v = v
run-IsSignedOut c (e ∷ es) (h, hs) v = run-IsSignedOut (step c e) es hs (step-IsSignedOut c e h v)

super_admin_route_of_nobody :
    (c : Console) → c.super_admin ≡ none → super_admin_route c ≢ View.outlet
unfolding super_admin_route
super_admin_route_of_nobody c e = ground arith

init_super_admin_signed_out :
    (b : Browser) (read : Reader) (s : Storage) (location : String)
    → get_super_admin_token s ≡ none
    → init_super_admin b read (mount s location) ≡ record (mount s location) { is_loading = false }
unfolding init_super_admin mount
init_super_admin_signed_out b read s location e = ground (arith, e)

-- Without an accepted code nobody reaches the pages: from a signed-out state, after any passwords,
-- codes typed, rejections, resets, sign-outs and failed requests, the route does not show them,
-- not even after a reload of any page.
pub no_access_without_code :
    (b : Browser) (read : Reader) (c : Console) (es : List Event) (location : String)
    → IsSignedOut c
    → All IsUnverified es
    → (super_admin_route (run c es) ≢ View.outlet)
      × (super_admin_route (init_super_admin b read (mount (run c es).local location))
          ≡ View.redirect "/super-admin/login")
unfolding super_admin_route mount
no_access_without_code b read c es location v h =
    let out = run-IsSignedOut c es h v in
    (
      super_admin_route_of_nobody (run c es) out.nobody,
      rw (init_super_admin_signed_out b read (run c es).local location out.tokenless) refl,
    )

-- An accepted code opens the session: the pages are shown once the provider has loaded, and with
-- a token that reads as claims and has not expired they are shown after a reload too, to the user
-- of the claims.
pub access_after_code :
    (b : Browser) (read : Reader) (c : Console) (token location : String) (profile : SuperAdminUser)
    (claims : SuperAdminClaims)
    → c.is_loading ≡ false
    → token ≢ ""
    → decode_super_admin_token b read token ≡ some claims
    → is_super_admin_token_expired b read token ≡ false
    → let q = on_totp_verified token profile c in
      (super_admin_route q ≡ View.outlet)
      × (super_admin_route (init_super_admin b read (mount q.local location)) ≡ View.outlet)
unfolding super_admin_route on_totp_verified init_super_admin mount
access_after_code b read c token location profile claims h ne e x =
    (ground arith, ground (arith, get-save token c.local, truthy_of_ne token ne))

-- After a sign-out the route leads to the login page, at once and after a reload.
pub no_access_after_logout :
    (b : Browser) (read : Reader) (c : Console) (location : String)
    → c.is_loading ≡ false
    → (super_admin_route (logout c) ≡ View.redirect "/super-admin/login")
      × (super_admin_route (init_super_admin b read (mount (logout c).local location))
          ≡ View.redirect "/super-admin/login")
unfolding super_admin_route logout mount
no_access_after_logout b read c location h = (
  ground arith,
  rw
      (init_super_admin_signed_out b read (clear_super_admin_token c.local) location
        (get-clear c.local))
      refl,
)

abbrev pub AllDigits : String → Type 0
AllDigits String.[] = Unit
AllDigits (String.◌∷◌ c s) = (is_digit c ≡ true) × AllDigits s

only_digits-AllDigits : (s : String) → AllDigits (only_digits s)
unfolding only_digits
only_digits-AllDigits String.[] = tt
only_digits-AllDigits (String.◌∷◌ c s) = elim (Bool-cases (is_digit c)) [
  | inl e ↦ rw e (e, only_digits-AllDigits s)
  | inr e ↦ rw e (only_digits-AllDigits s)
]

text_take-AllDigits : (n : ℕ) (s : String) → AllDigits s → AllDigits (text_take n s)
text_take-AllDigits zero s h = tt
text_take-AllDigits (suc n) String.[] h = tt
text_take-AllDigits (suc n) (String.◌∷◌ c s) (p, h) = (p, text_take-AllDigits n s h)

handle_totp_change-code :
    (value : String) (c : Console) (pre_auth code : String)
    → (handle_totp_change value c).1 ≡ some (pre_auth, code)
    → text_take 6 (only_digits value) ≡ code
unfolding handle_totp_change
handle_totp_change-code value c pre_auth code h = ground arith

-- A change of the code field sends a verification request only with the pre-auth token of the
-- password step, and with a code of exactly six digits, which is what the field then holds.
pub handle_totp_change_lem :
    (value : String) (c : Console) (pre_auth code : String)
    → (handle_totp_change value c).1 ≡ some (pre_auth, code)
    → (truthy c.pre_auth_token ≡ some pre_auth)
      × ((handle_totp_change value c).0.totp_code ≡ code)
      × (text_length code ≡ 6)
      × AllDigits code
unfolding handle_totp_change
handle_totp_change_lem value c pre_auth code h = (
  ground arith,
  ground arith,
  ground arith,
  subst AllDigits (handle_totp_change-code value c pre_auth code h)
      (text_take-AllDigits 6 _ (only_digits-AllDigits value)),
)
