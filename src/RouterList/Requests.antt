-- ===== src/RouterList/Requests.antt =====
-- What the list of routers asks the server to change.
use frixel_connect.Base.{
  unless-holds, ◌≤◌, ◌≡◌, refl, ap, ◌⊎◌, inl, inr, Bool, true, false, not, prepend, ◌&&◌, ◌||◌,
  String, Option, none, some, List, [], ◌∷◌, arith, All, if◌then◌else◌, is_empty, is_some, truthy,
  get_or, Bool-cases,
}
use frixel_connect.Portal.{AuthUser}
use frixel_connect.Queries.{Part}
use frixel_connect.Cache.{Mutation, put, delete}
use frixel_connect.Cache.Writes.{use_create_router, use_update_router, use_delete_router}
use frixel_connect.RouterList.{
  MikrotikRouter, RouterStatus, online, offline, unknown, pending_setup, testing, RouterFormValues,
  RouterBody, RouterForm, RoutersPage, mount_form, is_valid, payload, on_submit, handle_submit,
  handle_delete, handle_open_edit_dialog, press_row, handle_close_dialog, on_saved, on_save_failed,
  ask_delete, on_deleted, on_delete_failed, first_render, Event, row, change, rotate, submit, close,
  saved, dialog_open, save_failed, delete_of, delete_open, confirm_delete, deleted, delete_failed,
  handle, handle_all,
}

-- A router as the schema wants it.
abbrev pub IsComplete : RouterBody → Type 0
IsComplete b =
    (is_empty b.name ≡ false)
    × (is_empty b.host ≡ false)
    × (1 ≤ b.port)
    × (is_empty b.username ≡ false)
    × (is_empty b.site_name ≡ false)

-- A router is deleted, or changed; its password only when `ticked`.
abbrev pub IsChange : Bool → Mutation Part RouterBody → Type 0
IsChange ticked m =
    (m.method ≡ delete)
    ⊎ ((m.method ≡ put)
        × ((b : RouterBody) × (m.body ≡ some b)
            × IsComplete b
            × ((ticked ≡ true) ⊎ (b.password ≡ none))))

-- The box for the password is ticked only when `ticked`.
abbrev pub Ticks : Bool → Event → Type 0
Ticks ticked (rotate b) = (b && not ticked) ≡ false
Ticks ticked _ = true ≡ true

module _ (user : Option AuthUser) (ticked : Bool) where
  -- An open dialog is on a router, in a form for an edit.
  abbrev IsOn : RoutersPage → Type 0
  IsOn p =
      (p.is_dialog_open ≡ false)
      ⊎ (((r : MikrotikRouter) × (p.editing_router ≡ some r))
          × (p.form.is_edit ≡ true)
          × ((p.form.rotate_password && not ticked) ≡ false))

  abbrev IsSafe : RoutersPage → Type 0
  IsSafe p = IsOn p × All (IsChange ticked) p.sent

  complete :
      (v : RouterFormValues) (password : Option String)
      → is_valid v ≡ true
      → IsComplete (record {
        name = v.name;
        host = v.host;
        port = get_or v.port 0;
        username = v.username;
        password = password;
        site_name = v.site_name;
      })
  unfolding is_valid
  complete v password h = ground (arith, h)

  payload-is_valid : (f : RouterForm) → is_valid f.values ≡ true → is_valid (payload f) ≡ true
  unfolding payload is_valid
  payload-is_valid f h = ground (arith, h)

  password_kept :
      (f : RouterForm)
      → f.is_edit ≡ true
      → (f.rotate_password && not ticked) ≡ false
      → (ticked ≡ true) ⊎ (truthy (payload f).password ≡ none)
  unfolding payload
  password_kept f e h = elim (Bool-cases ticked) [
    | inl t ↦ inl t
    | inr t ↦ inr (ground (arith, e, h, t))
  ]

  -- What `on_submit` does with the router that is edited.
  submitted-IsSafe :
      (o : Option MikrotikRouter) (v : RouterFormValues) (p : RoutersPage) (created : RoutersPage)
      → is_valid v ≡ true
      → is_some o ≡ true
      → (ticked ≡ true) ⊎ (truthy v.password ≡ none)
      → IsSafe p
      → IsSafe (elim o [
        | none ↦ created
        | some router ↦ record p {
          is_pending = true;
          sent =
              use_update_router router.id
                (record {
                  name = v.name;
                  host = v.host;
                  port = get_or v.port 0;
                  username = v.username;
                  password = truthy v.password;
                  site_name = v.site_name;
                })
                user
              ∷ p.sent;
        }
      ])
  unfolding use_update_router
  submitted-IsSafe none v p created h e k (on, s) = cc
  submitted-IsSafe (some router) v p created h e k (on, s) =
      (on, (inr (refl, (_, refl, complete v (truthy v.password) h, k)), s))

  on_submit-IsSafe :
      (v : RouterFormValues) (p : RoutersPage)
      → is_valid v ≡ true
      → is_some p.editing_router ≡ true
      → (ticked ≡ true) ⊎ (truthy v.password ≡ none)
      → IsSafe p
      → IsSafe (on_submit user v p)
  unfolding on_submit
  on_submit-IsSafe v p h e k w =
      let created : RoutersPage = record p {
        is_pending = true;
        sent =
            use_create_router
              (record {
                name = v.name;
                host = v.host;
                port = get_or v.port 0;
                username = v.username;
                password = some (get_or (truthy v.password) "");
                site_name = v.site_name;
              })
              user
            ∷ p.sent;
      } in
      submitted-IsSafe p.editing_router v p created h e k w

  handle_submit-IsSafe : (p : RoutersPage) → IsSafe p → IsSafe (handle_submit user p)
  unfolding handle_submit
  handle_submit-IsSafe p v =
      unless-holds IsSafe (not p.is_dialog_open || p.is_pending || not (is_valid p.form.values)) p
        (on_submit user (payload p.form) p) v
        (λ h. elim v.0 [
          | inl closed ↦ ground (arith, h, closed)
          | inr ((r, e), edit, kept) ↦
              on_submit-IsSafe (payload p.form) p (payload-is_valid p.form (ground (arith, h)))
                (ap (λ o. is_some o) e) (password_kept p.form edit kept) v
        ])

  row-IsSafe :
      (status : RouterStatus) (r : MikrotikRouter) (p : RoutersPage)
      → IsSafe p
      → IsSafe (elim status [
        | pending_setup ↦ record p { location = prepend "/admin/onboarding/router?router_id=" r.id }
        | _ ↦ handle_open_edit_dialog r p
      ])
  unfolding handle_open_edit_dialog mount_form
  row-IsSafe pending_setup r p v = v
  row-IsSafe online r p (on, s) = (inr ((r, refl), refl, refl), s)
  row-IsSafe offline r p (on, s) = (inr ((r, refl), refl, refl), s)
  row-IsSafe unknown r p (on, s) = (inr ((r, refl), refl, refl), s)
  row-IsSafe testing r p (on, s) = (inr ((r, refl), refl, refl), s)

  rotate-IsSafe :
      (b : Bool) (p : RoutersPage)
      → (b && not ticked) ≡ false
      → IsSafe p
      → IsSafe
          (if p.form.is_edit then record p { form = record p.form { rotate_password = b } } else p)
  rotate-IsSafe b p h v =
      unless-holds IsSafe p.form.is_edit (record p { form = record p.form { rotate_password = b } })
        p (elim v.0 [ inl closed ↦ inl closed | inr (r, edit, kept) ↦ inr (r, edit, h) ], v.1)
        (λ e. v)

  deleted-IsSafe :
      (o : Option String) (p : RoutersPage)
      → IsSafe p
      → IsSafe
          (elim o [ none ↦ p | some id ↦ record p { sent = use_delete_router id user ∷ p.sent } ])
  unfolding use_delete_router
  deleted-IsSafe none p v = v
  deleted-IsSafe (some id) p (on, s) = (on, (inl refl, s))

  handle_delete-IsSafe : (p : RoutersPage) → IsSafe p → IsSafe (handle_delete user p)
  unfolding handle_delete
  handle_delete-IsSafe p v = deleted-IsSafe (truthy p.deleting_router_id) p v

  handle-IsSafe :
      (p : RoutersPage) (e : Event) → Ticks ticked e → IsSafe p → IsSafe (handle user p e)
  unfolding handle press_row handle_close_dialog on_saved on_save_failed ask_delete on_deleted
      on_delete_failed
  handle-IsSafe p (row r) h v = row-IsSafe r.status r p v
  handle-IsSafe p (change values) h v = v
  handle-IsSafe p (rotate b) h v = rotate-IsSafe b p h v
  handle-IsSafe p submit h v = handle_submit-IsSafe p v
  handle-IsSafe p close h (on, s) =
      unless-holds IsSafe p.is_pending p (handle_close_dialog p) (on, s) (λ e. (inl refl, s))
  handle-IsSafe p saved h (on, s) = (inl refl, s)
  handle-IsSafe p (dialog_open b) h (on, s) =
      unless-holds IsSafe b p (record p { is_dialog_open = false }) (on, s) (λ e. (inl refl, s))
  handle-IsSafe p (save_failed detail) h v = v
  handle-IsSafe p (delete_of id) h v = v
  handle-IsSafe p (delete_open b) h v =
      unless-holds IsSafe b p (record p { is_delete_dialog_open = false }) v (λ e. v)
  handle-IsSafe p confirm_delete h v = handle_delete-IsSafe p v
  handle-IsSafe p deleted h v = v
  handle-IsSafe p (delete_failed detail) h v = v

  handle_all-IsSafe :
      (p : RoutersPage) (es : List Event)
      → All (Ticks ticked) es
      → IsSafe p
      → IsSafe (handle_all user p es)
  unfolding handle_all
  handle_all-IsSafe p [] hs v = v
  handle_all-IsSafe p (e ∷ es) (h, hs) v =
      handle_all-IsSafe (handle user p e) es hs (handle-IsSafe p e h v)

-- Whatever the admin does with the list of routers and whatever the server answers, a request deletes a router or changes one: none
-- creates one, a change is complete in the sense of the schema, and it carries a password only when the box for that was ticked
-- at some time.
pub changes-IsChange :
    (user : Option AuthUser) (ticked : Bool) (es : List Event)
    → All (Ticks ticked) es
    → All (IsChange ticked) (handle_all user first_render es).sent
changes-IsChange user ticked es hs =
    (handle_all-IsSafe user ticked first_render es hs (inl refl, tt)).1
