-- ===== src/Customers/Requests.antt =====
-- What the user dialogs send.
use frixel_connect.Base.{
  ℕ, ◌≡◌, refl, ap, ◌∙◌, ◌≤◌, ◌⊎◌, inl, inr, Bool, Bool-cases, true, false, String, List, [], ◌∷◌,
  All, Option, Option-cases, none, some, arith, ◌===◌, leb, ◌||◌, text_length, truthy,
}
use frixel_connect.Auth.{customer}
use frixel_connect.Auth.Keys.{===-ne}
use frixel_connect.Routing.{role_eq}
use frixel_connect.Dashboard.{User}
use frixel_connect.Customers.{
  UserForm, Request, update_user, create_user, deactivate_user, CustomersPage, is_valid_form,
  set_editing_user, handle_open_dialog, handle_close_dialog, update_data, on_submit, handle_submit,
  on_saved, on_save_failed, handle_deactivate, on_deactivated,
}

-- What happens on the page. The dialogs can also be closed by their own means, which set only
-- whether they are open.
pub data Event : Type 0 where
  open_dialog : Option User → Event
  dismiss_dialog : Event
  fill_in : UserForm → Event
  submit : Event
  saved : Event
  save_failed : Option String → Event
  ask_delete : String → Event
  dismiss_delete : Event
  confirm_delete : Event
  deactivated : Bool → Event

long_of : (n : ℕ) (b : Bool) → (leb 8 n || b) ≡ true → b ≡ false → 8 ≤ n
long_of n b h e = ground arith

sent_password :
    (w : String)
    → (leb 8 (text_length w) || w === "") ≡ true
    → (truthy (some w) ≡ none) ⊎ ((v : String) × (truthy (some w) ≡ some v) × (8 ≤ text_length v))
sent_password String.[] h = inl refl
sent_password (String.◌∷◌ c s) h = inr (
  String.◌∷◌ c s,
  refl,
  long_of (text_length (String.◌∷◌ c s)) (String.◌∷◌ c s === "") h (===-ne _ _ (λ e. cc)),
)

sent-set_editing_user :
    (same : User → User → Bool) (u : Option User) (p : CustomersPage)
    → (set_editing_user same u p).sent ≡ p.sent
unfolding set_editing_user
sent-set_editing_user same u p = ground arith

sent-on_saved : (same : User → User → Bool) (p : CustomersPage) → (on_saved same p).sent ≡ p.sent
unfolding on_saved handle_close_dialog set_editing_user
sent-on_saved same p = ground arith

-- The dialog for a new user keeps its form.
abbrev IsNewForm : UserForm → CustomersPage → Type 0
IsNewForm f p = (p.editing_user ≡ none) × (p.form ≡ f)

set_editing_user-IsNewForm :
    (same : User → User → Bool) (f : UserForm) (p : CustomersPage)
    → IsNewForm f p
    → IsNewForm f (set_editing_user same none p)
unfolding set_editing_user
set_editing_user-IsNewForm same f p (e, h) =
    (rw (e, set_editing_user) refl, rw (e, set_editing_user) h)

handle_submit-IsNewForm :
    (is_email : String → Bool) (f : UserForm) (p : CustomersPage)
    → IsNewForm f p
    → IsNewForm f (handle_submit is_email p)
unfolding handle_submit on_submit
handle_submit-IsNewForm is_email f p (e, h) = (ground (arith, e, h), ground (arith, e, h))

sent-handle_submit :
    (is_email : String → Bool) (f : UserForm) (p : CustomersPage)
    → IsNewForm f p
    → is_valid_form is_email f ≡ true
    → (f.password === "") ≡ false
    → (handle_submit is_email p).sent ≡ create_user f ∷ p.sent
unfolding handle_submit on_submit
sent-handle_submit is_email f p (e, h) v k = ground (arith, e, h, v, k)

module _ (is_email : String → Bool) (same : User → User → Bool) where
  unfoldable pub handle : CustomersPage → Event → CustomersPage
  unfolding handle_open_dialog handle_submit on_saved on_save_failed handle_deactivate
      on_deactivated
  handle p (open_dialog u) = handle_open_dialog same u p
  handle p dismiss_dialog = record p { is_dialog_open = false }
  handle p (fill_in form) = record p { form = form }
  handle p submit = handle_submit is_email p
  handle p saved = on_saved same p
  handle p (save_failed detail) = on_save_failed detail p
  handle p (ask_delete id) = record p { deleting_user_id = some id; is_delete_dialog_open = true }
  handle p dismiss_delete = record p { is_delete_dialog_open = false }
  handle p confirm_delete = handle_deactivate p
  handle p (deactivated done) = on_deactivated done p

  unfoldable pub handle_all : CustomersPage → List Event → CustomersPage
  unfolding handle
  handle_all p [] = p
  handle_all p (e ∷ es) = handle_all (handle p e) es

  -- A password that is sent has at least eight characters, an e-mail address passes the test, a phone
  -- number is not empty, and the router of a user is changed only for customers.
  abbrev pub IsSound : Request → Type 0
  IsSound (create_user f) =
      (is_email f.email ≡ true) × (1 ≤ text_length f.phone) × (8 ≤ text_length f.password)
  IsSound (update_user id d) =
      (is_email d.email ≡ true)
      × (1 ≤ text_length d.phone)
      × ((d.password ≡ none) ⊎ ((w : String) × (d.password ≡ some w) × (8 ≤ text_length w)))
      × ((role_eq d.role customer ≡ true) ⊎ (d.router_id ≡ none))
  IsSound (deactivate_user id) = Unit

  create-IsSound :
      (f : UserForm)
      → is_valid_form is_email f ≡ true
      → (f.password === "") ≡ false
      → IsSound (create_user f)
  unfolding is_valid_form
  create-IsSound f h e = (ground arith, ground arith, ground arith)

  update-IsSound :
      (id : String) (f : UserForm)
      → is_valid_form is_email f ≡ true
      → IsSound (update_user id (update_data f))
  unfolding is_valid_form
  update-IsSound id f h =
      (ground arith, ground arith, sent_password f.password (ground arith), ground arith)

  on_submit-IsSound :
      (p : CustomersPage)
      → is_valid_form is_email p.form ≡ true
      → All IsSound p.sent
      → All IsSound (on_submit p).sent
  unfolding on_submit
  on_submit-IsSound p h v = elim (Option-cases p.editing_user) [
    | inr (u, e) ↦ rw (e, on_submit) (update-IsSound u.id p.form h, v)
    | inl e ↦ elim (Bool-cases (p.form.password === "")) [
      | inl k ↦ rw (e, on_submit) (rw k v)
      | inr k ↦ rw (e, on_submit) (rw k (create-IsSound p.form h k, v))
    ]
  ]

  handle-IsSound :
      (p : CustomersPage) (e : Event) → All IsSound p.sent → All IsSound (handle p e).sent
  unfolding handle handle_open_dialog handle_submit on_saved on_save_failed handle_close_dialog
      handle_deactivate on_deactivated
  handle-IsSound p (open_dialog u) v = rw (sent-set_editing_user same u p) v
  handle-IsSound p dismiss_dialog v = v
  handle-IsSound p (fill_in form) v = v
  handle-IsSound p submit v = elim (Bool-cases (is_valid_form is_email p.form)) [
    | inl h ↦ rw (h, handle_submit) (on_submit-IsSound p h v)
    | inr h ↦ rw (h, handle_submit) v
  ]
  handle-IsSound p saved v = rw (sent-on_saved same p) v
  handle-IsSound p (save_failed detail) v = v
  handle-IsSound p (ask_delete id) v = v
  handle-IsSound p dismiss_delete v = v
  handle-IsSound p confirm_delete v = elim (Option-cases (truthy p.deleting_user_id)) [
    | inl e ↦ rw (e, handle_deactivate) v
    | inr (id, e) ↦ rw (e, handle_deactivate) (tt, v)
  ]
  handle-IsSound p (deactivated done) v = v

  -- Whatever happens on a page whose requests so far are sound, every request that it has sent is sound: who is created has an
  -- e-mail address, a phone number and a password of at least eight characters; an update leaves the
  -- password out or gives one of at least eight characters, and it sends a router only for a customer.
  pub handle_all-IsSound :
      (p : CustomersPage) (es : List Event)
      → All IsSound p.sent
      → All IsSound (handle_all p es).sent
  unfolding handle_all
  handle_all-IsSound p [] v = v
  handle_all-IsSound p (e ∷ es) v = handle_all-IsSound (handle p e) es (handle-IsSound p e v)

  -- After a user was created from a valid form, the dialog for the next new user opens filled in with the previous
  -- one's details and password: the form is reset only when the edited user changes, and there is none before and after.
  pub second_create_is_prefilled :
      (p : CustomersPage) (f : UserForm)
      → p.editing_user ≡ none
      → is_valid_form is_email f ≡ true
      → (f.password === "") ≡ false
      → let q =
          handle_all p (open_dialog none ∷ fill_in f ∷ submit ∷ saved ∷ open_dialog none ∷ []) in
        (q.is_dialog_open ≡ true)
        × (q.editing_user ≡ none)
        × (q.form ≡ f)
        × (q.sent ≡ create_user f ∷ p.sent)
  unfolding handle_all handle handle_open_dialog handle_submit on_saved handle_close_dialog
      on_submit set_editing_user
  second_create_is_prefilled p f e v k =
      let filled : CustomersPage = record (handle_open_dialog same none p) { form = f } in
      let opened = set_editing_user-IsNewForm same p.form p (e, refl) in
      let sent = handle_submit-IsNewForm is_email f filled (opened.0, refl) in
      let closed = set_editing_user-IsNewForm same f _ sent in
      let again = set_editing_user-IsNewForm same f _ closed in
      let requests =
        sent-set_editing_user same none (on_saved same (handle_submit is_email filled))
        ∙ (sent-on_saved same (handle_submit is_email filled)
            ∙ (sent-handle_submit is_email f filled (opened.0, refl) v k
                ∙ ap (◌∷◌ (create_user f)) (sent-set_editing_user same none p))) in
      (refl, again.0, again.1, requests)
