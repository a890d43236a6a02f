-- ===== src/Tenants/Actions.antt =====
-- What the list of tenants asks the server to do.
use frixel_connect.Base.{
  ℕ, ◌||◌, ◌&&◌, ◌⊎◌, ◌==◌, not, ◌===◌, any, Bool-cases, eq_refl, if-holds, ◌≡◌, refl, ◌≤◌, inl,
  inr, Bool, true, false, String, List, [], ◌∷◌, All, Option, Option-cases, none, some, arith, ltb,
  text_length,
}
use frixel_connect.Routing.{is_suspended_status}
use frixel_connect.Tenants.{
  TenantRow, Target, Request, suspend, reactivate, trigger_billing, impersonate, TenantsPage,
  first_render, Event, type_search, search_submit, status_tab, previous, next, menu,
  choose_impersonation_of, choose_billing_of, choose_suspension_of, choose_reactivation_of,
  choose_duration, type_reason, start_impersonation, confirm_suspend, confirm_reactivate,
  confirm_billing, impersonation_over, suspend_over, reactivate_over, billing_over, handle,
  handle_all, handle_search_submit, handle_status_tab_change, previous_page, next_page, toggle_menu,
  press_duration, durations, choose_impersonate, choose_billing, choose_suspend, choose_reactivate,
  handle_start_impersonation, handle_confirm_suspend, handle_confirm_reactivate,
  handle_confirm_billing, close_suspend,
}

-- An event that opens the dialog of a tenant from a row which shows it as not suspended, and one from a row which shows it as suspended.
abbrev pub suspends_active : String → Event → Bool
suspends_active id (choose_suspension_of t) = (t.id === id) && not (is_suspended_status t.status)
suspends_active id _ = false

abbrev pub reactivates_suspended : String → Event → Bool
reactivates_suspended id (choose_reactivation_of t) = (t.id === id) && is_suspended_status t.status
reactivates_suspended id _ = false

-- What may be sent, for the tenants that were seen active and those that were seen suspended.
abbrev pub IsSeen : (String → Bool) → (String → Bool) → Request → Type 0
IsSeen active suspended (suspend id reason) = (active id ≡ true) × (10 ≤ text_length reason)
IsSeen active suspended (reactivate id) = suspended id ≡ true
IsSeen active suspended (impersonate id minutes) =
    (minutes ≡ 15) ⊎ ((minutes ≡ 30) ⊎ (minutes ≡ 60))
IsSeen active suspended (trigger_billing id) = Unit

-- What may be sent after the events `es`.
abbrev pub IsAllowed : List Event → Request → Type 0
IsAllowed es = IsSeen (λ id. any (suspends_active id) es) (λ id. any (reactivates_suspended id) es)

module _ (active suspended : String → Bool) where
  abbrev IsTrue : Event → Type 0
  IsTrue (choose_suspension_of t) = (is_suspended_status t.status || active t.id) ≡ true
  IsTrue (choose_reactivation_of t) = (not (is_suspended_status t.status) || suspended t.id) ≡ true
  IsTrue _ = Unit

  abbrev IsTarget : (String → Bool) → Option Target → Type 0
  IsTarget seen none = Unit
  IsTarget seen (some t) = seen t.id ≡ true

  abbrev IsOffered : ℕ → Type 0
  IsOffered minutes = (minutes ≡ 15) ⊎ ((minutes ≡ 30) ⊎ (minutes ≡ 60))

  abbrev IsSafe : TenantsPage → Type 0
  IsSafe p =
      IsTarget active p.suspend_tenant
      × IsTarget suspended p.reactivate_tenant
      × IsOffered p.impersonate_duration
      × All (IsSeen active suspended) p.sent

  duration-IsSafe : (d : ℕ) (p : TenantsPage) → IsSafe p → IsSafe (press_duration d p)
  unfolding press_duration
  duration-IsSafe d p (a, b, c, r) =
      if-holds IsSafe (any (λ m. m == d) durations) _ p (λ e. (a, b, ground (arith, e), r))
        (λ e. (a, b, c, r))

  choose_suspend-IsSafe :
      (t : TenantRow) (p : TenantsPage)
      → (is_suspended_status t.status || active t.id) ≡ true
      → IsSafe p
      → IsSafe (choose_suspend t p)
  unfolding choose_suspend
  choose_suspend-IsSafe t p h (a, b, d, r) =
      if-holds IsSafe (is_suspended_status t.status) _ _ (λ e. (a, b, d, r))
        (λ e. (ground (arith, e, h), b, d, r))

  choose_reactivate-IsSafe :
      (t : TenantRow) (p : TenantsPage)
      → (not (is_suspended_status t.status) || suspended t.id) ≡ true
      → IsSafe p
      → IsSafe (choose_reactivate t p)
  unfolding choose_reactivate
  choose_reactivate-IsSafe t p h (a, b, d, r) =
      if-holds IsSafe (is_suspended_status t.status) _ _ (λ e. (a, ground (arith, e, h), d, r))
        (λ e. (a, b, d, r))

  confirm_suspend-IsSafe : (p : TenantsPage) → IsSafe p → IsSafe (handle_confirm_suspend p)
  unfolding handle_confirm_suspend
  confirm_suspend-IsSafe p (a, b, d, r) = elim (Option-cases p.suspend_tenant) [
    | inl e ↦ rw (e, handle_confirm_suspend) (a, b, d, r)
    | inr (t, e) ↦
        let own : active t.id ≡ true = rw e at a in
        rw (e, handle_confirm_suspend)
          (if-holds IsSafe (ltb (text_length p.suspend_reason) 10) _ _ (λ k. (a, b, d, r))
            (λ k. (a, b, d, ((own, ground arith), r))))
  ]

  confirm_reactivate-IsSafe : (p : TenantsPage) → IsSafe p → IsSafe (handle_confirm_reactivate p)
  unfolding handle_confirm_reactivate
  confirm_reactivate-IsSafe p (a, b, d, r) = elim (Option-cases p.reactivate_tenant) [
    | inl e ↦ rw (e, handle_confirm_reactivate) (a, b, d, r)
    | inr (t, e) ↦
        let own : suspended t.id ≡ true = rw e at b in
        rw (e, handle_confirm_reactivate) (a, b, d, (own, r))
  ]

  confirm_billing-IsSafe : (p : TenantsPage) → IsSafe p → IsSafe (handle_confirm_billing p)
  unfolding handle_confirm_billing
  confirm_billing-IsSafe p (a, b, d, r) = elim (Option-cases p.billing_tenant) [
    | inl e ↦ rw (e, handle_confirm_billing) (a, b, d, r)
    | inr (t, e) ↦ rw (e, handle_confirm_billing) (a, b, d, (tt, r))
  ]

  start_impersonation-IsSafe : (p : TenantsPage) → IsSafe p → IsSafe (handle_start_impersonation p)
  unfolding handle_start_impersonation
  start_impersonation-IsSafe p (a, b, d, r) = elim (Option-cases p.impersonate_tenant) [
    | inl e ↦ rw (e, handle_start_impersonation) (a, b, d, r)
    | inr (t, e) ↦ rw (e, handle_start_impersonation) (a, b, d, (d, r))
  ]

  toggle_menu-IsSafe : (id : String) (p : TenantsPage) → IsSafe p → IsSafe (toggle_menu id p)
  unfolding toggle_menu
  toggle_menu-IsSafe id p v = elim (Option-cases p.open_menu_id) [
    | inl e ↦ rw (e, toggle_menu) v
    | inr (open_id, e) ↦ rw (e, toggle_menu) v
  ]

  handle-IsSafe : (p : TenantsPage) (e : Event) → IsTrue e → IsSafe p → IsSafe (handle p e)
  unfolding handle handle_search_submit handle_status_tab_change previous_page next_page
      choose_impersonate choose_billing close_suspend
  handle-IsSafe p (type_search s) h v = v
  handle-IsSafe p search_submit h v = v
  handle-IsSafe p (status_tab s) h v = v
  handle-IsSafe p (previous pages) h v = if-holds IsSafe _ _ p (λ e. v) (λ e. v)
  handle-IsSafe p (next pages) h v = if-holds IsSafe _ _ p (λ e. v) (λ e. v)
  handle-IsSafe p (menu id) h v = toggle_menu-IsSafe id p v
  handle-IsSafe p (choose_impersonation_of t) h v = v
  handle-IsSafe p (choose_billing_of t) h v = v
  handle-IsSafe p (choose_suspension_of t) h v = choose_suspend-IsSafe t p h v
  handle-IsSafe p (choose_reactivation_of t) h v = choose_reactivate-IsSafe t p h v
  handle-IsSafe p (choose_duration d) h v = duration-IsSafe d p v
  handle-IsSafe p (type_reason s) h v = v
  handle-IsSafe p start_impersonation h v = start_impersonation-IsSafe p v
  handle-IsSafe p confirm_suspend h v = confirm_suspend-IsSafe p v
  handle-IsSafe p confirm_reactivate h v = confirm_reactivate-IsSafe p v
  handle-IsSafe p confirm_billing h v = confirm_billing-IsSafe p v
  handle-IsSafe p impersonation_over h v = v
  handle-IsSafe p suspend_over h (a, b, d, r) = (tt, b, d, r)
  handle-IsSafe p reactivate_over h (a, b, d, r) = (a, tt, d, r)
  handle-IsSafe p billing_over h v = v

  handle_all-IsSafe :
      (p : TenantsPage) (es : List Event) → All IsTrue es → IsSafe p → IsSafe (handle_all p es)
  unfolding handle_all
  handle_all-IsSafe p [] hs v = v
  handle_all-IsSafe p (e ∷ es) (h, hs) v =
      handle_all-IsSafe (handle p e) es hs (handle-IsSafe p e h v)

  tells_first :
      (e : Event) (es : List Event)
      → ((id : String) → any (suspends_active id) (e ∷ es) ≡ true → active id ≡ true)
      → ((id : String) → any (reactivates_suspended id) (e ∷ es) ≡ true → suspended id ≡ true)
      → IsTrue e
  tells_first (choose_suspension_of t) es f g = elim (Bool-cases (is_suspended_status t.status)) [
    | inl e ↦ ground (arith, e)
    | inr e ↦ ground (arith, e, f t.id (ground (arith, e, eq_refl t.id)))
  ]
  tells_first (choose_reactivation_of t) es f g = elim (Bool-cases (is_suspended_status t.status)) [
    | inl e ↦ ground (arith, e, g t.id (ground (arith, e, eq_refl t.id)))
    | inr e ↦ ground (arith, e)
  ]
  tells_first _ es f g = tt

  -- A history tells the truth to those who know all that it shows.
  tells :
      (es : List Event)
      → ((id : String) → any (suspends_active id) es ≡ true → active id ≡ true)
      → ((id : String) → any (reactivates_suspended id) es ≡ true → suspended id ≡ true)
      → All IsTrue es
  tells [] f g = tt
  tells (e ∷ es) f g = (
    tells_first e es f g,
    tells es (λ id k. f id (ground (arith, k))) (λ id k. g id (ground (arith, k))),
  )

-- Whatever is pressed in which order, and whatever rows the list shows from time to time: the page asks to suspend a tenant only with a reason of
-- at least ten characters, and only when at some time its dialog is opened from a row that shows it as not suspended; it asks to
-- reactivate one only when that is chosen in a row that shows it as suspended; and to impersonate for 15, 30 or 60 minutes.
pub handle_all-IsAllowed : (es : List Event) → All (IsAllowed es) (handle_all first_render es).sent
handle_all-IsAllowed es =
    let active : String → Bool = λ id. any (suspends_active id) es in
    let suspended : String → Bool = λ id. any (reactivates_suspended id) es in
    (handle_all-IsSafe active suspended first_render es
      (tells active suspended es (λ id k. k) (λ id k. k)) (tt, tt, inr (inl refl), tt)).3

-- A suspension that succeeds after its dialog was closed closes the dialog of another tenant that was
-- opened meanwhile and throws away the reason typed there: nothing more is sent when it is confirmed.
pub late_answer_closes_dialog :
    (p : TenantsPage) (a b : TenantRow) (first second : String)
    → is_suspended_status a.status ≡ false
    → is_suspended_status b.status ≡ false
    → 10 ≤ text_length first
    → let q = handle_all p (
        choose_suspension_of a
        ∷ type_reason first
        ∷ confirm_suspend
        ∷ suspend_over
        ∷ choose_suspension_of b
        ∷ type_reason second
        ∷ suspend_over
        ∷ confirm_suspend
        ∷ []) in
      (q.suspend_tenant ≡ none) × (q.suspend_reason ≡ "") × (q.sent ≡ suspend a.id first ∷ p.sent)
unfolding handle_all handle choose_suspend handle_confirm_suspend close_suspend
late_answer_closes_dialog p a b first second h k l =
    let long : ltb (text_length first) 10 ≡ false = ground arith in
    rw (h, choose_suspend) (rw long (rw k (refl, refl, refl)))
