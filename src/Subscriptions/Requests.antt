-- ===== src/Subscriptions/Requests.antt =====
-- What the page of the subscriptions asks the server to change.
use frixel_connect.Base.{
  unless-holds, all-keep, ◌≡◌, refl, ap, ◌⊎◌, inl, inr, Bool, true, not, ◌&&◌, String, List, [],
  ◌∷◌, Option, none, some, arith, ◌===◌, find, find-all, all, All, truthy, get_or, Bool-cases,
  truthy-some,
}
use frixel_connect.Portal.{AuthUser}
use frixel_connect.Queries.{Part}
use frixel_connect.Cache.{Mutation}
use frixel_connect.Cache.Writes.{use_suspend_subscription, use_reactivate_subscription}
use frixel_connect.Subscriptions.{
  Subscription, SubscriptionStatus, active, grace, suspended, cancelled, SubscriptionsPage,
  first_render, filtered_subscriptions, can_suspend, can_reactivate, open_suspend, handle_suspend,
  on_suspended, on_suspend_failed, handle_reactivate, on_reactivated, on_reactivate_failed, press,
  press_row, Event, loaded, chosen, searched, pressed, confirmed, dismissed, done, reactivated,
  dialog_open, suspend_failed, reactivate_failed, handle, handle_all,
}

can_suspend-cases : (t : SubscriptionStatus) → can_suspend t ≡ true → (t ≡ active) ⊎ (t ≡ grace)
unfolding can_suspend
can_suspend-cases active e = inl refl
can_suspend-cases grace e = inr refl
can_suspend-cases suspended e = cc
can_suspend-cases cancelled e = cc

can_reactivate-cases : (t : SubscriptionStatus) → can_reactivate t ≡ true → t ≡ suspended
unfolding can_reactivate
can_reactivate-cases suspended e = refl
can_reactivate-cases active e = cc
can_reactivate-cases grace e = cc
can_reactivate-cases cancelled e = cc

module _ (listed : Subscription → Bool) (user : Option AuthUser) where
  -- The suspension of a subscription that is active or in its days of grace, or the reactivation of a suspended one.
  abbrev pub IsOffered : Mutation Part String → Type 0
  IsOffered m =
      (s : Subscription) × (listed s ≡ true)
      × ((((s.status ≡ active) ⊎ (s.status ≡ grace)) × (m ≡ use_suspend_subscription s.id user))
          ⊎ ((s.status ≡ suspended) × (m ≡ use_reactivate_subscription s.id user)))

  -- What the server answers is `listed`.
  abbrev pub Lists : Event → Type 0
  Lists (loaded subscriptions) = all listed (get_or subscriptions []) ≡ true
  Lists _ = true ≡ true

  -- The open dialog is on a subscription whose row had the button.
  abbrev IsAsked : Option String → Type 0
  IsAsked o =
      (o ≡ none)
      ⊎ ((s : Subscription) × (listed s ≡ true) × (can_suspend s.status ≡ true) × (o ≡ some s.id))

  abbrev IsSafe : SubscriptionsPage → Type 0
  IsSafe p =
      (all listed (get_or p.subscriptions []) ≡ true)
      × IsAsked p.suspend_dialog_id
      × All IsOffered p.sent

  closed-IsSafe :
      (p : SubscriptionsPage) → IsSafe p → IsSafe (record p { suspend_dialog_id = none })
  closed-IsSafe p (known, asked, s) = (known, inl refl, s)

  press-IsSafe :
      (s : Subscription) (p : SubscriptionsPage)
      → listed s ≡ true
      → IsSafe p
      → IsSafe (press user s p)
  unfolding press open_suspend handle_reactivate
  press-IsSafe s p l (known, asked, sent) = elim (Bool-cases (can_suspend s.status)) [
    | inl y ↦ rw y (known, inr (s, l, y, refl), sent)
    | inr n ↦ rw n (elim (Bool-cases (can_reactivate s.status && not p.is_reactivating)) [
      | inl y ↦ rw y (
        known,
        asked,
        ((s, l, inr (can_reactivate-cases s.status (ground (arith, y)), refl)), sent),
      )
      | inr n' ↦ rw n' (known, asked, sent)
    ])
  ]

  found-IsSafe :
      (o : Option Subscription) (p : SubscriptionsPage)
      → ((s : Subscription) → o ≡ some s → listed s ≡ true)
      → IsSafe p
      → IsSafe (elim o [ none ↦ p | some s ↦ press user s p ])
  found-IsSafe none p h v = v
  found-IsSafe (some s) p h v = press-IsSafe s p (h s refl) v

  press_row-IsSafe :
      (to_lower_case : String → String) (id : String) (p : SubscriptionsPage)
      → IsSafe p
      → IsSafe (press_row to_lower_case user id p)
  unfolding press_row filtered_subscriptions
  press_row-IsSafe to_lower_case id p (known, asked, sent) =
      found-IsSafe (find (λ s. s.id === id) (filtered_subscriptions to_lower_case p)) p
        (λ s e.
          find-all listed (λ s. s.id === id) (filtered_subscriptions to_lower_case p) s
            (all-keep listed _ (get_or p.subscriptions []) known) e)
        (known, asked, sent)

  truthy-IsAsked :
      (o : Option String) (id : String)
      → truthy o ≡ some id
      → IsAsked o
      → (s : Subscription) × (listed s ≡ true) × (can_suspend s.status ≡ true) × (id ≡ s.id)
  truthy-IsAsked o id e (inl closed) = ground (arith, e, closed)
  truthy-IsAsked o id e (inr (s, l, c, on)) = (s, l, c, ground (arith, truthy-some o id e, on))

  suspend-IsSafe :
      (o : Option String) (p : SubscriptionsPage)
      → ((id : String)
          → o ≡ some id
          → (s : Subscription) × (listed s ≡ true) × (can_suspend s.status ≡ true) × (id ≡ s.id))
      → IsSafe p
      → IsSafe (elim o [
        | none ↦ p
        | some id ↦ record p {
          is_suspending = true;
          sent = use_suspend_subscription id user ∷ p.sent;
        }
      ])
  suspend-IsSafe none p h v = v
  suspend-IsSafe (some id) p h (known, asked, sent) =
      let (s, l, c, on) = h id refl in
      (
        known,
        asked,
        (
          (s, l, inl (can_suspend-cases s.status c, ap (λ i. use_suspend_subscription i user) on)),
          sent,
        ),
      )

  handle_suspend-IsSafe : (p : SubscriptionsPage) → IsSafe p → IsSafe (handle_suspend user p)
  unfolding handle_suspend
  handle_suspend-IsSafe p v = unless-holds IsSafe p.is_suspending p _ v (λ e.
      suspend-IsSafe (truthy p.suspend_dialog_id) p
        (λ id e. truthy-IsAsked p.suspend_dialog_id id e v.1) v)

  handle-IsSafe :
      (to_lower_case : String → String) (p : SubscriptionsPage) (e : Event)
      → Lists e
      → IsSafe p
      → IsSafe (handle to_lower_case user p e)
  unfolding handle on_suspended on_suspend_failed on_reactivated on_reactivate_failed
  handle-IsSafe f p (loaded subscriptions) h (known, v, s) = (h, v, s)
  handle-IsSafe f p (chosen tab) h v = v
  handle-IsSafe f p (searched q) h v = v
  handle-IsSafe f p (pressed id) h v = press_row-IsSafe f id p v
  handle-IsSafe f p confirmed h v = handle_suspend-IsSafe p v
  handle-IsSafe f p dismissed h v =
      unless-holds IsSafe p.is_suspending p (record p { suspend_dialog_id = none }) v
        (λ e. closed-IsSafe p v)
  handle-IsSafe f p (dialog_open b) h v =
      unless-holds IsSafe b p (record p { suspend_dialog_id = none }) v (λ e. closed-IsSafe p v)
  handle-IsSafe f p done h (known, asked, s) = (known, inl refl, s)
  handle-IsSafe f p reactivated h v = v
  handle-IsSafe f p (suspend_failed detail) h v = v
  handle-IsSafe f p (reactivate_failed detail) h v = v

  handle_all-IsSafe :
      (to_lower_case : String → String) (p : SubscriptionsPage) (es : List Event)
      → All Lists es
      → IsSafe p
      → IsSafe (handle_all to_lower_case user p es)
  unfolding handle_all
  handle_all-IsSafe f p [] hs v = v
  handle_all-IsSafe f p (e ∷ es) (h, hs) v =
      handle_all-IsSafe f (handle f user p e) es hs (handle-IsSafe f p e h v)

-- Whatever the admin does and the server answers, a request suspends a subscription that the server listed as active or
-- in its days of grace, or reactivates one that it listed as suspended.
pub requests-IsOffered :
    (listed : Subscription → Bool) (to_lower_case : String → String) (user : Option AuthUser)
    (es : List Event)
    → All (Lists listed user) es
    → All (IsOffered listed user) (handle_all to_lower_case user first_render es).sent
requests-IsOffered listed to_lower_case user es hs =
    (handle_all-IsSafe listed user to_lower_case first_render es hs (refl, inl refl, tt)).2
