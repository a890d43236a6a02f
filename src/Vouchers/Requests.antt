-- ===== src/Vouchers/Requests.antt =====
-- What the page of the vouchers asks the server to change.
use frixel_connect.Base.{
  if-holds, all-keep, find-all, ℕ, ◌≡◌, ◌∙◌, refl, ◌⊎◌, inl, inr, Bool, true, not, ◌&&◌, String,
  List, [], ◌∷◌, Option, none, some, arith, find, keep, all, All, get_or, ◌===◌,
}
use frixel_connect.Portal.{AuthUser}
use frixel_connect.Queries.{Part}
use frixel_connect.Cache.{Mutation}
use frixel_connect.Cache.Writes.{use_revoke_voucher, use_retry_voucher}
use frixel_connect.Tables.{newest_first}
use frixel_connect.Tables.Filtering.{all-newest_first}
use frixel_connect.Vouchers.{
  Voucher, VoucherStatus, active, used, expired, revoked, pending_provision, status_eq,
  VouchersPage, first_render, filtered_vouchers, press_retry, press_revoke, handle_retry,
  handle_revoke, on_retried, on_revoked, Event, loaded, filtered, retry_of, revoke_of, was_retried,
  was_revoked, handle, handle_all,
}

status_eq-active : (s : VoucherStatus) → status_eq s active ≡ true → s ≡ active
status_eq-active active e = refl
status_eq-active used e = cc
status_eq-active expired e = cc
status_eq-active revoked e = cc
status_eq-active pending_provision e = cc

status_eq-pending :
    (s : VoucherStatus) → status_eq s pending_provision ≡ true → s ≡ pending_provision
status_eq-pending pending_provision e = refl
status_eq-pending used e = cc
status_eq-pending expired e = cc
status_eq-pending revoked e = cc
status_eq-pending active e = cc

module _ (listed : Voucher → Bool) (user : Option AuthUser) where
  -- An active voucher is revoked, or one that waits for its provisioning is tried again.
  abbrev pub IsOffered : Mutation Part String → Type 0
  IsOffered m =
      (v : Voucher) × (listed v ≡ true)
      × (((v.status ≡ active) × (m ≡ use_revoke_voucher v.id user))
          ⊎ ((v.status ≡ pending_provision) × (m ≡ use_retry_voucher v.id user)))

  -- What the server answers is `listed`.
  abbrev pub Lists : Event → Type 0
  Lists (loaded vouchers) = all listed (get_or vouchers []) ≡ true
  Lists _ = true ≡ true

  abbrev IsSafe : VouchersPage → Type 0
  IsSafe p = (all listed (get_or p.vouchers []) ≡ true) × All IsOffered p.sent

  press_retry-IsSafe :
      (v : Voucher) (p : VouchersPage) → listed v ≡ true → IsSafe p → IsSafe (press_retry user v p)
  unfolding press_retry handle_retry
  press_retry-IsSafe v p l (known, s) =
      if-holds IsSafe (status_eq v.status pending_provision && not p.is_retrying) _ p
        (λ e. (known, ((v, l, inr (status_eq-pending v.status (ground (arith, e)), refl)), s)))
        (λ e. (known, s))

  press_revoke-IsSafe :
      (v : Voucher) (p : VouchersPage) → listed v ≡ true → IsSafe p → IsSafe (press_revoke user v p)
  unfolding press_revoke handle_revoke
  press_revoke-IsSafe v p l (known, s) =
      if-holds IsSafe (status_eq v.status active && not p.is_revoking) _ p
        (λ e. (known, ((v, l, inl (status_eq-active v.status (ground (arith, e)), refl)), s)))
        (λ e. (known, s))

  tab-listed :
      (q : Option VoucherStatus) (rows : List Voucher)
      → all listed rows ≡ true
      → all listed (elim q [ none ↦ rows | some s ↦ keep (λ v. status_eq v.status s) rows ]) ≡ true
  tab-listed none rows h = h
  tab-listed (some s) rows h = all-keep listed _ rows h

  rows-listed :
      (get_time : String → ℕ) (o : Option (List Voucher)) (q : Option VoucherStatus)
      → all listed (get_or o []) ≡ true
      → all listed (elim o [
        | none ↦ []
        | some vouchers ↦
            let sorted = newest_first (λ v. get_time v.created_at) vouchers in
            elim q [ none ↦ sorted | some status ↦ keep (λ v. status_eq v.status status) sorted ]
      ])
        ≡ true
  rows-listed get_time none q h = refl
  rows-listed get_time (some vouchers) q h =
      tab-listed q _ (all-newest_first (λ v. get_time v.created_at) listed vouchers ∙ h)

  found-IsSafe :
      (press : Voucher → VouchersPage → VouchersPage) (o : Option Voucher) (p : VouchersPage)
      → ((v : Voucher) → listed v ≡ true → IsSafe (press v p))
      → ((v : Voucher) → o ≡ some v → listed v ≡ true)
      → IsSafe p
      → IsSafe (elim o [ none ↦ p | some v ↦ press v p ])
  found-IsSafe press none p h l v = v
  found-IsSafe press (some w) p h l v = h w (l w refl)

  on_row-IsSafe :
      (get_time : String → ℕ) (press : Voucher → VouchersPage → VouchersPage) (id : String)
      (p : VouchersPage)
      → ((v : Voucher) → listed v ≡ true → IsSafe (press v p))
      → IsSafe p
      → IsSafe (elim (find (λ v. v.id === id) (filtered_vouchers get_time p)) [
        | none ↦ p
        | some v ↦ press v p
      ])
  unfolding filtered_vouchers
  on_row-IsSafe get_time press id p h v =
      found-IsSafe press (find (λ v. v.id === id) (filtered_vouchers get_time p)) p h
        (λ w e.
          find-all listed (λ v. v.id === id) (filtered_vouchers get_time p) w
            (rows-listed get_time p.vouchers p.status_filter v.0) e)
        v

  handle-IsSafe :
      (get_time : String → ℕ) (p : VouchersPage) (e : Event)
      → Lists e
      → IsSafe p
      → IsSafe (handle get_time user p e)
  unfolding handle on_retried on_revoked
  handle-IsSafe g p (loaded vouchers) h (known, s) = (h, s)
  handle-IsSafe g p (filtered status) h v = v
  handle-IsSafe g p (retry_of id) h v =
      on_row-IsSafe g (press_retry user) id p (λ w l. press_retry-IsSafe w p l v) v
  handle-IsSafe g p (revoke_of id) h v =
      on_row-IsSafe g (press_revoke user) id p (λ w l. press_revoke-IsSafe w p l v) v
  handle-IsSafe g p (was_retried succeeded) h v = v
  handle-IsSafe g p (was_revoked succeeded) h v = v

  handle_all-IsSafe :
      (get_time : String → ℕ) (p : VouchersPage) (es : List Event)
      → All Lists es
      → IsSafe p
      → IsSafe (handle_all get_time user p es)
  unfolding handle_all
  handle_all-IsSafe g p [] hs v = v
  handle_all-IsSafe g p (e ∷ es) (h, hs) v =
      handle_all-IsSafe g (handle g user p e) es hs (handle-IsSafe g p e h v)

-- Whatever the admin does with the vouchers and whatever the server answers, a request revokes a voucher that the server listed
-- as active, or tries one again that it listed as waiting for its provisioning.
pub requests-IsActive :
    (listed : Voucher → Bool) (get_time : String → ℕ) (user : Option AuthUser) (es : List Event)
    → All (Lists listed user) es
    → All (IsOffered listed user) (handle_all get_time user first_render es).sent
requests-IsActive listed get_time user es hs =
    (handle_all-IsSafe listed user get_time first_render es hs (refl, tt)).1
