-- ===== src/Customers/Rows.antt =====
-- What the table and the details of a customer are looked up in.
use Prim.Native.Nat.{min}
use mathlib.Core.List.{Perm, append_assoc, append-nil}
use frixel_connect.Base.{
  map_get, map_set, map_get-map_set, ℕ, ◌≡◌, refl, sym, ◌∙◌, Bool-cases, inl, inr, String, List, [],
  ◌∷◌, ◌++◌, Option, none, some, arith, ◌===◌, eq_iff, get_or, keep, length, drop,
}
use frixel_connect.Tables.{newest_first}
use frixel_connect.Tables.Sorting.{IsNewestFirst, take-newest_first}
use frixel_connect.Dashboard.{Payment, User}
use frixel_connect.Customers.{
  set_each, push_each, subscription_by_customer, vouchers_by_customer, selected_user_payments,
}

module _ {ℓ} {A : Type ℓ} (key : A → String) where
  -- The rows of a customer, in the order they came in.
  abbrev pub rows_of : String → List A → List A
  rows_of k = keep (λ x. key x === k)

  abbrev pub last_or : Option A → List A → Option A
  last_or d [] = d
  last_or d (x ∷ xs) = last_or (some x) xs

  map_get-set_each :
      (k : String) (m : List (String × A)) (xs : List A)
      → map_get k (set_each key m xs) ≡ last_or (map_get k m) (rows_of k xs)
  unfolding set_each
  map_get-set_each k m [] = refl
  map_get-set_each k m (x ∷ xs) = elim (Bool-cases (key x === k)) [
    | inl e ↦
        map_get-set_each k (map_set (key x) x m) xs ∙ rw (map_get-map_set (key x) k x m, e) refl
    | inr e ↦
        map_get-set_each k (map_set (key x) x m) xs ∙ rw (map_get-map_set (key x) k x m, e) refl
  ]

  map_get-push_each :
      (k : String) (m : List (String × List A)) (xs : List A)
      → get_or (map_get k (push_each key m xs)) [] ≡ get_or (map_get k m) [] ++ rows_of k xs
  unfolding push_each
  map_get-push_each k m [] = sym (append-nil (get_or (map_get k m) []))
  map_get-push_each k m (x ∷ xs) =
      let pushed : List A = get_or (map_get (key x) m) [] ++ (x ∷ []) in
      let rest = map_get-push_each k (map_set (key x) pushed m) xs in
      let set = map_get-map_set (key x) k pushed m in
      elim (Bool-cases (key x === k)) [
        | inl e ↦
            let own : key x ≡ k = ground (arith, eq_iff (key x) k) in
            rw (rest, set, e, own) (append_assoc (get_or (map_get k m) []) (x ∷ []) (rows_of k xs))
        | inr e ↦ rw (rest, set, e) refl
      ]

  -- The two maps of the table hold for each customer the last subscription that came with the id of the
  -- customer, and all vouchers with this id, in the order they came in.
  pub rows_by_customer :
      (k : String) (xs : List A)
      → (map_get k (subscription_by_customer key xs) ≡ last_or none (rows_of k xs))
        × (get_or (map_get k (vouchers_by_customer key xs)) [] ≡ rows_of k xs)
  unfolding subscription_by_customer vouchers_by_customer
  rows_by_customer k xs = (map_get-set_each k [] xs, map_get-push_each k [] xs)

-- The details of a customer show the five newest payments of this customer, or all if there are fewer,
-- the newest first.
pub selected_user_payments_lem :
    (get_time : String → ℕ) (user : User) (payments : List Payment)
    → let own = rows_of (λ p. p.customer_id) user.id payments in
      let shown = selected_user_payments get_time (some user) (some payments) in
      (rest : List Payment) × Perm (shown ++ rest) own
      × IsNewestFirst (λ p. get_time p.created_at) (shown ++ rest)
      × (length shown ≡ min 5 (length own))
unfolding selected_user_payments
selected_user_payments_lem get_time user payments =
    let time : Payment → ℕ = λ p. get_time p.created_at in
    let own : List Payment = rows_of (λ p. p.customer_id) user.id payments in
    let split = take-newest_first time 5 own in
    (drop 5 (newest_first time own), split.0, split.1, split.2)
