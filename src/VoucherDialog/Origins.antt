-- ===== src/VoucherDialog/Origins.antt =====
-- Where the customer and the package of a sold voucher come from.
use frixel_connect.Base.{
  ℕ, ◌≤◌, ◌≡◌, ◌≢◌, sym, ◌⊎◌, inl, inr, Bool, true, false, String, Option, some, List, [], ◌∷◌,
  arith, any, truthy, get_or, ◌===◌, eq_iff,
}
use frixel_connect.VoucherDialog.{
  Package, Dialog, open_dialog, package_price, wallet_balance, GenerateRequest,
  handle_confirm_generate, on_customer_created, select_customer, search, set_quick_adding,
  handle_next_step, select_package, go_back, on_generated, Event, opens, customer_created,
  selects_customer, selects_package, searches, quick_adds, next, back, answered, step, run,
}
use frixel_connect.VoucherDialog.Steps.{voucher_is_paid}

-- An event that names the customer: an opening on it, the answer that it was created, or a click on it.
abbrev pub names_customer : String → Event → Bool
names_customer id (opens preselected) = get_or (truthy preselected) "" === id
names_customer id (customer_created c) = c === id
names_customer id (selects_customer c) = c === id
names_customer id _ = false

abbrev pub names_package : String → Event → Bool
names_package id (selects_package k) = k === id
names_package id _ = false

step-customer :
    (d : Dialog) (e : Event) (id : String)
    → (step d e).selected_customer_id ≡ id
    → (d.selected_customer_id ≡ id) ⊎ (names_customer id e ≡ true)
unfolding step open_dialog on_customer_created select_customer search set_quick_adding
    handle_next_step select_package go_back on_generated
step-customer d (opens preselected) id h =
    inr (ground (arith, h, eq_iff (get_or (truthy preselected) "") id))
step-customer d (customer_created c) id h = inr (ground (arith, h, eq_iff c id))
step-customer d (selects_customer c) id h = ground (arith, h, eq_iff c id)
step-customer d (selects_package k) id h = inl (ground (arith, h))
step-customer d next id h = inl (ground (arith, h))
step-customer d (searches q) id h = inl (ground (arith, h))
step-customer d (quick_adds b) id h = inl (ground (arith, h))
step-customer d back id h = inl (ground (arith, h))
step-customer d (answered voucher) id h = inl (ground (arith, h))

step-package :
    (d : Dialog) (e : Event) (id : String)
    → id ≢ ""
    → (step d e).selected_package_id ≡ id
    → (d.selected_package_id ≡ id) ⊎ (names_package id e ≡ true)
unfolding step open_dialog on_customer_created select_customer search set_quick_adding
    handle_next_step select_package go_back on_generated
step-package d (opens preselected) id ne h = absurd (ne (sym h))
step-package d (customer_created c) id ne h = inl h
step-package d (selects_customer c) id ne h = inl (ground (arith, h))
step-package d (selects_package k) id ne h = ground (arith, h, eq_iff k id)
step-package d next id ne h = inl (ground (arith, h))
step-package d (searches q) id ne h = inl (ground (arith, h))
step-package d (quick_adds b) id ne h = inl (ground (arith, h))
step-package d back id ne h = inl (ground (arith, h))
step-package d (answered voucher) id ne h = inl (ground (arith, h))

run-customer :
    (d : Dialog) (es : List Event) (id : String)
    → (run d es).selected_customer_id ≡ id
    → (d.selected_customer_id ≡ id) ⊎ (any (names_customer id) es ≡ true)
unfolding run
run-customer d [] id h = inl h
run-customer d (e ∷ es) id h = elim (run-customer (step d e) es id h) [
  | inl now ↦ elim (step-customer d e id now) [
    | inl before ↦ inl before
    | inr named ↦ inr (ground (arith, named))
  ]
  | inr later ↦ inr (ground (arith, later))
]

run-package :
    (d : Dialog) (es : List Event) (id : String)
    → id ≢ ""
    → (run d es).selected_package_id ≡ id
    → (d.selected_package_id ≡ id) ⊎ (any (names_package id) es ≡ true)
unfolding run
run-package d [] id ne h = inl h
run-package d (e ∷ es) id ne h = elim (run-package (step d e) es id ne h) [
  | inl now ↦ elim (step-package d e id ne now) [
    | inl before ↦ inl before
    | inr named ↦ inr (ground (arith, named))
  ]
  | inr later ↦ inr (ground (arith, later))
]

-- Whatever is clicked and answered since the dialog was opened, a voucher is asked for only for a customer on whom the
-- dialog was opened or who was created or clicked, and for a package that was chosen, at a price that the wallet covers.
pub sold_voucher :
    (preselected : Option String) (es : List Event) (balance : Option ℕ) (packages : List Package)
    (r : GenerateRequest)
    → handle_confirm_generate balance packages (run (open_dialog preselected) es) ≡ some r
    → (any (names_customer r.customer_id) (opens preselected ∷ es) ≡ true)
      × (any (names_package r.package_id) es ≡ true)
      × (package_price packages r.package_id ≤ wallet_balance balance)
unfolding open_dialog
sold_voucher preselected es balance packages r e =
    let d : Dialog = run (open_dialog preselected) es in
    let (own, bought, someone, something, covered) = voucher_is_paid balance packages d r e in
    (
      elim (run-customer (open_dialog preselected) es r.customer_id (sym own)) [
        | inl first ↦ ground (arith, first, eq_iff (get_or (truthy preselected) "") r.customer_id)
        | inr later ↦ ground (arith, later)
      ],
      elim (run-package (open_dialog preselected) es r.package_id something (sym bought)) [
        | inl first ↦ absurd (something (sym first))
        | inr later ↦ later
      ],
      covered,
    )
