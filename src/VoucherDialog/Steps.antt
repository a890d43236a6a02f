-- ===== src/VoucherDialog/Steps.antt =====
-- What the steps of the dialog guarantee, and what it asks the server for.
use frixel_connect.Base.{
  ℕ, ◌≤◌, ◌≡◌, refl, ◌≢◌, false, String, List, [], ◌∷◌, Option, some, ◌⊎◌, inl, arith, is_empty,
  of_not_empty, is_some, ◌==◌,
}
use frixel_connect.VoucherDialog.{
  Package, Dialog, open_dialog, package_price, wallet_balance, GenerateRequest,
  handle_confirm_generate, Event, opens, customer_created, selects_customer, selects_package,
  searches, quick_adds, next, back, answered, step, run,
}

-- One of three steps; the third exactly when there is a voucher to show.
pub record IsOrdered (d : Dialog) : Type 0 where
  pub known : (d.step ≡ 1) ⊎ ((d.step ≡ 2) ⊎ (d.step ≡ 3))
  pub shown : is_some d.generated_voucher ≡ (d.step == 3)

step-IsOrdered : (d : Dialog) (e : Event) → IsOrdered d → IsOrdered (step d e)
unfolding step
step-IsOrdered d (opens preselected) v = ground arith
step-IsOrdered d (customer_created id) v = ground arith
step-IsOrdered d (selects_customer id) v = ground arith
step-IsOrdered d (selects_package id) v = ground arith
step-IsOrdered d next v = ground arith
step-IsOrdered d (searches q) v = ground arith
step-IsOrdered d (quick_adds b) v = ground arith
step-IsOrdered d back v = ground arith
step-IsOrdered d (answered voucher) v = ground arith

run-IsOrdered : (d : Dialog) (es : List Event) → IsOrdered d → IsOrdered (run d es)
unfolding run
run-IsOrdered d [] v = v
run-IsOrdered d (e ∷ es) v = run-IsOrdered (step d e) es (step-IsOrdered d e v)

-- Whatever is clicked and answered after the dialog was opened, it is at one of its three steps, and at
-- the third one exactly when it has a voucher to show.
pub opened-IsOrdered :
    (preselected : Option String) (es : List Event) → IsOrdered (run (open_dialog preselected) es)
unfolding open_dialog
opened-IsOrdered preselected es =
    run-IsOrdered (open_dialog preselected) es (record { known = inl refl; shown = refl })

pub requested :
    (balance : Option ℕ) (packages : List Package) (d : Dialog) (r : GenerateRequest)
    → handle_confirm_generate balance packages d ≡ some r
    → (r.customer_id ≡ d.selected_customer_id)
      × (r.package_id ≡ d.selected_package_id)
      × (is_empty d.selected_customer_id ≡ false)
      × (is_empty d.selected_package_id ≡ false)
      × (package_price packages d.selected_package_id ≤ wallet_balance balance)
unfolding handle_confirm_generate
requested balance packages d r e = ground arith

-- The dialog asks the server for a voucher only for a customer and a package that were chosen, and at a price that the
-- wallet covers.
pub voucher_is_paid :
    (balance : Option ℕ) (packages : List Package) (d : Dialog) (r : GenerateRequest)
    → handle_confirm_generate balance packages d ≡ some r
    → (r.customer_id ≡ d.selected_customer_id)
      × (r.package_id ≡ d.selected_package_id)
      × (r.customer_id ≢ "")
      × (r.package_id ≢ "")
      × (package_price packages r.package_id ≤ wallet_balance balance)
voucher_is_paid balance packages d r e =
    let (customer, bought, full, full', covered) = requested balance packages d r e in
    (
      customer,
      bought,
      of_not_empty r.customer_id _ customer full,
      of_not_empty r.package_id _ bought full',
      rw bought covered,
    )
