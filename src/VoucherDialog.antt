-- ===== src/VoucherDialog.antt =====
-- A reseller sells a voucher from the wallet:
-- frontend/src/pages/reseller/GenerateVoucherDialog.tsx. Amounts are natural numbers, in one unit.
pub mod Steps
pub mod Origins
use frixel_connect.Base.{
  ℕ, ◌-◌, Bool, true, false, String, List, [], ◌∷◌, Option, none, some, if◌then◌else◌, ◌==◌, ◌===◌,
  leb, ◌||◌, ◌&&◌, not, keep, text_length, is_empty, truthy, get_or, find,
}
use frixel_connect.Phone.{is_kenyan_phone}
use frixel_connect.Customers.{includes}
use frixel_connect.Portal.{AuthUser}
use frixel_connect.Queries.{Part}
use frixel_connect.Cache.{Mutation}
use frixel_connect.Cache.Writes.{use_create_reseller_customer}

pub record Package : Type 0 where
  pub id : String
  pub price_kes : ℕ

pub record Dialog : Type 0 where
  pub step : ℕ
  pub selected_customer_id : String
  pub selected_package_id : String
  pub search_query : String
  pub is_quick_adding : Bool
  pub generated_voucher : Option String

-- The effect of an opening, with the preselected customer.
unfoldable pub open_dialog : Option String → Dialog
open_dialog preselected = record {
  step = 1;
  selected_customer_id = get_or (truthy preselected) "";
  selected_package_id = "";
  search_query = "";
  is_quick_adding = false;
  generated_voucher = none;
}

-- The answer of `handleQuickAdd`, and the click on a customer.
unfoldable pub on_customer_created : String → Dialog → Dialog
on_customer_created id d = record d { selected_customer_id = id; is_quick_adding = false }

unfoldable pub select_customer : String → Dialog → Dialog
select_customer id d =
    if d.step == 1 && not d.is_quick_adding then record d { selected_customer_id = id } else d

-- The search above the rows, and the buttons that open and leave the form for a new customer.
unfoldable pub search : String → Dialog → Dialog
search q d = if d.step == 1 && not d.is_quick_adding then record d { search_query = q } else d

unfoldable pub set_quick_adding : Bool → Dialog → Dialog
set_quick_adding b d = if d.step == 1 then record d { is_quick_adding = b } else d

unfoldable pub handle_next_step : Dialog → Dialog
handle_next_step d = if is_empty d.selected_customer_id then d else record d { step = 2 }

-- The choice of a package, and the button back; both belong to the second step.
unfoldable pub select_package : String → Dialog → Dialog
select_package id d = if is_empty id then d else record d { selected_package_id = id }

unfoldable pub go_back : Dialog → Dialog
go_back d = if d.step == 2 then record d { step = 1 } else d

-- `wallet?.balance_kes || 0` and `currentPackage?.price_kes || 0`.
abbrev pub wallet_balance : Option ℕ → ℕ
wallet_balance balance = get_or balance 0

unfoldable pub package_price : List Package → String → ℕ
package_price packages id = elim (find (λ p. p.id === id) packages) [
  | none ↦ 0
  | some p ↦ p.price_kes
]

-- `walletBalance - packagePrice >= 0`.
unfoldable pub is_affordable : Option ℕ → List Package → Dialog → Bool
unfolding package_price
is_affordable balance packages d =
    leb (package_price packages d.selected_package_id) (wallet_balance balance)

pub record GenerateRequest : Type 0 where
  pub customer_id : String
  pub package_id : String

-- `handleConfirmGenerate`, up to its request, and after the answer.
unfoldable pub handle_confirm_generate : Option ℕ → List Package → Dialog → Option GenerateRequest
unfolding is_affordable
handle_confirm_generate balance packages d =
    if is_empty d.selected_customer_id || is_empty d.selected_package_id
    then none
    else if not (is_affordable balance packages d)
    then none
    else some (record { customer_id = d.selected_customer_id; package_id = d.selected_package_id })

unfoldable pub on_generated : Option String → Dialog → Dialog
on_generated none d = d
on_generated (some voucher) d = record d { generated_voucher = some voucher; step = 3 }

pub data Event : Type 0 where
  opens : Option String → Event
  customer_created selects_customer selects_package searches : String → Event
  quick_adds : Bool → Event
  next back : Event
  answered : Option String → Event

-- `handleNextStep` is the button of the first step.
unfoldable pub step : Dialog → Event → Dialog
unfolding open_dialog on_customer_created select_customer search set_quick_adding handle_next_step
    select_package go_back on_generated
step d (opens preselected) = open_dialog preselected
step d (customer_created id) = on_customer_created id d
step d (selects_customer id) = select_customer id d
step d (selects_package id) = select_package id d
step d next = if d.step == 1 && not d.is_quick_adding then handle_next_step d else d
step d (searches q) = search q d
step d (quick_adds b) = set_quick_adding b d
step d back = go_back d
step d (answered voucher) = on_generated voucher d

unfoldable pub run : Dialog → List Event → Dialog
unfolding step
run d [] = d
run d (e ∷ es) = run (step d e) es

-- The rows of the first step, for the text that is searched.
pub record Customer : Type 0 where
  pub id : String
  pub email : String
  pub phone : String

unfoldable pub filtered_customers :
    (String → String) → Option (List Customer) → Dialog → List Customer
filtered_customers to_lower_case customers d =
    let q = to_lower_case d.search_query in
    keep
      (λ c.
        if is_empty d.search_query
        then true
        else includes (to_lower_case c.email) q || includes c.phone q)
      (get_or customers [])

-- The form for a new customer.
pub record QuickCustomer : Type 0 where
  pub email : String
  pub phone : String
  pub password : String
  pub router_id : String

-- `quickCustomerSchema`; the test for e-mail addresses is the schema library's.
unfoldable pub is_valid_quick : (String → Bool) → QuickCustomer → Bool
is_valid_quick is_email v =
    is_email v.email
    && (is_kenyan_phone v.phone
        && (leb 8 (text_length v.password) && leb 1 (text_length v.router_id)))

-- `handleQuickAdd` up to its request, with the button that is disabled while one is under way.
unfoldable pub handle_quick_add :
    (String → Bool)
    → Option AuthUser
    → Bool
    → QuickCustomer
    → Dialog
    → Option (Mutation Part QuickCustomer)
unfolding is_valid_quick
handle_quick_add is_email user is_pending v d =
    if d.step == 1 && (d.is_quick_adding && (not is_pending && is_valid_quick is_email v))
    then some (use_create_reseller_customer v user)
    else none

-- What is shown when it fails, with the status of the answer: beside the form, or as a message of its own.
pub data QuickError : Type 0 where
  in_form message : String → QuickError

unfoldable pub on_quick_add_failed : Option ℕ → QuickError
on_quick_add_failed none = message "Failed to register customer"
on_quick_add_failed (some status) =
    if status == 409
    then in_form "Phone or email is already registered."
    else message "Failed to register customer"
