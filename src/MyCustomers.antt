-- ===== src/MyCustomers.antt =====
-- The customers of a reseller: frontend/src/pages/reseller/MyCustomersPage.tsx, and the dialog that sells a voucher from
-- it. The answers of the server are events; the lower case of a text and the test for e-mail addresses are parameters.
pub mod Sales
use frixel_connect.Base.{
  ℕ, Bool, true, false, not, ◌&&◌, ◌||◌, String, List, [], ◌∷◌, Option, none, some, if◌then◌else◌,
  ◌===◌, ◌==◌, keep, find, is_empty, truthy, get_or, trim, leb, text_length,
}
use frixel_connect.Phone.{is_kenyan_phone}
use frixel_connect.Portal.{AuthUser}
use frixel_connect.Queries.{Part}
use frixel_connect.Cache.{Mutation}
use frixel_connect.Cache.Writes.{use_create_reseller_customer}
use frixel_connect.Customers.{includes}
use frixel_connect.VoucherDialog
use frixel_connect.VoucherDialog.{
  Package, Dialog, GenerateRequest, open_dialog, handle_confirm_generate, step, opens,
}

pub record Customer : Type 0 where
  pub id : String
  pub email : String
  pub phone : String
  pub is_active : Bool

pub record CreateCustomer : Type 0 where
  pub email : String
  pub phone : String
  pub password : String
  pub router_id : String

-- `sent` and `asked` hold the requests of the form and of the dialog, the latest first.
pub record MyCustomersPage : Type 0 where
  pub customers : Option (List Customer)
  pub search_query : String
  pub is_dialog_open : Bool
  pub is_pending : Bool
  pub form_error : Option String
  pub is_voucher_open : Bool
  pub voucher_cust_id : Option String
  pub dialog : Dialog
  pub sent : List (Mutation Part CreateCustomer)
  pub asked : List GenerateRequest
  pub toast : Option String

abbrev pub first_render : MyCustomersPage
first_render = record {
  customers = none;
  search_query = "";
  is_dialog_open = false;
  is_pending = false;
  form_error = none;
  is_voucher_open = false;
  voucher_cust_id = none;
  dialog = open_dialog none;
  sent = [];
  asked = [];
  toast = none;
}

unfoldable pub filtered_customers : (String → String) → MyCustomersPage → List Customer
filtered_customers to_lower_case p =
    let q = to_lower_case p.search_query in
    keep
      (λ c.
        if is_empty (trim p.search_query)
        then true
        else includes (to_lower_case c.email) q || includes c.phone q)
      (get_or p.customers [])

-- `createCustomerSchema`.
unfoldable pub is_valid : (String → Bool) → CreateCustomer → Bool
is_valid is_email v =
    is_email v.email
    && (is_kenyan_phone v.phone
        && (leb 8 (text_length v.password) && leb 1 (text_length v.router_id)))

unfoldable pub handle_open_dialog : MyCustomersPage → MyCustomersPage
handle_open_dialog p = record p { form_error = none; is_dialog_open = true }

unfoldable pub handle_close_dialog : MyCustomersPage → MyCustomersPage
handle_close_dialog p = record p { is_dialog_open = false }

-- `onSubmit` up to its request, with the button that is disabled while one is under way.
unfoldable pub on_submit :
    (String → Bool) → Option AuthUser → CreateCustomer → MyCustomersPage → MyCustomersPage
unfolding is_valid
on_submit is_email user v p =
    if p.is_dialog_open && (not p.is_pending && is_valid is_email v)
    then record p {
      is_pending = true;
      form_error = none;
      sent = use_create_reseller_customer v user ∷ p.sent;
    }
    else p

unfoldable pub on_created : MyCustomersPage → MyCustomersPage
unfolding handle_close_dialog
on_created p =
    handle_close_dialog
      (record p { is_pending = false; toast = some "Customer created successfully" })

-- With the status of the answer.
unfoldable pub on_create_failed : Option ℕ → MyCustomersPage → MyCustomersPage
on_create_failed status p =
    if get_or status 0 == 409
    then record p {
      is_pending = false;
      form_error = some "This email or phone is already registered.";
    }
    else record p { is_pending = false; toast = some "Failed to create customer" }

-- The dialog for vouchers is set up when it opens: `voucherCustId || undefined` is its customer.
unfoldable pub set_voucher_open : Bool → MyCustomersPage → MyCustomersPage
set_voucher_open is_open p =
    if is_open && not p.is_voucher_open
    then record p { is_voucher_open = true; dialog = open_dialog (truthy p.voucher_cust_id) }
    else record p { is_voucher_open = is_open }

-- `handleSellPlan`, with the effect of the dialog: an open one is set up again for another customer only. And the button of a row, which is disabled for an inactive customer.
unfoldable pub handle_sell_plan : String → MyCustomersPage → MyCustomersPage
handle_sell_plan customer_id p = record p {
  voucher_cust_id = some customer_id;
  is_voucher_open = true;
  dialog =
      if p.is_voucher_open && (get_or p.voucher_cust_id "" === customer_id)
      then p.dialog
      else open_dialog (truthy (some customer_id));
}

unfoldable pub sell_to : Option Customer → MyCustomersPage → MyCustomersPage
unfolding handle_sell_plan
sell_to none p = p
sell_to (some c) p = if c.is_active then handle_sell_plan c.id p else p

-- What is clicked and answered in the dialog for vouchers; its openings are the page's.
unfoldable pub inside : VoucherDialog.Event → Dialog → Dialog
inside (opens preselected) d = d
inside e d = step d e

unfoldable pub confirm : Option ℕ → List Package → MyCustomersPage → MyCustomersPage
confirm balance packages p =
    if p.is_voucher_open
    then elim (handle_confirm_generate balance packages p.dialog) [
      | none ↦ p
      | some r ↦ record p { asked = r ∷ p.asked }
    ]
    else p

-- `sold` is the button in the row of an id; `confirmed` comes with the wallet's balance and the packages.
pub data Event : Type 0 where
  loaded : Option (List Customer) → Event
  searched sold : String → Event
  added created : Event
  submitted : CreateCustomer → Event
  create_failed : Option ℕ → Event
  dialog_open voucher_open : Bool → Event
  in_dialog : VoucherDialog.Event → Event
  confirmed : Option ℕ → List Package → Event

module _ (to_lower_case : String → String) (is_email : String → Bool) (user : Option AuthUser) where
  unfoldable pub handle : MyCustomersPage → Event → MyCustomersPage
  unfolding handle_open_dialog on_submit on_created on_create_failed set_voucher_open sell_to inside
      confirm filtered_customers
  handle p (loaded customers) = record p { customers = customers }
  handle p (searched q) = record p { search_query = q }
  handle p (sold id) = sell_to (find (λ c. c.id === id) (filtered_customers to_lower_case p)) p
  handle p added = handle_open_dialog p
  handle p created = on_created p
  handle p (submitted v) = on_submit is_email user v p
  handle p (create_failed status) = on_create_failed status p
  handle p (dialog_open b) = record p { is_dialog_open = b }
  handle p (voucher_open b) = set_voucher_open b p
  handle p (in_dialog e) = record p { dialog = inside e p.dialog }
  handle p (confirmed balance packages) = confirm balance packages p

  unfoldable pub handle_all : MyCustomersPage → List Event → MyCustomersPage
  unfolding handle
  handle_all p [] = p
  handle_all p (e ∷ es) = handle_all (handle p e) es
