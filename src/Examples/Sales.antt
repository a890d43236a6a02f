-- ===== src/Examples/Sales.antt =====
-- A subscription suspended and another reactivated, vouchers sold to two customers, and the vouchers of a tab.
use mathlib.Core.List.{Perm}
use frixel_connect.Base.{
  ◌≡◌, keep, ◌==◌, text_length, ◌===◌, ◌||◌, Bool, true, false, refl, Option, none, some, List, [],
  ◌∷◌, All, String,
}
use frixel_connect.Auth.{UserRole}
use frixel_connect.Portal.{AuthUser}
use frixel_connect.VoucherDialog.{selects_package, selects_customer, next}
use frixel_connect.MyCustomers
use frixel_connect.MyCustomers.{Customer, sold, in_dialog, voucher_open}
use frixel_connect.MyCustomers.Sales.{IsSold, vouchers-IsSold}
use frixel_connect.Tables.Sorting.{IsNewestFirst}
use frixel_connect.Vouchers
use frixel_connect.Vouchers.Requests
use frixel_connect.Vouchers.Requests.{requests-IsActive}
use frixel_connect.Vouchers.{
  retry_of, revoke_of, was_revoked, Voucher, VouchersPage, VoucherStatus, filtered_vouchers,
}
use frixel_connect.Vouchers.Rows.{of_status, time, filtered_vouchers_lem}
use frixel_connect.Subscriptions.{
  Subscription, SubscriptionStatus, active, suspended, first_render, Event, loaded, searched,
  pressed, confirmed, done, reactivated, suspend_failed, handle_all,
}
use frixel_connect.Subscriptions.Requests.{IsOffered, requests-IsOffered}

abbrev seller : Option AuthUser
seller = some (record { user_id = "u1"; role = UserRole.admin; tenant_id = some "t1" })

abbrev subscription : String → SubscriptionStatus → Subscription
subscription id status = record {
  id = id;
  customer_id = "c1";
  package_name = "Home";
  status = status;
}

abbrev known : Subscription → Bool
known s = (s.id === "s1") || (s.id === "s2")

abbrev renewals : List Event
renewals =
    loaded (some (subscription "s1" active ∷ subscription "s2" suspended ∷ []))
    ∷ searched "Ho"
    ∷ pressed "s1"
    ∷ confirmed
    ∷ suspend_failed none
    ∷ confirmed
    ∷ done
    ∷ pressed "s2"
    ∷ reactivated
    ∷ []

abbrev lower : String → String
lower s = s

requests-IsOffered_example :
    All (IsOffered known seller) (handle_all lower seller first_render renewals).sent
requests-IsOffered_example =
    requests-IsOffered known lower seller renewals
      (refl, (refl, (refl, (refl, (refl, (refl, (refl, (refl, (refl, tt)))))))))

abbrev customer : String → Bool → Customer
customer id is_active = record {
  id = id;
  email = "a@b.ke";
  phone = "0712345678";
  is_active = is_active;
}

abbrev buys : String → Bool
buys id = (id === "c1") || (id === "c3")

abbrev sales : List MyCustomers.Event
sales =
    MyCustomers.loaded (some (customer "c1" true ∷ customer "c2" false ∷ []))
    ∷ sold "c2"
    ∷ sold "c1"
    ∷ in_dialog next
    ∷ in_dialog (selects_package "p1")
    ∷ MyCustomers.confirmed (some 500) (record { id = "p1"; price_kes = 50 } ∷ [])
    ∷ voucher_open false
    ∷ voucher_open true
    ∷ in_dialog (selects_customer "c3")
    ∷ in_dialog next
    ∷ in_dialog (selects_package "p1")
    ∷ MyCustomers.confirmed (some 500) (record { id = "p1"; price_kes = 50 } ∷ [])
    ∷ []

abbrev any_text : String → Bool
any_text s = true

vouchers-IsSold_example :
    All
      (IsSold buys)
      (MyCustomers.handle_all lower any_text seller MyCustomers.first_render sales).asked
vouchers-IsSold_example = vouchers-IsSold buys lower any_text seller sales (
  refl,
  (refl, (refl, (refl, (refl, (refl, (refl, (refl, (refl, (refl, (refl, (refl, tt))))))))))),
)

abbrev voucher : String → VoucherStatus → String → Voucher
voucher id status created_at = record {
  id = id;
  code = "ABCD";
  status = status;
  created_at = created_at;
  customer_id = "c1";
}

abbrev issued : List Voucher
issued =
    voucher "v1" VoucherStatus.active "1"
    ∷ voucher "v2" VoucherStatus.used "111"
    ∷ voucher "v3" VoucherStatus.active "11"
    ∷ []

abbrev active_tab : VouchersPage
active_tab = record {
  vouchers = some issued;
  status_filter = some VoucherStatus.active;
  is_revoking = false;
  is_retrying = false;
  sent = [];
  toast = none;
}

filtered_vouchers_lem_example :
    Perm (filtered_vouchers text_length active_tab) (of_status (some VoucherStatus.active) issued)
    × IsNewestFirst (time text_length) (filtered_vouchers text_length active_tab)
    × (keep (λ v. time text_length v == 2) (filtered_vouchers text_length active_tab)
        ≡ keep (λ v. time text_length v == 2) (of_status (some VoucherStatus.active) issued))
filtered_vouchers_lem_example = filtered_vouchers_lem text_length active_tab issued 2 refl

abbrev is_issued : Voucher → Bool
is_issued v = (v.id === "v1") || ((v.id === "v2") || (v.id === "v4"))

abbrev presses : List Vouchers.Event
presses =
    Vouchers.loaded (
      some (
        voucher "v4" VoucherStatus.pending_provision "1"
        ∷ voucher "v1" VoucherStatus.active "11"
        ∷ []))
    ∷ revoke_of "v1"
    ∷ was_revoked true
    ∷ revoke_of "v4"
    ∷ retry_of "v4"
    ∷ []

requests-IsActive_example :
    All
      (Vouchers.Requests.IsOffered is_issued seller)
      (Vouchers.handle_all text_length seller Vouchers.first_render presses).sent
requests-IsActive_example =
    requests-IsActive is_issued text_length seller presses
      (refl, (refl, (refl, (refl, (refl, tt)))))
