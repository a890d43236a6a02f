-- ===== src/Vouchers.antt =====
-- The vouchers of a tenant: frontend/src/pages/admin/VouchersPage.tsx. `time` is `new Date(text).getTime()`, a
-- number of a valid date; the answers of the server are events.
pub mod Rows
pub mod Requests
use frixel_connect.Base.{
  ℕ, Bool, true, false, not, ◌&&◌, String, List, [], ◌∷◌, Option, none, some, if◌then◌else◌, ◌===◌,
  keep, find, get_or, truthy,
}
use frixel_connect.Portal.{AuthUser}
use frixel_connect.Queries.{Part}
use frixel_connect.Cache.{Mutation}
use frixel_connect.Cache.Writes.{use_revoke_voucher, use_retry_voucher}
use frixel_connect.Tables.{newest_first}

pub data VoucherStatus : Type 0 where
  active used expired revoked pending_provision : VoucherStatus

abbrev pub status_eq : VoucherStatus → VoucherStatus → Bool
status_eq active active = true
status_eq used used = true
status_eq expired expired = true
status_eq revoked revoked = true
status_eq pending_provision pending_provision = true
status_eq _ _ = false

-- The fields that are read here.
pub record Voucher : Type 0 where
  pub id : String
  pub code : String
  pub status : VoucherStatus
  pub created_at : String
  pub customer_id : String

pub record Customer : Type 0 where
  pub id : String
  pub phone : String

-- `status_filter` is none for 'all'. `sent` holds the requests, the latest first; their bodies are empty.
pub record VouchersPage : Type 0 where
  pub vouchers : Option (List Voucher)
  pub status_filter : Option VoucherStatus
  pub is_revoking : Bool
  pub is_retrying : Bool
  pub sent : List (Mutation Part String)
  pub toast : Option String

abbrev pub first_render : VouchersPage
first_render = record {
  vouchers = none;
  status_filter = none;
  is_revoking = false;
  is_retrying = false;
  sent = [];
  toast = none;
}

unfoldable pub get_customer_phone : Option (List Customer) → String → String
get_customer_phone customers customer_id =
    elim (find (λ c. c.id === customer_id) (get_or customers [])) [
      | none ↦ "Unknown"
      | some c ↦ get_or (truthy (some c.phone)) "Unknown"
    ]

-- `handleRevoke` and `handleRetry`, up to the request and after the answer.
unfoldable pub handle_revoke : Option AuthUser → String → VouchersPage → VouchersPage
handle_revoke user id p = record p {
  is_revoking = true;
  sent = use_revoke_voucher id user ∷ p.sent;
}

unfoldable pub on_revoked : Bool → VouchersPage → VouchersPage
on_revoked succeeded p = record p {
  is_revoking = false;
  toast = some (if succeeded then "Voucher revoked successfully" else "Failed to revoke voucher");
}

unfoldable pub handle_retry : Option AuthUser → String → VouchersPage → VouchersPage
handle_retry user id p = record p { is_retrying = true; sent = use_retry_voucher id user ∷ p.sent }

unfoldable pub on_retried : Bool → VouchersPage → VouchersPage
on_retried succeeded p = record p {
  is_retrying = false;
  toast =
      some
        (if succeeded then "Voucher provisioned successfully" else "Failed to provision voucher");
}

-- The buttons of a row: the first is there for a voucher that is to be provisioned, the second is disabled but for an active one.
unfoldable pub press_retry : Option AuthUser → Voucher → VouchersPage → VouchersPage
unfolding handle_retry
press_retry user v p =
    if status_eq v.status pending_provision && not p.is_retrying
    then handle_retry user v.id p
    else p

unfoldable pub press_revoke : Option AuthUser → Voucher → VouchersPage → VouchersPage
unfolding handle_revoke
press_revoke user v p =
    if status_eq v.status active && not p.is_revoking then handle_revoke user v.id p else p

pub data Event : Type 0 where
  loaded : Option (List Voucher) → Event
  filtered : Option VoucherStatus → Event
  retry_of revoke_of : String → Event
  was_retried was_revoked : Bool → Event

module _ (get_time : String → ℕ) where
  unfoldable pub filtered_vouchers : VouchersPage → List Voucher
  filtered_vouchers p = elim p.vouchers [
    | none ↦ []
    | some vouchers ↦
        let sorted = newest_first (λ v. get_time v.created_at) vouchers in
        elim p.status_filter [
          | none ↦ sorted
          | some status ↦ keep (λ v. status_eq v.status status) sorted
        ]
  ]

  abbrev on_row : (Voucher → VouchersPage → VouchersPage) → String → VouchersPage → VouchersPage
  on_row press id p = elim (find (λ v. v.id === id) (filtered_vouchers p)) [
    | none ↦ p
    | some v ↦ press v p
  ]

  unfoldable pub handle : Option AuthUser → VouchersPage → Event → VouchersPage
  unfolding press_retry press_revoke on_retried on_revoked filtered_vouchers
  handle user p (loaded vouchers) = record p { vouchers = vouchers }
  handle user p (filtered status) = record p { status_filter = status }
  handle user p (retry_of id) = on_row (press_retry user) id p
  handle user p (revoke_of id) = on_row (press_revoke user) id p
  handle user p (was_retried succeeded) = on_retried succeeded p
  handle user p (was_revoked succeeded) = on_revoked succeeded p

  unfoldable pub handle_all : Option AuthUser → VouchersPage → List Event → VouchersPage
  unfolding handle
  handle_all user p [] = p
  handle_all user p (e ∷ es) = handle_all user (handle user p e) es
