-- ===== src/Purchase.antt =====
-- A customer buys a package: frontend/src/pages/customer/BuyPackagePage.tsx and PaymentStatusPage.tsx,
-- with `usePaymentStatus` of frontend/src/hooks/usePayments.ts. The query client, which is not under frontend/src, calls
-- `refetchInterval` after each fetch and fetches again after that many milliseconds; it also fetches for other reasons, and
-- repeats a request that failed if `retry` says so.
pub mod Polling
pub mod Orders
use frixel_connect.Base.{
  ℕ, ◌+◌, Bool, true, false, String, List, [], ◌∷◌, Option, none, some, if◌then◌else◌, ◌===◌, not,
  ◌&&◌, ◌||◌, ltb, ◌==◌, keep, is_empty, get_or, truthy, prepend,
}
use frixel_connect.Dashboard.{PaymentStatus, pending, confirmed, failed, cancelled}

pub record Package : Type 0 where
  pub id : String
  pub name : String
  pub is_active : Bool

pub record StkPush : Type 0 where
  pub package_id : String
  pub phone : String

pub record BuyPage : Type 0 where
  pub packages : Option (List Package)
  pub selected_package_id : Option String
  pub phone_number : String
  pub is_dialog_open : Bool
  pub is_pending : Bool
  pub sent : List StkPush
  pub location : String
  pub toast : Option String

unfoldable pub active_packages : BuyPage → List Package
active_packages p = elim p.packages [ none ↦ [] | some packages ↦ keep (λ k. k.is_active) packages ]

unfoldable pub handle_buy_click : String → BuyPage → BuyPage
handle_buy_click id p = record p { selected_package_id = some id; is_dialog_open = true }

-- The button is disabled without a number and while a request is under way.
unfoldable pub handle_confirm_payment : BuyPage → BuyPage
handle_confirm_payment p =
    if is_empty p.phone_number || p.is_pending then p else elim (truthy p.selected_package_id) [
      | none ↦ p
      | some id ↦ record p {
        is_pending = true;
        sent = record { package_id = id; phone = p.phone_number } ∷ p.sent;
      }
    ]

-- The answer: the id of the payment, or the detail of an error.
unfoldable pub on_payment : String → BuyPage → BuyPage
on_payment payment_id p = record p {
  is_pending = false;
  is_dialog_open = false;
  location = prepend "/customer/status/" payment_id;
}

unfoldable pub on_payment_failed : Option String → BuyPage → BuyPage
on_payment_failed detail p = record p {
  is_pending = false;
  toast = some (get_or (truthy detail) "Failed to initiate payment. Please try again.");
}

-- `usePaymentStatus`: the answer of GET /payments/{id}/status.
pub record PaymentStatusInfo : Type 0 where
  pub status : PaymentStatus
  pub voucher_code : Option String

unfoldable pub is_enabled : String → Option String → Bool
is_enabled payment_id tenant_id = not (is_empty payment_id) && not (is_empty (get_or tenant_id ""))

-- none is `false`: no further request.
unfoldable pub refetch_interval : Option PaymentStatusInfo → Option ℕ
refetch_interval none = some 3000
refetch_interval (some info) = elim info.status [ confirmed ↦ none | failed ↦ none | _ ↦ some 3000 ]

-- `retry` of frontend/src/lib/queryClient.ts, with the status of the error's answer, if there was one.
unfoldable pub retry : ℕ → Option ℕ → Bool
retry failure_count none = ltb failure_count 1
retry failure_count (some status) = if status == 401 then false else ltb failure_count 1

-- What one request ends with.
pub data Attempt : Type 0 where
  answers : PaymentStatusInfo → Attempt
  errs : Option ℕ → Attempt

abbrev pub answer_of : Attempt → Option PaymentStatusInfo
answer_of (answers info) = some info
answer_of (errs status) = none

-- One fetch of the query client: the request, and a second one where `retry` says so; how many there were, and the answer.
unfoldable pub fetch : Attempt → Attempt → ℕ × Option PaymentStatusInfo
unfolding retry
fetch (answers info) second = (1, some info)
fetch (errs status) second = if retry 0 status then (2, answer_of second) else (1, none)

-- The query: its last data, how the last fetch ended, how many fetches the interval asked for, and how many requests there were.
pub record StatusQuery : Type 0 where
  pub answer_seen : Option PaymentStatusInfo
  pub is_loading : Bool
  pub is_error : Bool
  pub polls : ℕ
  pub requests : ℕ

abbrev pub first_query : StatusQuery
first_query = record {
  answer_seen = none;
  is_loading = true;
  is_error = false;
  polls = 0;
  requests = 0;
}

-- What a fetch leaves; an error leaves the data as they were.
unfoldable pub on_fetched : ℕ × Option PaymentStatusInfo → StatusQuery → StatusQuery
on_fetched (n, none) q = record q { is_loading = false; is_error = true; requests = q.requests + n }
on_fetched (n, some info) q = record q {
  answer_seen = some info;
  is_loading = false;
  is_error = false;
  requests = q.requests + n;
}

-- The time for a fetch of the interval, which is asked for if `refetchInterval` says so; and a fetch for another reason: the page is
-- mounted, or its window is looked at again or is online again with data that are no longer fresh.
pub data Trigger : Type 0 where
  interval refetch : Attempt → Attempt → Trigger

unfoldable pub poll : Trigger → StatusQuery → StatusQuery
unfolding refetch_interval fetch on_fetched
poll (interval first second) q = elim (refetch_interval q.answer_seen) [
  | none ↦ q
  | some ms ↦ on_fetched (fetch first second) (record q { polls = q.polls + 1 })
]
poll (refetch first second) q = on_fetched (fetch first second) q

unfoldable pub poll_all : List Trigger → StatusQuery → StatusQuery
unfolding poll
poll_all [] q = q
poll_all (t ∷ ts) q = poll_all ts (poll t q)

-- What the card shows.
pub data Card : Type 0 where
  waiting fetch_failed payment_failed : Card
  voucher : String → Card

abbrev pub card_of : Option PaymentStatusInfo → Card
card_of none = payment_failed
card_of (some info) = elim info.status [
  | pending ↦ waiting
  | confirmed ↦ voucher (get_or (truthy info.voucher_code) "N/A")
  | failed ↦ payment_failed
  | cancelled ↦ payment_failed
]

unfoldable pub status_card : StatusQuery → Card
status_card q =
    if q.is_loading then waiting else if q.is_error then fetch_failed else card_of q.answer_seen
