-- ===== src/Hotspot.antt =====
-- The captive portal of the hotspot: frontend/src/pages/public/CaptivePortalPage.tsx, with
-- BuyPackageFlow.tsx and PaymentPolling.tsx of
-- frontend/src/components/hotspot, and the polling of frontend/src/hooks/useHotspotPayment.ts.
mod Login
pub mod Payment
pub mod Voucher
unfoldable pub use Login.*
use Prim.Native.Char.{Char, code}
use frixel_connect.Base.{
  ℕ, zero, suc, ◌-◌, ◌/◌, Bool, true, false, String, List, [], ◌∷◌, ◌++◌, Option, none, some,
  if◌then◌else◌, ◌==◌, ◌===◌, ◌&&◌, ◌||◌, not, is_empty, is_some, truthy, get_or, prepend,
  starts_with, any,
}
use frixel_connect.Storage.{Storage, get_item, set_item, remove_item}
use frixel_connect.Phone.{is_kenyan_phone}

abbrev pub voucher_key : String
voucher_key = "active_wifi_voucher"

pub record PaymentStatus : Type 0 where
  pub status : String
  pub voucher_code : Option String

-- A timer: a voucher of a confirmed payment, or of a trial, that will be handed over.
pub data Timer : Type 0 where
  paid tried : String → Timer

-- The state of the page and of the flow in it; `data` of the status query is `polled`.
pub record Captive : Type 0 where
  pub local : Storage
  pub tenant_id : String
  pub mac_address : String
  pub client_ip : String
  pub voucher_code : Option String
  pub selected_package_id : Option String
  pub phone : String
  pub payment_id : Option String
  pub phone_error : String
  pub existing_voucher : String
  pub saved_voucher : Option String
  pub is_checkout_open : Bool
  pub trial_phone : String
  pub trial_phone_error : String
  pub is_trial_loading : Bool
  pub polled : Option PaymentStatus
  pub timers : List Timer

abbrev pub phone_message : String
phone_message = "Enter a valid Kenyan phone number (e.g. 0712 345 678)"

-- The page that has just been opened; the three parameters come from the router's redirect.
unfoldable pub mount : Option String → Option String → Option String → Storage → Captive
mount tenant_id mac ip local = record {
  local = local;
  tenant_id = get_or tenant_id "";
  mac_address = get_or mac "";
  client_ip = get_or ip "";
  voucher_code = none;
  selected_package_id = none;
  phone = "";
  payment_id = none;
  phone_error = "";
  existing_voucher = "";
  saved_voucher = get_item voucher_key local;
  is_checkout_open = false;
  trial_phone = "";
  trial_phone_error = "";
  is_trial_loading = false;
  polled = none;
  timers = [];
}

-- The click on a package.
unfoldable pub pick_package : String → Captive → Captive
pick_package id p = record p { selected_package_id = some id; is_checkout_open = true }

unfoldable pub validate_phone : String → Captive → Captive × Bool
validate_phone value p =
    if is_kenyan_phone value
    then (record p { phone_error = "" }, true)
    else (record p { phone_error = phone_message }, false)

pub record StkRequest : Type 0 where
  pub phone : String
  pub package_id : String
  pub tenant_id : String
  pub mac_address : String
  pub client_ip : String

-- `handlePay`, up to its request, and its `onSuccess`.
unfoldable pub handle_pay : Captive → Captive × Option StkRequest
unfolding validate_phone
handle_pay p = elim (truthy p.selected_package_id) [
  | none ↦ (p, none)
  | some package_id ↦
      let (q, valid) = validate_phone p.phone p in
      if valid
      then (
        q,
        some (record {
          phone = p.phone;
          package_id = package_id;
          tenant_id = p.tenant_id;
          mac_address = p.mac_address;
          client_ip = p.client_ip;
        }),
      )
      else (q, none)
]

unfoldable pub on_payment_started : String → Captive → Captive
on_payment_started id p = record p { payment_id = some id; is_checkout_open = false }

-- `handleActivateTrial`: up to its request, and after the answer, none where it failed.
pub record TrialRequest : Type 0 where
  pub phone : String
  pub tenant_id : String
  pub mac_address : String

unfoldable pub handle_activate_trial : Captive → Captive × Option TrialRequest
handle_activate_trial p =
    if is_kenyan_phone p.trial_phone
    then (
      record p { trial_phone_error = ""; is_trial_loading = true },
      some (record { phone = p.trial_phone; tenant_id = p.tenant_id; mac_address = p.mac_address }),
    )
    else (record p { trial_phone_error = phone_message }, none)

unfoldable pub on_trial : Option String → Captive → Captive
on_trial none p = record p { is_trial_loading = false }
on_trial (some code) p = record p {
  local = set_item voucher_key code p.local;
  timers = p.timers ++ tried code ∷ [];
  is_trial_loading = false;
}

unfoldable pub handle_clear_saved_voucher : Captive → Captive
handle_clear_saved_voucher p = record p {
  local = remove_item voucher_key p.local;
  saved_voucher = none;
}

-- `onVoucherReceived`, by the buttons of the saved and of the typed voucher.
unfoldable pub use_saved_voucher : Captive → Captive
use_saved_voucher p = elim (truthy p.saved_voucher) [
  | none ↦ p
  | some code ↦ record p { voucher_code = some code }
]

unfoldable pub use_existing_voucher : Captive → Captive
use_existing_voucher p = if is_empty p.existing_voucher then p else record p {
  local = set_item voucher_key p.existing_voucher p.local;
  voucher_code = some p.existing_voucher;
}

-- The seconds that are left, `elapsed` milliseconds after the payment was started.
abbrev pub time_left : ℕ → ℕ
time_left elapsed = 90 - elapsed / 1000

-- `useHotspotPaymentStatus(paymentId, !timedOut)`: after how many milliseconds the query asks
-- again, if at all, with what it was last told.
unfoldable pub refetch_interval : String → ℕ → Option PaymentStatus → Option ℕ
refetch_interval payment_id elapsed told =
    if time_left elapsed == 0 || is_empty payment_id then none else elim told [
      | none ↦ some 3000
      | some st ↦ if st.status === "confirmed" || st.status === "failed" then none else some 3000
    ]

-- The answer of the status query, and the effect on it.
unfoldable pub on_status : PaymentStatus → Captive → Captive
on_status st p =
    if st.status === "confirmed"
    then elim (truthy st.voucher_code) [
      | none ↦ record p { polled = some st }
      | some code ↦ record p { polled = some st; timers = p.timers ++ paid code ∷ [] }
    ]
    else record p { polled = some st }

-- Taking the n-th timer out.
pub take_timer : ℕ → List Timer → Option (Timer × List Timer)
take_timer n [] = none
take_timer zero (t ∷ ts) = some (t, ts)
take_timer (suc n) (t ∷ ts) = elim (take_timer n ts) [
  | none ↦ none
  | some (u, rest) ↦ some (u, t ∷ rest)
]

-- The n-th timer: `onConfirmed` for a payment, `onVoucherReceived` for a trial.
unfoldable pub on_timer : ℕ → Captive → Captive
unfolding take_timer
on_timer n p = elim (take_timer n p.timers) [
  | none ↦ p
  | some (paid code, rest) ↦ record p {
    local = set_item voucher_key code p.local;
    voucher_code = some code;
    timers = rest;
  }
  | some (tried code, rest) ↦ record p { voucher_code = some code; timers = rest }
]

pub data Screen : Type 0 where
  login_redirect : String → Screen
  configuration_error : Screen
  payment_polling : String → Screen
  packages : Screen

-- What the page shows; `ids` are the packages that the server listed.
unfoldable pub screen : List String → Captive → Screen
screen ids p = elim (truthy p.voucher_code) [
  | some code ↦ login_redirect code
  | none ↦ if is_empty p.tenant_id then configuration_error else elim (truthy p.payment_id) [
    | none ↦ packages
    | some id ↦ elim p.selected_package_id [
      | none ↦ packages
      | some package_id ↦ if any (λ i. i === package_id) ids then payment_polling id else packages
    ]
  ]
]
