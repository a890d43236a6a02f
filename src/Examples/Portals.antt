-- ===== src/Examples/Portals.antt =====
-- The captive portal, a phone number, a voucher sold, and the keys of two queries.
use frixel_connect.Base.{any, String, [], false, none, refl, some, true, ◌∷◌, ◌≡◌, ◌≤◌}
use frixel_connect.Examples.{text_ne}
use frixel_connect.Hotspot.{
  Captive, PaymentStatus, StkRequest, TrialRequest, handle_clear_saved_voucher, login_redirect,
  mount, on_status, on_timer, screen, use_saved_voucher,
}
use frixel_connect.Hotspot.Voucher.{
  confirmed_payment, leads_to_login, no_login_without_voucher, payment_started, pays, picks, run,
  timer_fires, types_phone,
}
use frixel_connect.VoucherDialog.{
  GenerateRequest, Package, package_price, wallet_balance, opens, selects_customer, selects_package,
  next,
}
use frixel_connect.VoucherDialog.Origins.{sold_voucher, names_customer, names_package}

abbrev same : String → String
same s = s

abbrev paying : Captive
paying = record {
  local = [];
  tenant_id = "t1";
  mac_address = "aa";
  client_ip = "10.0.0.9";
  voucher_code = none;
  selected_package_id = some "p1";
  phone = "0712345678";
  payment_id = none;
  phone_error = "";
  existing_voucher = "";
  saved_voucher = none;
  is_checkout_open = true;
  trial_phone = "+254112345678";
  trial_phone_error = "";
  is_trial_loading = false;
  polled = none;
  timers = [];
}

abbrev stk : StkRequest
stk = record {
  phone = "0712345678";
  package_id = "p1";
  tenant_id = "t1";
  mac_address = "aa";
  client_ip = "10.0.0.9";
}

abbrev trial : TrialRequest
trial = record { phone = "+254112345678"; tenant_id = "t1"; mac_address = "aa" }

abbrev daily : Package
daily = record { id = "p1"; price_kes = 50 }

abbrev wanted : GenerateRequest
wanted = record { customer_id = "c1"; package_id = "p1" }

no_login_without_voucher_example :
    leads_to_login (
      screen ("p1" ∷ []) (
        run (mount (some "t1") none none []) (
          picks "p1"
          ∷ types_phone "0712345678"
          ∷ pays
          ∷ payment_started "x1"
          ∷ timer_fires 0
          ∷ [])))
    ≡ false
unfolding frixel_connect.Storage.get_item
no_login_without_voucher_example =
    no_login_without_voucher (some "t1") none none []
      (picks "p1" ∷ types_phone "0712345678" ∷ pays ∷ payment_started "x1" ∷ timer_fires 0 ∷ [])
      ("p1" ∷ []) refl (tt, (tt, (tt, (tt, (tt, tt)))))

confirmed_payment_example :
    let st : PaymentStatus = record { status = "confirmed"; voucher_code = some "ABCD" } in
    let q = on_timer 0 (on_status st paying) in
    let later = mount (some "t1") none none q.local in
    (screen ("p1" ∷ []) q ≡ login_redirect "ABCD")
    × (q.timers ≡ [])
    × (screen ("p1" ∷ []) (use_saved_voucher later) ≡ login_redirect "ABCD")
    × ((mount (some "t1") none none (handle_clear_saved_voucher later).local).saved_voucher ≡ none)
confirmed_payment_example =
    confirmed_payment (some "t1") none none paying "ABCD" ("p1" ∷ []) refl (text_ne "ABCD" refl)

sold_voucher_example :
    (any
        (names_customer "c1")
        (opens none ∷ selects_customer "c1" ∷ next ∷ selects_package "p1" ∷ [])
      ≡ true)
    × (any (names_package "p1") (selects_customer "c1" ∷ next ∷ selects_package "p1" ∷ []) ≡ true)
    × (package_price (daily ∷ []) "p1" ≤ wallet_balance (some 500))
unfolding frixel_connect.VoucherDialog.handle_confirm_generate frixel_connect.VoucherDialog.run
sold_voucher_example =
    sold_voucher none (selects_customer "c1" ∷ next ∷ selects_package "p1" ∷ []) (some 500)
      (daily ∷ []) wanted refl
