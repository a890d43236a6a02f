-- ===== src/Hotspot/Voucher.antt =====
-- Where a voucher comes from, that it is kept, and how it logs the device in.
use frixel_connect.Base.{
  ℕ, ◌≡◌, refl, ap, ◌≢◌, ◌∙◌, Bool, true, false, String, List, [], ◌∷◌, Option, none, some, arith,
  truthy, All, is_empty,
}
use frixel_connect.Storage.{Storage, get_item, set_item}
use frixel_connect.Storage.Laws.{get_item-set_item, get_item-remove_item}
use frixel_connect.Auth.Sessions.{truthy_of_ne}
use frixel_connect.Hotspot.Payment.{filled}
use frixel_connect.Hotspot.{
  voucher_key, Captive, PaymentStatus, mount, pick_package, handle_pay, on_payment_started,
  handle_activate_trial, on_trial, handle_clear_saved_voucher, use_saved_voucher,
  use_existing_voucher, on_status, take_timer, on_timer, Screen, login_redirect, screen,
  perform_login, on_login_posted, login_post, fresh_redirect,
}

-- What a visitor and the server can do on the page.
pub data Event : Type 0 where
  picks types_phone types_trial_phone types_voucher : String → Event
  pays starts_trial clears uses_saved uses_existing : Event
  payment_started : String → Event
  trial_answered : Option String → Event
  status_answered : PaymentStatus → Event
  timer_fires : ℕ → Event

unfoldable pub step : Captive → Event → Captive
unfolding pick_package handle_pay handle_activate_trial handle_clear_saved_voucher use_saved_voucher
    use_existing_voucher on_payment_started on_trial on_status on_timer
step p (picks id) = pick_package id p
step p (types_phone s) = record p { phone = s }
step p (types_trial_phone s) = record p { trial_phone = s }
step p (types_voucher s) = record p { existing_voucher = s }
step p pays = (handle_pay p).0
step p starts_trial = (handle_activate_trial p).0
step p clears = handle_clear_saved_voucher p
step p uses_saved = use_saved_voucher p
step p uses_existing = use_existing_voucher p
step p (payment_started id) = on_payment_started id p
step p (trial_answered o) = on_trial o p
step p (status_answered st) = on_status st p
step p (timer_fires n) = on_timer n p

unfoldable pub run : Captive → List Event → Captive
unfolding step
run p [] = p
run p (e ∷ es) = run (step p e) es

-- Every event but a voucher that is typed, granted as a trial, or sent with the status of a payment.
abbrev pub IsWithoutVoucher : Event → Type 0
IsWithoutVoucher (types_voucher s) = ⊥
IsWithoutVoucher (trial_answered o) = o ≡ none
IsWithoutVoucher (status_answered st) = (truthy st.voucher_code ≡ none)
IsWithoutVoucher _ = Unit {0}

-- No voucher is shown, saved, typed or on its way.
pub record IsUnpaid (p : Captive) : Type 0 where
  pub shown : p.voucher_code ≡ none
  pub saved : p.saved_voucher ≡ none
  pub typed : p.existing_voucher ≡ ""
  pub due : p.timers ≡ []

nothing_typed : (p : Captive) → p.existing_voucher ≡ "" → use_existing_voucher p ≡ p
unfolding use_existing_voucher
nothing_typed p e = ground (arith, ap is_empty e)

nothing_due : (n : ℕ) (p : Captive) → p.timers ≡ [] → on_timer n p ≡ p
unfolding on_timer
nothing_due n p e = rw (ap (take_timer n) e, on_timer) refl

step-IsUnpaid : (p : Captive) (e : Event) → IsWithoutVoucher e → IsUnpaid p → IsUnpaid (step p e)
unfolding step
step-IsUnpaid p (picks id) h v = ground arith
step-IsUnpaid p (types_phone s) h v = ground arith
step-IsUnpaid p (types_trial_phone s) h v = ground arith
step-IsUnpaid p (types_voucher s) h v = absurd h
step-IsUnpaid p pays h v = ground arith
step-IsUnpaid p starts_trial h v = ground arith
step-IsUnpaid p clears h v = ground arith
step-IsUnpaid p uses_saved h v = ground arith
step-IsUnpaid p uses_existing h v = rw (nothing_typed p v.typed) v
step-IsUnpaid p (payment_started id) h v = ground arith
step-IsUnpaid p (trial_answered o) h v = ground arith
step-IsUnpaid p (status_answered st) h v = ground arith
step-IsUnpaid p (timer_fires n) h v = rw (nothing_due n p v.due) v

run-IsUnpaid :
    (p : Captive) (es : List Event) → All IsWithoutVoucher es → IsUnpaid p → IsUnpaid (run p es)
unfolding run
run-IsUnpaid p [] h v = v
run-IsUnpaid p (e ∷ es) (h, hs) v = run-IsUnpaid (step p e) es hs (step-IsUnpaid p e h v)

abbrev pub leads_to_login : Screen → Bool
leads_to_login (login_redirect code) = true
leads_to_login _ = false

no_voucher_no_redirect :
    (ids : List String) (p : Captive)
    → p.voucher_code ≡ none
    → leads_to_login (screen ids p) ≡ false
unfolding screen
no_voucher_no_redirect ids p e = ground arith

-- Nobody gets past the portal without a voucher: from a page with none saved, whatever is picked, typed as a phone
-- number, requested, answered or cleared, and whatever timers fire, the page does not come to the login of the
-- router, unless a voucher is typed in, granted as a trial, or sent with the status of a payment.
pub no_login_without_voucher :
    (tenant_id mac ip : Option String) (local : Storage) (es : List Event) (ids : List String)
    → get_item voucher_key local ≡ none
    → All IsWithoutVoucher es
    → leads_to_login (screen ids (run (mount tenant_id mac ip local) es)) ≡ false
unfolding mount
no_login_without_voucher tenant_id mac ip local es ids e h =
    no_voucher_no_redirect ids _
      (run-IsUnpaid _ es h (record { shown = refl; saved = e; typed = refl; due = refl })).shown

confirmed :
    (p : Captive) (code : String)
    → p.timers ≡ []
    → code ≢ ""
    → let st : PaymentStatus = record { status = "confirmed"; voucher_code = some code } in
      on_timer 0 (on_status st p) ≡ record p {
        local = set_item voucher_key code p.local;
        voucher_code = some code;
        polled = some st;
        timers = [];
      }
unfolding on_status on_timer take_timer
confirmed p code e ne = rw (truthy_of_ne code ne, on_status) (ground (arith, e))

shows :
    (ids : List String) (p : Captive) (code : String)
    → p.voucher_code ≡ some code
    → code ≢ ""
    → screen ids p ≡ login_redirect code
unfolding screen
shows ids p code e ne = rw (ap truthy e ∙ truthy_of_ne code ne, screen) refl

offered :
    (p : Captive) (code : String)
    → p.saved_voucher ≡ some code
    → code ≢ ""
    → (use_saved_voucher p).voucher_code ≡ some code
unfolding use_saved_voucher
offered p code e ne = rw (ap truthy e ∙ truthy_of_ne code ne, use_saved_voucher) refl

-- A confirmed payment whose status carries a voucher leads to the login with it once its timer has fired, and
-- the page that is opened later offers the same voucher again, until it is cleared.
pub confirmed_payment :
    (tenant_id mac ip : Option String) (p : Captive) (code : String) (ids : List String)
    → p.timers ≡ []
    → code ≢ ""
    → let st : PaymentStatus = record { status = "confirmed"; voucher_code = some code } in
      let q = on_timer 0 (on_status st p) in
      let later = mount tenant_id mac ip q.local in
      (screen ids q ≡ login_redirect code)
      × (q.timers ≡ [])
      × (screen ids (use_saved_voucher later) ≡ login_redirect code)
      × ((mount tenant_id mac ip (handle_clear_saved_voucher later).local).saved_voucher ≡ none)
unfolding mount handle_clear_saved_voucher
confirmed_payment tenant_id mac ip p code ids e ne =
    let kept = get_item-set_item voucher_key voucher_key code p.local in
    rw (confirmed p code e ne) (
      shows ids _ code refl ne,
      refl,
      shows ids _ code (offered _ code kept ne) ne,
      get_item-remove_item voucher_key voucher_key _,
    )

-- The login that the page starts by itself after three seconds reads the state of the first render. So where the
-- visitor has pressed the button before, the guard against a second login does not hold: the same request is sent again,
-- under way or done. Pressed again, the button itself sends nothing.
pub login_sent_twice :
    (encode : String → String) (code link_login : String)
    → link_login ≢ ""
    → let pressed = perform_login encode code link_login fresh_redirect fresh_redirect in
      let done = on_login_posted pressed.0 in
      (pressed.1 ≡ some (login_post encode code link_login))
      × ((perform_login encode code link_login fresh_redirect pressed.0).1 ≡ pressed.1)
      × ((perform_login encode code link_login fresh_redirect done).1 ≡ pressed.1)
      × ((perform_login encode code link_login pressed.0 pressed.0).1 ≡ none)
      × ((perform_login encode code link_login done done).1 ≡ none)
unfolding perform_login on_login_posted
login_sent_twice encode code link_login ne =
    rw (filled link_login ne) (refl, refl, refl, refl, refl)
