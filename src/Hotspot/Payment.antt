-- ===== src/Hotspot/Payment.antt =====
-- How long the portal asks for a payment, and what it asks the server to be paid.
use frixel_connect.Base.{
  ℕ, leb, truthy, ◌≤◌, ◌≡◌, refl, ◌≢◌, Bool, true, false, String, Option, none, some, arith,
  is_empty, if◌then◌else◌, ◌===◌, ◌||◌,
}
use frixel_connect.Phone.{is_kenyan_phone}
use frixel_connect.Hotspot.{
  Captive, PaymentStatus, StkRequest, TrialRequest, handle_pay, handle_activate_trial,
  refetch_interval, time_left,
}

-- A payment that is over, one way or the other.
abbrev pub is_final : Option PaymentStatus → Bool
is_final none = false
is_final (some st) = st.status === "confirmed" || st.status === "failed"

pub filled : (s : String) → s ≢ "" → is_empty s ≡ false
filled String.[] h = absurd (h refl)
filled (String.◌∷◌ c s) h = refl

asks :
    (payment_id : String) (elapsed : ℕ) (told : Option PaymentStatus)
    → is_empty payment_id ≡ false
    → refetch_interval payment_id elapsed told
      ≡ (if is_final told || leb 90000 elapsed then none else some 3000)
unfolding refetch_interval
asks payment_id elapsed none e = ground arith
asks payment_id elapsed (some st) e = ground arith

-- The portal asks for a payment every three seconds until the payment is over or the ninety seconds are, and
-- never after that; the seconds shown do not grow.
pub polling_ends :
    (payment_id : String) (elapsed later : ℕ) (told : Option PaymentStatus)
    → elapsed ≤ later
    → payment_id ≢ ""
    → (refetch_interval payment_id elapsed told
        ≡ (if is_final told || leb 90000 elapsed then none else some 3000))
      × (time_left later ≤ time_left elapsed)
      × (time_left elapsed ≤ 90)
unfolding refetch_interval
polling_ends payment_id elapsed later told h ne =
    (asks payment_id elapsed told (filled payment_id ne), omega arith, omega arith)

-- The portal requests a payment only with an accepted phone number, which it sends as it was typed, for the
-- package that was picked and the tenant of the page. A trial too needs an accepted number.
pub requests_have_phones :
    (p : Captive) (r : StkRequest) (q : TrialRequest)
    → (handle_pay p).1 ≡ some r
    → (handle_activate_trial p).1 ≡ some q
    → (is_kenyan_phone r.phone ≡ true)
      × (r.phone ≡ p.phone)
      × (truthy p.selected_package_id ≡ some r.package_id)
      × (r.tenant_id ≡ p.tenant_id)
      × ((handle_pay p).0.phone_error ≡ "")
      × (is_kenyan_phone q.phone ≡ true)
      × (q.tenant_id ≡ p.tenant_id)
unfolding handle_pay handle_activate_trial
requests_have_phones p r q e f = (
  ground arith,
  ground arith,
  ground arith,
  ground arith,
  ground arith,
  ground arith,
  ground arith,
)
