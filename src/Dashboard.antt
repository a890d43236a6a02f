-- ===== src/Dashboard.antt =====
-- The administrator's dashboard: frontend/src/pages/admin/DashboardPage.tsx. The dates are read by a
-- library: that a payment was made today or this month in Nairobi is a parameter, as is the time
-- `new Date(text).getTime()`. Amounts are whole shillings, which add up without rounding.
pub mod Figures
use frixel_connect.Base.{
  ℕ, suc, ◌+◌, Bool, true, false, String, List, [], ◌∷◌, Option, none, some, if◌then◌else◌, ◌===◌,
  ltb, ◌==◌, not, ◌&&◌, ◌||◌, length, keep, take, get_or, is_some,
}
use frixel_connect.Storage.{Storage, get_item, set_item}
use frixel_connect.Auth.{UserRole, customer}
use frixel_connect.Routing.{role_eq}
use frixel_connect.Onboarding.{OnboardingState, Codec, is_onboarding_incomplete}
use frixel_connect.Routers.{MikrotikRouter, summarise_routers}
use frixel_connect.Tables.{newest_first}

pub data PaymentStatus : Type 0 where
  pending confirmed failed cancelled : PaymentStatus

-- The fields that are read here; `amount` is `Number(payment.amount_kes)`, none where that is not a
-- number.
pub record Payment : Type 0 where
  pub id : String
  pub customer_id : String
  pub amount : Option ℕ
  pub status : PaymentStatus
  pub created_at : String

-- The fields that are read here.
pub record User : Type 0 where
  pub id : String
  pub email : String
  pub phone : String
  pub role : UserRole
  pub router_id : Option String

-- What the queries gave so far, and whether one of them is still loading.
pub record DashboardData : Type 0 where
  pub payments : Option (List Payment)
  pub customers : Option (List User)
  pub packages : Option (List String)
  pub routers : List MikrotikRouter
  pub loading_payments : Bool
  pub loading_vouchers : Bool
  pub loading_customers : Bool
  pub loading_packages : Bool
  pub loading_routers : Bool

abbrev pub is_loading : DashboardData → Bool
is_loading d =
    d.loading_payments
    || (d.loading_vouchers || (d.loading_customers || (d.loading_packages || d.loading_routers)))

abbrev pub is_confirmed : Payment → Bool
is_confirmed p = elim p.status [ confirmed ↦ true | _ ↦ false ]

-- `xs?.length ?? 0`.
abbrev pub count_of {ℓ} : {A : Type ℓ} → Option (List A) → ℕ
count_of none = 0
count_of (some xs) = length xs

unfoldable pub confirmed_payment_count : DashboardData → ℕ
confirmed_payment_count d = elim d.payments [
  | none ↦ 0
  | some payments ↦ length (keep is_confirmed payments)
]

unfoldable pub is_first_run : DashboardData → Bool
unfolding confirmed_payment_count
is_first_run d = not (is_loading d) && (confirmed_payment_count d == 0)

abbrev pub is_customer : User → Bool
is_customer u = role_eq u.role customer

-- An entry of the checklist: its id, and whether it is done.
unfoldable pub checklist_items : DashboardData → List (String × Bool)
unfolding summarise_routers
checklist_items d =
    ("packages", ltb 0 (count_of d.packages))
    ∷ ("router", (summarise_routers d.routers).has_online_router)
    ∷ ("payment", ltb 0 (count_of d.payments))
    ∷ (
      "customer",
      elim d.customers [ none ↦ false | some users ↦ ltb 0 (length (keep is_customer users)) ],
    )
    ∷ []

pub record Totals : Type 0 where
  pub total_revenue_today : ℕ
  pub total_revenue : ℕ
  pub payments_this_month : ℕ

abbrev pub no_totals : Totals
no_totals = record { total_revenue_today = 0; total_revenue = 0; payments_this_month = 0 }

-- `Number(payment.amount_kes) || 0`.
abbrev pub amount_of : Payment → ℕ
amount_of p = get_or p.amount 0

module _ (is_today is_this_month : String → Bool) where
  -- The body of `payments.forEach`.
  unfoldable pub add_payment : Payment → Totals → Totals
  add_payment p t =
      let amount = amount_of p in
      let t1 = record t { total_revenue = t.total_revenue + amount } in
      let t2 =
        if is_today p.created_at
        then record t1 { total_revenue_today = t1.total_revenue_today + amount }
        else t1 in
      let t3 =
        if is_this_month p.created_at
        then record t2 { payments_this_month = t2.payments_this_month + 1 }
        else t2 in
      if is_confirmed p then t3 else t

  unfoldable pub totals_from : Totals → List Payment → Totals
  unfolding add_payment
  totals_from t [] = t
  totals_from t (p ∷ ps) = totals_from (add_payment p t) ps

  unfoldable pub totals : DashboardData → Totals
  unfolding totals_from
  totals d = elim d.payments [ none ↦ no_totals | some ps ↦ totals_from no_totals ps ]

unfoldable pub recent_payments : (String → ℕ) → DashboardData → List Payment
unfolding newest_first
recent_payments get_time d = elim d.payments [
  | none ↦ []
  | some ps ↦ take 10 (newest_first (λ p. get_time p.created_at) ps)
]

abbrev pub first_run_banner_key : String
first_run_banner_key = "Frixel Connect_first_run_banner_dismissed"

abbrev pub onboarding_banner_key : String
onboarding_banner_key = "Frixel Connect_onboarding_banner_dismissed"

-- The banners of the page: what the two storages say when it is opened, and what was dismissed since.
pub record Banners : Type 0 where
  pub onboarding_dismissed : Bool
  pub first_run_dismissed : Bool
  pub local : Storage
  pub session : Storage

abbrev pub is_true_text : Option String → Bool
is_true_text none = false
is_true_text (some v) = v === "true"

unfoldable pub open_banners : Storage → Storage → Banners
open_banners local session = record {
  onboarding_dismissed = is_true_text (get_item onboarding_banner_key session);
  first_run_dismissed = is_true_text (get_item first_run_banner_key local);
  local = local;
  session = session;
}

unfoldable pub shows_onboarding_banner : Codec OnboardingState → Banners → Bool
shows_onboarding_banner c b = is_onboarding_incomplete c b.local && not b.onboarding_dismissed

unfoldable pub shows_first_run_banner : DashboardData → Banners → Bool
unfolding is_first_run
shows_first_run_banner d b = is_first_run d && not b.first_run_dismissed

unfoldable pub dismiss_onboarding : Banners → Banners
dismiss_onboarding b = record b {
  session = set_item onboarding_banner_key "true" b.session;
  onboarding_dismissed = true;
}

unfoldable pub dismiss_first_run : Banners → Banners
dismiss_first_run b = record b {
  local = set_item first_run_banner_key "true" b.local;
  first_run_dismissed = true;
}
