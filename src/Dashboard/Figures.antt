-- ===== src/Dashboard/Figures.antt =====
-- The figures of the dashboard, and when its banners are shown.
use Prim.Native.Nat.{min}
use mathlib.Core.List.{Perm}
use frixel_connect.Base.{
  ℕ, ◌+◌, ◌≤◌, ◌≡◌, refl, ◌∙◌, Bool, true, false, String, List, [], ◌∷◌, ◌++◌, Option-cases,
  Bool-cases, inl, inr, none, some, arith, ◌&&◌, keep, length, drop,
}
use frixel_connect.Storage.{Storage, get_item, set_item}
use frixel_connect.Storage.Laws.{get_item-set_item}
use frixel_connect.Onboarding.{
  OnboardingState, Codec, is_onboarding_incomplete, get_onboarding_state, onboarding_state_key,
}
use frixel_connect.Tables.{newest_first}
use frixel_connect.Tables.Sorting.{IsNewestFirst, take-newest_first}
use frixel_connect.Dashboard.{
  Payment, DashboardData, Totals, no_totals, amount_of, is_confirmed, is_loading, totals,
  totals_from, add_payment, first_run_banner_key, onboarding_banner_key, confirmed_payment_count,
  is_first_run, recent_payments, open_banners, shows_onboarding_banner, shows_first_run_banner,
  dismiss_onboarding, dismiss_first_run,
}

abbrev pub sum_amounts : List Payment → ℕ
sum_amounts [] = 0
sum_amounts (p ∷ ps) = amount_of p + sum_amounts ps

module _ (is_today is_this_month : String → Bool) where
  -- What the loop should add up, each figure on its own.
  abbrev pub expected_totals : List Payment → Totals
  expected_totals ps = record {
    total_revenue_today = sum_amounts (keep (λ p. is_confirmed p && is_today p.created_at) ps);
    total_revenue = sum_amounts (keep is_confirmed ps);
    payments_this_month = length (keep (λ p. is_confirmed p && is_this_month p.created_at) ps);
  }

  abbrev add_totals : Totals → Totals → Totals
  add_totals t u = record {
    total_revenue_today = t.total_revenue_today + u.total_revenue_today;
    total_revenue = t.total_revenue + u.total_revenue;
    payments_this_month = t.payments_this_month + u.payments_this_month;
  }

  totals_from_lem :
      (t : Totals) (ps : List Payment)
      → totals_from is_today is_this_month t ps ≡ add_totals t (expected_totals ps)
  unfolding totals_from add_payment
  totals_from_lem t [] = ground arith
  totals_from_lem t (p ∷ ps) =
      ground (arith, totals_from_lem (add_payment is_today is_this_month p t) ps)

  totals-some :
      (d : DashboardData) (ps : List Payment)
      → d.payments ≡ some ps
      → totals is_today is_this_month d ≡ expected_totals ps
  unfolding totals
  totals-some d ps e = rw (e, totals) (totals_from_lem no_totals ps ∙ ground arith)

  today_le_total :
      (ps : List Payment)
      → (expected_totals ps).total_revenue_today ≤ (expected_totals ps).total_revenue
  today_le_total [] = omega arith
  today_le_total (p ∷ ps) = ground (arith, today_le_total ps)

  month_of_today :
      ((day : String) → is_today day ≡ true → is_this_month day ≡ true)
      → (ps : List Payment) → 1 ≤ (expected_totals ps).total_revenue_today
      → 1 ≤ (expected_totals ps).payments_this_month
  month_of_today h [] k = absurd (omega arith)
  month_of_today h (p ∷ ps) k = ground (arith, month_of_today h ps, h p.created_at)

  -- When each day of today is one of this month: of the payments that came, the dashboard shows the sum of the
  -- confirmed ones, the sum of those among them made today and the number of those made this month.
  -- What today brought is at most the whole, and if it brought anything the month counts a payment.
  pub totals_lem :
      ((day : String) → is_today day ≡ true → is_this_month day ≡ true)
      → (d : DashboardData) (ps : List Payment) → d.payments ≡ some ps
      → let t = totals is_today is_this_month d in
        (t ≡ expected_totals ps)
        × (t.total_revenue_today ≤ t.total_revenue)
        × (1 ≤ t.total_revenue_today → 1 ≤ t.payments_this_month)
  totals_lem h d ps e = rw (totals-some d ps e) (refl, today_le_total ps, month_of_today h ps)

  none_confirmed :
      (ps : List Payment) → length (keep is_confirmed ps) ≡ 0 → expected_totals ps ≡ no_totals
  none_confirmed [] h = refl
  none_confirmed (p ∷ ps) h = elim (Bool-cases (is_confirmed p)) [
    | inl e ↦ absurd (ground arith)
    | inr e ↦ ground (arith, none_confirmed ps)
  ]

  -- As long as the dashboard shows the setup checklist of a first run, nothing is loading and all of its figures are 0.
  pub totals-is_first_run :
      (d : DashboardData)
      → is_first_run d ≡ true
      → (is_loading d ≡ false) × (totals is_today is_this_month d ≡ no_totals)
  unfolding is_first_run confirmed_payment_count totals
  totals-is_first_run d h = elim (Option-cases d.payments) [
    | inl e ↦ (ground arith, rw (e, totals) refl)
    | inr (ps, e) ↦ (ground arith, rw (totals-some d ps e) (none_confirmed ps (ground arith)))
  ]

-- The table of recent payments holds the ten newest ones, or all if there are fewer, the newest
-- first: together with those it leaves out they are the payments that came, in an order in which none is newer than one before it.
pub recent_payments_lem :
    (get_time : String → ℕ) (d : DashboardData) (ps : List Payment)
    → d.payments ≡ some ps
    → let shown = recent_payments get_time d in
      (rest : List Payment) × Perm (shown ++ rest) ps
      × IsNewestFirst (λ p. get_time p.created_at) (shown ++ rest)
      × (length shown ≡ min 10 (length ps))
unfolding recent_payments
recent_payments_lem get_time d ps e =
    rw (e, recent_payments)
      (let time : Payment → ℕ = λ p. get_time p.created_at in
        let split = take-newest_first time 10 ps in
        (drop 10 (newest_first time ps), split.0, split.1, split.2))

incomplete-set_item :
    (c : Codec OnboardingState) (s : Storage)
    → is_onboarding_incomplete c (set_item first_run_banner_key "true" s)
      ≡ is_onboarding_incomplete c s
unfolding is_onboarding_incomplete get_onboarding_state
incomplete-set_item c s =
    rw
      (
        get_item-set_item first_run_banner_key onboarding_state_key "true" s,
        is_onboarding_incomplete,
        get_onboarding_state,
      )
      refl

get_item-nil : (k : String) → get_item k [] ≡ none
unfolding get_item
get_item-nil k = refl

-- A banner that was dismissed stays away when the page is opened again. The first-run banner stays
-- away for good; the one of an incomplete onboarding is back with the next session of the browser,
-- and dismissing banners does not end the onboarding.
pub dismissed_banners :
    (c : Codec OnboardingState) (d : DashboardData) (local session : Storage)
    → let b = dismiss_first_run (dismiss_onboarding (open_banners local session)) in
      (shows_onboarding_banner c (open_banners b.local b.session) ≡ false)
      × (shows_first_run_banner d (open_banners b.local b.session) ≡ false)
      × (shows_first_run_banner d (open_banners b.local []) ≡ false)
      × (shows_onboarding_banner c (open_banners b.local []) ≡ is_onboarding_incomplete c local)
unfolding open_banners shows_onboarding_banner shows_first_run_banner dismiss_onboarding
    dismiss_first_run
dismissed_banners c d local session =
    let mark = get_item-set_item onboarding_banner_key onboarding_banner_key "true" session in
    let first = get_item-set_item first_run_banner_key first_run_banner_key "true" local in
    let empty = get_item-nil onboarding_banner_key in
    (
      ground (arith, mark),
      ground (arith, first),
      ground (arith, first),
      ground (arith, incomplete-set_item c local, empty),
    )
