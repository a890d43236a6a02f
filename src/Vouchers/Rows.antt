-- ===== src/Vouchers/Rows.antt =====
-- Which vouchers the page shows, and in which order.
use mathlib.Core.List.{Perm}
use frixel_connect.Base.{ℕ, ◌≡◌, String, List, Option, none, some, keep, ◌==◌, refl}
use frixel_connect.Tables.{newest_first}
use frixel_connect.Tables.Sorting.{IsNewestFirst, newest_first_lem}
use frixel_connect.Tables.Filtering.{keep-newest_first}
use frixel_connect.Vouchers.{Voucher, VoucherStatus, VouchersPage, status_eq, filtered_vouchers}

-- The vouchers of the chosen tab.
abbrev pub of_status : Option VoucherStatus → List Voucher → List Voucher
of_status none vouchers = vouchers
of_status (some status) vouchers = keep (λ v. status_eq v.status status) vouchers

module _ (get_time : String → ℕ) where
  abbrev pub time : Voucher → ℕ
  time v = get_time v.created_at

  shown :
      (status : Option VoucherStatus) (vouchers : List Voucher)
      → (elim status [
        | none ↦ newest_first time vouchers
        | some s ↦ keep (λ v. status_eq v.status s) (newest_first time vouchers)
      ])
        ≡ newest_first time (of_status status vouchers)
  shown none vouchers = refl
  shown (some s) vouchers = keep-newest_first time (λ v. status_eq v.status s) vouchers

  filtered_vouchers-some :
      (p : VouchersPage) (vouchers : List Voucher)
      → p.vouchers ≡ some vouchers
      → filtered_vouchers get_time p ≡ newest_first time (of_status p.status_filter vouchers)
  unfolding filtered_vouchers
  filtered_vouchers-some p vouchers e = rw e (shown p.status_filter vouchers)

-- Once the vouchers are there, the page shows each voucher of the chosen tab once and no other, none newer than one above it,
-- and those of one time in the order the server gave them.
pub filtered_vouchers_lem :
    (get_time : String → ℕ) (p : VouchersPage) (vouchers : List Voucher) (t : ℕ)
    → p.vouchers ≡ some vouchers
    → let rows = filtered_vouchers get_time p in
      let own = of_status p.status_filter vouchers in
      Perm rows own
      × IsNewestFirst (time get_time) rows
      × (keep (λ v. time get_time v == t) rows ≡ keep (λ v. time get_time v == t) own)
filtered_vouchers_lem get_time p vouchers t e =
    rw (filtered_vouchers-some get_time p vouchers e)
      (newest_first_lem (time get_time) (of_status p.status_filter vouchers) t)
