-- ===== src/Formats.antt =====
-- Texts for people: frontend/src/lib/formatDuration.ts, the relative times of pages/super-admin/DashboardPage.tsx, and the
-- code on an invoice in pages/admin/InvoicesPage.tsx and pages/customer/InvoicesPage.tsx.
pub mod Durations
pub mod Invoices
use Prim.Native.Char.{Char, char, code}
use frixel_connect.Base.{
  ℕ, zero, suc, ◌-◌, ◌*◌, ◌/◌, ◌%◌, Bool, true, false, String, Option, none, some, if◌then◌else◌,
  ◌==◌, ltb, prepend, truthy, is_some,
}

-- `${n}`: the decimal digits of a whole number, which JavaScript writes out below 10 ^ 21.
unfoldable pub digit : ℕ → Char
digit d =
    if d == 0
    then char 48 tt
    else if d == 1
    then char 49 tt
    else if d == 2
    then char 50 tt
    else if d == 3
    then char 51 tt
    else if d == 4
    then char 52 tt
    else if d == 5
    then char 53 tt
    else if d == 6
    then char 54 tt
    else if d == 7
    then char 55 tt
    else if d == 8
    then char 56 tt
    else char 57 tt

-- The digits in front of a text; there are at most as many as the first argument and one more.
unfoldable pub digits : ℕ → ℕ → String → String
digits zero n out = String.◌∷◌ (digit (n % 10)) out
digits (suc k) n out =
    let rest = digits k (n / 10) (String.◌∷◌ (digit (n % 10)) out) in
    if n / 10 == 0 then String.◌∷◌ (digit (n % 10)) out else rest

unfoldable pub decimal : ℕ → String → String
decimal n out = digits n n out

-- `${n} Unit${n !== 1 ? 's' : ''}`.
unfoldable pub counted : ℕ → String → String → String
unfolding decimal
counted n one many = decimal n (if n == 1 then one else many)

unfoldable pub format_duration : ℕ → String
unfolding counted
format_duration minutes =
    if minutes % 1440 == 0
    then counted (minutes / 1440) " Day" " Days"
    else if minutes % 60 == 0
    then counted (minutes / 60) " Hour" " Hours"
    else counted minutes " Minute" " Minutes"

-- `formatTimeAgo`, of the milliseconds that have passed.
unfoldable pub format_time_ago : ℕ → String
unfolding decimal
format_time_ago diff =
    let mins = diff / 60000 in
    let hours = mins / 60 in
    if ltb mins 1
    then "Just now"
    else if ltb mins 60
    then decimal mins "m ago"
    else if ltb hours 24
    then decimal hours "h ago"
    else decimal (hours / 24) "d ago"

-- `parts[0]` and `parts[1]` of `qrData.split('|')`, where the text has the sign in it.
unfoldable pub before_bar : String → String
before_bar String.[] = String.[]
before_bar (String.◌∷◌ c s) =
    let rest = before_bar s in if code c == b'|' then String.[] else String.◌∷◌ c rest

unfoldable pub after_bar : String → Option String
after_bar String.[] = none
after_bar (String.◌∷◌ c s) = let rest = after_bar s in if code c == b'|' then some s else rest

pub record QrData : Type 0 where
  pub qr_url : String
  pub kra_sign : String

unfoldable pub parse_qr_data : Option String → QrData
unfolding before_bar after_bar
parse_qr_data qr_data = elim (truthy qr_data) [
  | none ↦ record { qr_url = ""; kra_sign = "" }
  | some s ↦ elim (after_bar s) [
    | none ↦ record { qr_url = s; kra_sign = "" }
    | some rest ↦ record { qr_url = before_bar rest; kra_sign = before_bar s }
  ]
]
