-- ===== src/Phone.antt =====
-- Kenyan phone numbers: the pattern that BuyPackageFlow.tsx (`validatePhone`,
-- `handleActivateTrial`) in frontend/src/components/hotspot tests, and `formatPhone` of
-- frontend/src/lib/utils.ts.
pub mod Notation
use Prim.Native.Char.{Char, code}
use frixel_connect.Base.{
  all_digits, is_digit, text_drop, text_length, text_take, ℕ, zero, suc, Bool, true, false, String,
  Option, none, some, if◌then◌else◌, ◌==◌, ◌&&◌, ◌||◌, prepend, strip_prefix, starts_with, is_empty,
}
use frixel_connect.SuperAdmin.{only_digits}

-- `[17]\d{8}$`.
abbrev pub is_national : String → Bool
is_national String.[] = false
is_national (String.◌∷◌ c s) =
    (code c == b'1' || code c == b'7') && (text_length s == 8 && all_digits s)

abbrev pub test_rest : Option String → Bool
test_rest none = false
test_rest (some s) = is_national s

-- `/^(?:0|254|\+254)[17]\d{8}$/.test(value)`.
unfoldable pub is_kenyan_phone : String → Bool
is_kenyan_phone s =
    test_rest (strip_prefix "0" s)
    || (test_rest (strip_prefix "254" s) || test_rest (strip_prefix "+254" s))

-- `${s.substring(0, 4)} ${s.substring(4, 7)} ${s.substring(7)}`.
unfoldable pub group_digits : String → String
group_digits s =
    prepend (text_take 4 s)
      (String.◌∷◌ " " (prepend (text_take 3 (text_drop 4 s)) (String.◌∷◌ " " (text_drop 7 s))))

unfoldable pub format_phone : String → String
unfolding only_digits group_digits
format_phone phone =
    let numeric = only_digits phone in
    if is_empty phone
    then phone
    else if starts_with numeric "254" && text_length numeric == 12
    then group_digits (String.◌∷◌ "0" (text_drop 3 numeric))
    else if starts_with numeric "0" && text_length numeric == 10
    then group_digits numeric
    else phone
