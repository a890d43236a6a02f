-- ===== src/Formats/Durations.antt =====
-- A duration is read back from its text.
use Prim.Native.Char.{code}
use frixel_connect.Base.{
  ℕ, zero, suc, ◌+◌, ◌-◌, ◌*◌, ◌/◌, ◌%◌, ◌≤◌, ◌<◌, ◌≡◌, refl, sym, ap, ◌∙◌, String, if◌then◌else◌,
  ◌==◌, arith, is_digit, starts_with, inl, inr, Bool-cases,
}
use frixel_connect.Formats.{digit, digits, decimal, counted, format_duration}

-- Reads the digits in front of a text; what follows them is the second part.
abbrev read_digits : String → ℕ → ℕ × String
read_digits String.[] n = (n, String.[])
read_digits (String.◌∷◌ c s) n =
    let rest = read_digits s (n * 10 + (code c - b'0')) in
    if is_digit c then rest else (n, String.◌∷◌ c s)

abbrev pub minutes_of : ℕ × String → ℕ
minutes_of (n, unit) =
    if starts_with unit " Day" then n * 1440 else if starts_with unit " Hour" then n * 60 else n

-- The minutes that a text of a number and a unit stands for.
abbrev pub parse_duration : String → ℕ
parse_duration s = minutes_of (read_digits s 0)

code-digit : (d : ℕ) → d < 10 → code (digit d) ≡ 48 + d
unfolding digit
code-digit zero h = refl
code-digit (suc zero) h = refl
code-digit (suc (suc zero)) h = refl
code-digit (suc (suc (suc zero))) h = refl
code-digit (suc (suc (suc (suc zero)))) h = refl
code-digit (suc (suc (suc (suc (suc zero))))) h = refl
code-digit (suc (suc (suc (suc (suc (suc zero)))))) h = refl
code-digit (suc (suc (suc (suc (suc (suc (suc zero))))))) h = refl
code-digit (suc (suc (suc (suc (suc (suc (suc (suc zero)))))))) h = refl
code-digit (suc (suc (suc (suc (suc (suc (suc (suc (suc zero))))))))) h = refl
code-digit (suc (suc (suc (suc (suc (suc (suc (suc (suc (suc n)))))))))) h = absurd (omega arith)

read-digit :
    (d n : ℕ) (s : String)
    → d < 10
    → read_digits (String.◌∷◌ (digit d) s) n ≡ read_digits s (n * 10 + d)
read-digit d n s h = let e = code-digit d h in ground (arith, e)

read-digits : (k n : ℕ) (out : String) → n ≤ k → read_digits (digits k n out) 0 ≡ read_digits out n
unfolding digits
read-digits zero n out h =
    read-digit (n % 10) 0 out (omega arith) ∙ ap (read_digits out) (omega arith)
read-digits (suc k) n out h =
    let last : read_digits (String.◌∷◌ (digit (n % 10)) out) (n / 10) ≡ read_digits out n =
      read-digit (n % 10) (n / 10) out (omega arith) ∙ ap (read_digits out) (omega arith) in
    elim (Bool-cases (n / 10 == 0)) [
      | inl e ↦
          let none_left : n / 10 ≡ 0 = ground (arith, e) in
          rw e (ap (read_digits (String.◌∷◌ (digit (n % 10)) out)) (sym none_left) ∙ last)
      | inr e ↦ rw e (read-digits k (n / 10) (String.◌∷◌ (digit (n % 10)) out) (omega arith) ∙ last)
    ]

-- The number in front of a unit, and the unit.
read-counted :
    (n : ℕ) (one many : String)
    → read_digits (counted n one many) 0 ≡ read_digits (if n == 1 then one else many) n
unfolding counted decimal
read-counted n one many = read-digits n n (if n == 1 then one else many) (omega arith)

days : (n : ℕ) → minutes_of (read_digits (if n == 1 then " Day" else " Days") n) ≡ n * 1440
days n = elim (Bool-cases (n == 1)) [ inl e ↦ rw e refl | inr e ↦ rw e refl ]

hours : (n : ℕ) → minutes_of (read_digits (if n == 1 then " Hour" else " Hours") n) ≡ n * 60
hours n = elim (Bool-cases (n == 1)) [ inl e ↦ rw e refl | inr e ↦ rw e refl ]

minutes : (n : ℕ) → minutes_of (read_digits (if n == 1 then " Minute" else " Minutes") n) ≡ n
minutes n = elim (Bool-cases (n == 1)) [ inl e ↦ rw e refl | inr e ↦ rw e refl ]

-- The minutes of a duration are read back from its text, whether it is shown in days, in hours or in minutes. So two packages
-- of different durations never show the same one.
pub parse_duration-format_duration : (m : ℕ) → parse_duration (format_duration m) ≡ m
unfolding format_duration
parse_duration-format_duration m = elim (Bool-cases (m % 1440 == 0)) [
  | inl e ↦
      let whole : m / 1440 * 1440 ≡ m = ground (arith, e) in
      rw e (ap minutes_of (read-counted (m / 1440) " Day" " Days") ∙ days (m / 1440) ∙ whole)
  | inr e ↦ elim (Bool-cases (m % 60 == 0)) [
    | inl h ↦
        let whole : m / 60 * 60 ≡ m = ground (arith, h) in
        rw (e, h) (ap minutes_of (read-counted (m / 60) " Hour" " Hours") ∙ hours (m / 60) ∙ whole)
    | inr h ↦ rw (e, h) (ap minutes_of (read-counted m " Minute" " Minutes") ∙ minutes m)
  ]
]
