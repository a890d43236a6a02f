-- ===== src/Phone/Notation.antt =====
-- A phone number is shown in one way, however it is written.
use Prim.Native.Char.{Char, code}
use frixel_connect.Base.{
  all_digits, text_drop, text_length, text_take, ℕ, zero, suc, ◌+◌, ◌≡◌, refl, sym, ap, ◌∙◌, true,
  false, String, arith, prepend,
}
use frixel_connect.SuperAdmin.{only_digits}
use frixel_connect.Phone.{is_national, is_kenyan_phone, group_digits, format_phone}

only_digits_of_digits : (s : String) → all_digits s ≡ true → only_digits s ≡ s
unfolding only_digits
only_digits_of_digits String.[] h = refl
only_digits_of_digits (String.◌∷◌ c s) h = ground (arith, only_digits_of_digits s)

only_digits-prepend :
    (s t : String) → only_digits (prepend s t) ≡ prepend (only_digits s) (only_digits t)
unfolding only_digits
only_digits-prepend String.[] t = refl
only_digits-prepend (String.◌∷◌ c s) t = ground (arith, only_digits-prepend s t)

pub prepend-take-drop : (n : ℕ) (s : String) → prepend (text_take n s) (text_drop n s) ≡ s
prepend-take-drop zero s = refl
prepend-take-drop (suc n) String.[] = refl
prepend-take-drop (suc n) (String.◌∷◌ c s) = ap (String.◌∷◌ c) (prepend-take-drop n s)

pub all_digits-take : (n : ℕ) (s : String) → all_digits s ≡ true → all_digits (text_take n s) ≡ true
all_digits-take zero s h = refl
all_digits-take (suc n) String.[] h = refl
all_digits-take (suc n) (String.◌∷◌ c s) h = ground (arith, all_digits-take n s)

pub all_digits-drop : (n : ℕ) (s : String) → all_digits s ≡ true → all_digits (text_drop n s) ≡ true
all_digits-drop zero s h = h
all_digits-drop (suc n) String.[] h = refl
all_digits-drop (suc n) (String.◌∷◌ c s) h = ground (arith, all_digits-drop n s)

pub drop_3-drop_4 : (s : String) → text_drop 3 (text_drop 4 s) ≡ text_drop 7 s
drop_3-drop_4 String.[] = refl
drop_3-drop_4 (String.◌∷◌ a String.[]) = refl
drop_3-drop_4 (String.◌∷◌ a (String.◌∷◌ b String.[])) = refl
drop_3-drop_4 (String.◌∷◌ a (String.◌∷◌ b (String.◌∷◌ c String.[]))) = refl
drop_3-drop_4 (String.◌∷◌ a (String.◌∷◌ b (String.◌∷◌ c (String.◌∷◌ d s)))) = refl

-- The digits of the three groups.
only_digits-group_digits : (s : String) → all_digits s ≡ true → only_digits (group_digits s) ≡ s
unfolding group_digits only_digits
only_digits-group_digits s h =
    let a = text_take 4 s in
    let b = text_take 3 (text_drop 4 s) in
    let c = text_drop 7 s in
    rw
      (
        only_digits-prepend a (String.◌∷◌ " " (prepend b (String.◌∷◌ " " c))),
        only_digits-prepend b (String.◌∷◌ " " c),
        only_digits_of_digits a (all_digits-take 4 s h),
        only_digits_of_digits b (all_digits-take 3 (text_drop 4 s) (all_digits-drop 4 s h)),
        only_digits_of_digits c (all_digits-drop 7 s h),
      )
      (ap (prepend a) (ap (prepend b) (sym (drop_3-drop_4 s)) ∙ prepend-take-drop 3 (text_drop 4 s))
        ∙ prepend-take-drop 4 s)

pub national-digits :
    (s : String) → is_national s ≡ true → (all_digits s ≡ true) × (text_length s ≡ 9)
national-digits String.[] h = cc
national-digits (String.◌∷◌ c s) h = ground arith

-- The way in which a number is shown.
unfoldable pub shown : String → String
shown s = group_digits (String.◌∷◌ "0" s)

pub format_phone_local :
    (s : String) → is_national s ≡ true → format_phone (prepend "0" s) ≡ shown s
unfolding format_phone only_digits shown
format_phone_local s h =
    let (digits, nine) = national-digits s h in ground (arith, only_digits_of_digits s digits)

format_phone_abroad : (s : String) → is_national s ≡ true → format_phone (prepend "254" s) ≡ shown s
unfolding format_phone only_digits shown
format_phone_abroad s h =
    let (digits, nine) = national-digits s h in ground (arith, only_digits_of_digits s digits)

format_phone_plus : (s : String) → is_national s ≡ true → format_phone (prepend "+254" s) ≡ shown s
unfolding format_phone only_digits shown
format_phone_plus s h =
    let (digits, nine) = national-digits s h in ground (arith, only_digits_of_digits s digits)

digits_of_shown : (s : String) → is_national s ≡ true → only_digits (shown s) ≡ prepend "0" s
unfolding shown
digits_of_shown s h = only_digits-group_digits (prepend "0" s) (national-digits s h).0

format_phone-shown : (s : String) → is_national s ≡ true → format_phone (shown s) ≡ shown s
unfolding format_phone shown
format_phone-shown s h =
    let (digits, nine) = national-digits s h in
    ground (arith, only_digits-group_digits (prepend "0" s) digits)

pub accepted :
    (s : String)
    → is_national s ≡ true
    → (is_kenyan_phone (prepend "0" s) ≡ true)
      × (is_kenyan_phone (prepend "254" s) ≡ true)
      × (is_kenyan_phone (prepend "+254" s) ≡ true)
unfolding is_kenyan_phone
accepted s h = ground arith

-- A subscriber's number of nine digits that begin with 1 or 7 is accepted after each of the three prefixes,
-- and all three are shown as the same text: its digits are those of the local notation, and to show
-- that text again does not change it.
pub format_phone-notations :
    (s : String)
    → is_national s ≡ true
    → ((is_kenyan_phone (prepend "0" s) ≡ true)
        × (is_kenyan_phone (prepend "254" s) ≡ true)
        × (is_kenyan_phone (prepend "+254" s) ≡ true))
      × (format_phone (prepend "254" s) ≡ format_phone (prepend "0" s))
      × (format_phone (prepend "+254" s) ≡ format_phone (prepend "0" s))
      × (only_digits (format_phone (prepend "0" s)) ≡ prepend "0" s)
      × (format_phone (format_phone (prepend "0" s)) ≡ format_phone (prepend "0" s))
format_phone-notations s h =
    let here = format_phone_local s h in
    (
      accepted s h,
      format_phone_abroad s h ∙ sym here,
      format_phone_plus s h ∙ sym here,
      ap only_digits here ∙ digits_of_shown s h,
      ap format_phone here ∙ format_phone-shown s h ∙ sym here,
    )

length-prepend : (s t : String) → text_length (prepend s t) ≡ text_length s + text_length t
length-prepend String.[] t = omega arith
length-prepend (String.◌∷◌ c s) t = omega (arith, length-prepend s t)

length-group_digits : (s : String) → text_length (group_digits s) ≡ text_length s + 2
unfolding group_digits
length-group_digits s =
    let a = text_take 4 s in
    let b = text_take 3 (text_drop 4 s) in
    let c = text_drop 7 s in
    omega (
      arith,
      length-prepend a (String.◌∷◌ " " (prepend b (String.◌∷◌ " " c))),
      length-prepend b (String.◌∷◌ " " c),
      ap text_length (prepend-take-drop 4 s),
      length-prepend a (text_drop 4 s),
      ap text_length (prepend-take-drop 3 (text_drop 4 s)),
      length-prepend b (text_drop 3 (text_drop 4 s)),
      ap text_length (drop_3-drop_4 s),
    )

long_is_rejected :
    (c : Char) (s : String)
    → code c ≡ b'0'
    → text_length s ≡ 11
    → is_kenyan_phone (String.◌∷◌ c s) ≡ false
unfolding is_kenyan_phone
long_is_rejected c String.[] e h = ground arith
long_is_rejected c (String.◌∷◌ d s) e h = ground arith

shown-not-accepted : (s : String) → is_national s ≡ true → is_kenyan_phone (shown s) ≡ false
unfolding shown group_digits
shown-not-accepted s h =
    let nine = (national-digits s h).1 in
    long_is_rejected "0" (text_drop 1 (group_digits (String.◌∷◌ "0" s))) refl
      (omega (arith, nine, length-group_digits (String.◌∷◌ "0" s)))

-- The text in which a number is shown, which is also the form of the example in the error message, is not
-- accepted as a number.
pub shown_is_rejected :
    (s : String)
    → is_national s ≡ true
    → (is_kenyan_phone (prepend "0" s) ≡ true)
      × (is_kenyan_phone (format_phone (prepend "0" s)) ≡ false)
shown_is_rejected s h =
    ((accepted s h).0, ap is_kenyan_phone (format_phone_local s h) ∙ shown-not-accepted s h)
