-- ===== src/Formats/Invoices.antt =====
-- The code on an invoice, taken apart.
use Prim.Native.Char.{code}
use frixel_connect.Base.{
  ◌≡◌, ◌≢◌, refl, ap, Bool, true, false, String, none, some, if◌then◌else◌, ◌==◌, prepend, truthy,
  arith, Bool-cases, inl, inr,
}
use frixel_connect.Auth.Sessions.{truthy_of_ne}
use frixel_connect.Formats.{before_bar, after_bar, parse_qr_data}

-- A text without the sign that separates the parts.
abbrev pub has_bar : String → Bool
has_bar String.[] = false
has_bar (String.◌∷◌ c s) = if code c == b'|' then true else has_bar s

before_bar-prepend : (s t : String) → has_bar s ≡ false → before_bar (prepend s (prepend "|" t)) ≡ s
unfolding before_bar
before_bar-prepend String.[] t h = refl
before_bar-prepend (String.◌∷◌ c s) t h = elim (Bool-cases (code c == b'|')) [
  | inl e ↦ ground (arith, h, e)
  | inr e ↦
      let rest : has_bar s ≡ false = ground (arith, h, e) in
      rw e (ap (String.◌∷◌ c) (before_bar-prepend s t rest))
]

after_bar-prepend :
    (s t : String) → has_bar s ≡ false → after_bar (prepend s (prepend "|" t)) ≡ some t
unfolding after_bar
after_bar-prepend String.[] t h = refl
after_bar-prepend (String.◌∷◌ c s) t h = ground (arith, h, after_bar-prepend s t)

before_bar-none : (t : String) → has_bar t ≡ false → before_bar t ≡ t
unfolding before_bar
before_bar-none String.[] h = refl
before_bar-none (String.◌∷◌ c t) h = elim (Bool-cases (code c == b'|')) [
  | inl e ↦ ground (arith, h, e)
  | inr e ↦
      let rest : has_bar t ≡ false = ground (arith, h, e) in
      rw e (ap (String.◌∷◌ c) (before_bar-none t rest))
]

after_bar-none : (t : String) → has_bar t ≡ false → after_bar t ≡ none
unfolding after_bar
after_bar-none String.[] h = refl
after_bar-none (String.◌∷◌ c t) h = ground (arith, h, after_bar-none t)

truthy-prepend :
    (s t : String) → truthy (some (prepend s (prepend "|" t))) ≡ some (prepend s (prepend "|" t))
truthy-prepend String.[] t = refl
truthy-prepend (String.◌∷◌ c s) t = refl

-- From the code of an invoice that is made of a signature, the sign `|` and an address, both parts are read back, and a code
-- that is an address alone is read as one, as long as neither has the sign in it.
pub parse_qr_data-parts :
    (kra_sign qr_url : String)
    → has_bar kra_sign ≡ false
    → has_bar qr_url ≡ false
    → qr_url ≢ ""
    → (parse_qr_data (some (prepend kra_sign (prepend "|" qr_url)))
        ≡ record { qr_url = qr_url; kra_sign = kra_sign })
      × (parse_qr_data (some qr_url) ≡ record { qr_url = qr_url; kra_sign = "" })
unfolding parse_qr_data
parse_qr_data-parts kra_sign qr_url h k n = (
  rw (truthy-prepend kra_sign qr_url, parse_qr_data)
      (rw
        (
          after_bar-prepend kra_sign qr_url h,
          before_bar-prepend kra_sign qr_url h,
          before_bar-none qr_url k,
        )
        refl),
  rw (truthy_of_ne qr_url n, parse_qr_data) (rw (after_bar-none qr_url k) refl),
)
