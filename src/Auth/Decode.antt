-- ===== src/Auth/Decode.antt =====
-- Reading a token: the second segment, its alphabet, and the percent encoding of its bytes.
use Prim.Native.Char.{Char, code}
use frixel_connect.Base.{
  ℕ, ◌+◌, ◌-◌, ◌/◌, ◌%◌, ap, ◌*◌, ◌<◌, ◌≡◌, refl, ◌≢◌, String, List, [], ◌∷◌, Option, none, some,
  arith, if◌then◌else◌, ◌==◌, All, Bool-cases, inl, inr, prepend, ◌&&◌, leb,
}
use text.Mathlib.TextEquality.{Char-path}
use frixel_connect.Auth.{
  Browser, decode_token, ◌>>=◌, until_dot, second_segment, plain_char, plain_base64, hex_digit,
  percent_encode,
}

-- Percent decoding of lower-case digits, after RFC 3986: each `%xy` stands for one byte.
pub hex_value : ℕ → Option ℕ
hex_value c =
    if leb b'0' c && leb c b'9'
    then some (c - b'0')
    else if leb b'a' c && leb c b'f'
    then some (c - 87)
    else none

abbrev join_byte : Option ℕ → Option ℕ → Option (List ℕ) → Option (List ℕ)
join_byte (some x) (some y) (some bs) = some ((16 * x + y) ∷ bs)
join_byte _ _ _ = none

pub percent_decode : List ℕ → Option (List ℕ)
percent_decode [] = some []
percent_decode (p ∷ []) = none
percent_decode (p ∷ x ∷ []) = none
percent_decode (p ∷ x ∷ y ∷ cs) =
    if p == b'%' then join_byte (hex_value x) (hex_value y) (percent_decode cs) else none

hex_value-hex_digit : (n : ℕ) → n < 16 → hex_value (hex_digit n) ≡ some n
unfolding hex_value hex_digit
hex_value-hex_digit n h = ground arith

-- The percent encoding loses no byte: decoding it gives the bytes that `atob` gave.
pub percent_decode-percent_encode :
    (bs : List ℕ) → All (λ b. b < 256) bs → percent_decode (percent_encode bs) ≡ some bs
unfolding percent_decode percent_encode
percent_decode-percent_encode [] h = refl
percent_decode-percent_encode (b ∷ bs) (h, hs) =
    rw
      (
        hex_value-hex_digit (b / 16 % 16) (omega arith),
        hex_value-hex_digit (b % 16) (omega arith),
        percent_decode-percent_encode bs hs,
      )
      (ap (λ c. some (c ∷ bs)) (omega arith))

abbrev pub NoDot : String → Type 0
NoDot String.[] = Unit
NoDot (String.◌∷◌ c s) = (code c ≢ b'.') × NoDot s

abbrev dotted : String → String → String
dotted s t = prepend s (String.◌∷◌ "." t)

until_dot-dotted : (s t : String) → NoDot s → until_dot (dotted s t) ≡ s
unfolding until_dot
until_dot-dotted String.[] t h = refl
until_dot-dotted (String.◌∷◌ c s) t (p, h) = ground (arith, until_dot-dotted s t h)

second_segment-dotted :
    (s t u : String) → NoDot s → NoDot t → second_segment (dotted s (dotted t u)) ≡ some t
unfolding second_segment
second_segment-dotted String.[] t u h k = rw (until_dot-dotted t u k)
second_segment-dotted (String.◌∷◌ c s) t u (p, h) k =
    ground (arith, second_segment-dotted s t u h k)

-- The URL-safe alphabet of RFC 4648, which a token is written in.
pub url_char : Char → Char
url_char c = if code c == b'+' then "-" else if code c == b'/' then "_" else c

pub url_base64 : String → String
url_base64 String.[] = String.[]
url_base64 (String.◌∷◌ c s) = String.◌∷◌ (url_char c) (url_base64 s)

-- A text of the standard alphabet holds neither of the characters that only the other one has.
abbrev pub IsStandard : String → Type 0
IsStandard String.[] = Unit
IsStandard (String.◌∷◌ c s) = (code c ≢ b'-') × (code c ≢ b'_') × (code c ≢ b'.') × IsStandard s

plain_char-url_char : (c : Char) → code c ≢ b'-' → code c ≢ b'_' → plain_char (url_char c) ≡ c
unfolding plain_char url_char
plain_char-url_char c p q = elim (Bool-cases (code c == b'+')) [
  | inl e ↦ rw e (Char-path "+" c (ground arith))
  | inr e ↦ elim (Bool-cases (code c == b'/')) [
    | inl f ↦ rw (e, f) (Char-path "/" c (ground arith))
    | inr f ↦ rw (e, f) (ground arith)
  ]
]

plain_base64-url_base64 : (s : String) → IsStandard s → plain_base64 (url_base64 s) ≡ s
unfolding plain_base64 url_base64
plain_base64-url_base64 String.[] h = refl
plain_base64-url_base64 (String.◌∷◌ c s) (p, q, _, h) =
    rw (plain_char-url_char c p q, plain_base64-url_base64 s h)

url_char-ne-dot : (c : Char) → code c ≢ b'.' → code (url_char c) ≢ b'.'
unfolding url_char
url_char-ne-dot c r = elim (Bool-cases (code c == b'+')) [
  | inl e ↦ rw e (omega arith)
  | inr e ↦ elim (Bool-cases (code c == b'/')) [
    | inl f ↦ rw (e, f) (omega arith)
    | inr f ↦ rw (e, f) r
  ]
]

url_base64-NoDot : (s : String) → IsStandard s → NoDot (url_base64 s)
unfolding url_base64
url_base64-NoDot String.[] h = tt
url_base64-NoDot (String.◌∷◌ c s) (p, q, r, h) = (url_char-ne-dot c r, url_base64-NoDot s h)

-- A token of three segments is read by its second one: its standard base64 text is what `atob` is
-- given, and the bytes that come back are percent-encoded, decoded as UTF-8 and parsed. The segment
-- is not empty and holds characters of the standard alphabet, and the first has no dot.
pub decode_token_lem :
    (b : Browser) (header payload signature : String)
    → NoDot header
    → IsStandard payload
    → payload ≢ ""
    → decode_token b
        (prepend header (String.◌∷◌ "." (prepend (url_base64 payload) (String.◌∷◌ "." signature))))
      ≡ (b.atob payload >>= λ binary.
          b.decode_uri_component (percent_encode binary) >>= b.json_parse)
unfolding decode_token url_base64
decode_token_lem b header String.[] signature h k ne = absurd (ne refl)
decode_token_lem b header (String.◌∷◌ c s) signature h k ne = rw (
  second_segment-dotted header (url_base64 (String.◌∷◌ c s)) signature h
      (url_base64-NoDot (String.◌∷◌ c s) k),
  url_base64,
  plain_base64-url_base64 (String.◌∷◌ c s) k,
)
