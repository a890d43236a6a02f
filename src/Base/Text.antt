-- ===== src/Base/Text.antt =====
-- JavaScript strings as far as the program uses them. A text is a native `String`; its characters
-- are compared by code.
use Prim.Native.Char.{Char, code}
use Prim.Native.Nat.{ℕ, zero, suc}
use Prim.Native.String.{String}
use mathlib.Core.Bool.{Bool, true, false, ◌&&◌, ◌||◌}
use mathlib.Core.Path.{◌≡◌, sym, ap, ◌∙◌}
use mathlib.Core.Logic.{◌≢◌}
use mathlib.Core.Option.{Option, none, some}
use text.Mathlib.Text.{◌==◌ as text_eq}
use frixel_connect.Base.Tests.{◌==◌, if◌then◌else◌, is_some, leb}

infix 50 ◌===◌
abbrev pub ◌===◌ : String → String → Bool
s === t = text_eq s t

-- `p + s` for a literal `p`: it computes on the literal.
abbrev pub prepend : String → String → String
prepend String.[] s = s
prepend (String.◌∷◌ c p) s = String.◌∷◌ c (prepend p s)

-- What follows the prefix `p` in a text.
abbrev pub strip_prefix : String → String → Option String
strip_prefix String.[] s = some s
strip_prefix (String.◌∷◌ c p) String.[] = none
strip_prefix (String.◌∷◌ c p) (String.◌∷◌ d s) = if code c == code d then strip_prefix p s else none

-- `s.startsWith(p)`.
abbrev pub starts_with : String → String → Bool
starts_with s p = is_some (strip_prefix p s)

-- A string that may be null or empty, as a condition reads it.
abbrev pub truthy : Option String → Option String
truthy none = none
truthy (some String.[]) = none
truthy (some (String.◌∷◌ c s)) = some (String.◌∷◌ c s)

pub truthy-some : (o : Option String) (t : String) → truthy o ≡ some t → o ≡ some t
truthy-some none t e = cc
truthy-some (some String.[]) t e = cc
truthy-some (some (String.◌∷◌ c s)) t e = e

abbrev pub is_empty : String → Bool
is_empty String.[] = true
is_empty (String.◌∷◌ c s) = false

pub of_not_empty : (s t : String) → s ≡ t → is_empty t ≡ false → s ≢ ""
of_not_empty s t e h f = cc (ap is_empty (sym e ∙ f))

-- `[0-9]`.
abbrev pub is_digit : Char → Bool
is_digit c = leb b'0' (code c) && leb (code c) b'9'

abbrev pub all_digits : String → Bool
all_digits String.[] = true
all_digits (String.◌∷◌ c s) = is_digit c && all_digits s

-- White space and line terminators of ECMAScript: what `s.trim()` removes and `\s` matches.
abbrev pub is_space : Char → Bool
is_space c =
    leb 9 (code c) && leb (code c) 13
    || (code c == 32
        || (code c == 160
            || (code c == 5760
                || (leb 8192 (code c) && leb (code c) 8202
                    || (code c == 8232
                        || (code c == 8233
                            || (code c == 8239
                                || (code c == 8287 || (code c == 12288 || code c == 65279)))))))))

-- `s.slice(0, n)` and `s.length`.
abbrev pub text_take : ℕ → String → String
text_take zero s = String.[]
text_take (suc n) String.[] = String.[]
text_take (suc n) (String.◌∷◌ c s) = String.◌∷◌ c (text_take n s)

-- `s.length`, of a text whose characters are one code unit each.
abbrev pub text_length : String → ℕ
text_length String.[] = 0
text_length (String.◌∷◌ c s) = suc (text_length s)

-- `s.substring(n)`.
abbrev pub text_drop : ℕ → String → String
text_drop zero s = s
text_drop (suc n) String.[] = String.[]
text_drop (suc n) (String.◌∷◌ c s) = text_drop n s

-- `s.trim()`.
unfoldable pub trim_start : String → String
trim_start String.[] = String.[]
trim_start (String.◌∷◌ c s) = let rest = trim_start s in if is_space c then rest else String.◌∷◌ c s

unfoldable pub trim_end : String → String
trim_end String.[] = String.[]
trim_end (String.◌∷◌ c s) =
    let rest = trim_end s in if is_space c && is_empty rest then String.[] else String.◌∷◌ c rest

unfoldable pub trim : String → String
unfolding trim_start trim_end
trim s = trim_end (trim_start s)
