-- ===== src/Auth.antt =====
-- frontend/src/lib/auth.ts and frontend/src/types/auth.ts: the tokens of the tenant portal in
-- `localStorage`. What the browser implements (`window.atob`, `decodeURIComponent`, `JSON.parse`,
-- the clock) is the parameter `Browser`.
pub mod Keys
pub mod Refinement
pub mod Decode
pub mod Sessions
use Prim.Native.Char.{Char, code}
use mathlib.Core.Option
use frixel_connect.Base.{
  ℕ, ◌+◌, ◌*◌, ◌/◌, ◌%◌, Bool, true, false, String, List, [], ◌∷◌, Option, none, some,
  if◌then◌else◌, ◌==◌, ltb, prepend, starts_with, truthy, is_empty,
}
use frixel_connect.Storage.{Storage, get_item, set_item, remove_item, remove_where}

pub data UserRole : Type 0 where
  admin reseller customer : UserRole

pub data TenantStatus : Type 0 where
  active suspended cancelled : TenantStatus

pub record DecodedToken : Type 0 where
  pub sub : String
  pub role : UserRole
  pub reseller_id : Option String
  pub tenant_id : Option String
  pub tenant_status : Option TenantStatus
  pub exp : ℕ
  pub iat : ℕ

-- A call that throws is `none`. A text that goes from one of these to the next is the list of its
-- character codes. `json_parse` is `none` also where the parsed value is null.
pub record Browser : Type 0 where
  pub atob : String → Option (List ℕ)
  pub decode_uri_component : List ℕ → Option (List ℕ)
  pub json_parse : List ℕ → Option DecodedToken
  pub now_ms : ℕ

abbrev pub token_prefix : String
token_prefix = "Frixel Connect_token_"

abbrev pub refresh_prefix : String
refresh_prefix = "Frixel Connect_refresh_"

abbrev pub active_tenant_key : String
active_tenant_key = "Frixel Connect_active_tenant"

unfoldable pub token_key : String → String
token_key tenant_id = prepend token_prefix tenant_id

unfoldable pub refresh_key : String → String
refresh_key tenant_id = prepend refresh_prefix tenant_id

unfoldable pub save_token : String → String → Storage → Storage
save_token token tenant_id s =
    set_item active_tenant_key tenant_id (set_item (token_key tenant_id) token s)

unfoldable pub get_token : Storage → Option String
get_token s = elim (truthy (get_item active_tenant_key s)) [
  | none ↦ none
  | some tenant_id ↦ get_item (token_key tenant_id) s
]

unfoldable pub get_token_for_tenant : String → Storage → Option String
get_token_for_tenant tenant_id s = get_item (token_key tenant_id) s

unfoldable pub clear_token : Storage → Storage
clear_token s = elim (truthy (get_item active_tenant_key s)) [
  | none ↦ remove_item active_tenant_key s
  | some tenant_id ↦
      remove_item active_tenant_key
        (remove_item (refresh_key tenant_id) (remove_item (token_key tenant_id) s))
]

unfoldable pub clear_all_tenant_tokens : Storage → Storage
clear_all_tenant_tokens s = remove_item active_tenant_key (
    remove_where (λ k. starts_with k refresh_prefix)
      (remove_where (λ k. starts_with k token_prefix) s))

unfoldable pub save_refresh_token : String → String → Storage → Storage
save_refresh_token token tenant_id s = set_item (refresh_key tenant_id) token s

unfoldable pub get_refresh_token : Storage → Option String
get_refresh_token s = elim (truthy (get_item active_tenant_key s)) [
  | none ↦ none
  | some tenant_id ↦ get_item (refresh_key tenant_id) s
]

unfoldable pub clear_refresh_token : Storage → Storage
clear_refresh_token s = elim (truthy (get_item active_tenant_key s)) [
  | none ↦ s
  | some tenant_id ↦ remove_item (refresh_key tenant_id) s
]

-- `token.split('.')[1]`.
pub until_dot : String → String
until_dot String.[] = String.[]
until_dot (String.◌∷◌ c s) =
    let rest = until_dot s in if code c == b'.' then String.[] else String.◌∷◌ c rest

unfoldable pub second_segment : String → Option String
unfolding until_dot
second_segment String.[] = none
second_segment (String.◌∷◌ c s) = if code c == b'.' then some (until_dot s) else second_segment s

-- `base64Url.replace(/-/g, '+').replace(/_/g, '/')`.
pub plain_char : Char → Char
plain_char c = if code c == b'-' then "+" else if code c == b'_' then "/" else c

unfoldable pub plain_base64 : String → String
unfolding plain_char
plain_base64 String.[] = String.[]
plain_base64 (String.◌∷◌ c s) = String.◌∷◌ (plain_char c) (plain_base64 s)

-- `c.toString(16)`, one digit; and `'%' + ('00' + c.toString(16)).slice(-2)` for each code.
pub hex_digit : ℕ → ℕ
hex_digit n = if ltb n 10 then b'0' + n else 87 + n

unfoldable pub percent_encode : List ℕ → List ℕ
unfolding hex_digit
percent_encode [] = []
percent_encode (c ∷ cs) = b'%' ∷ hex_digit (c / 16 % 16) ∷ hex_digit (c % 16) ∷ percent_encode cs

infixl 5 ◌>>=◌
abbrev pub ◌>>=◌ {ℓ κ} : {A : Type ℓ} {B : Type κ} → Option A → (A → Option B) → Option B
none >>= f = none
some a >>= f = f a

module _ (b : Browser) where
  unfoldable pub decode_token : String → Option DecodedToken
  unfolding second_segment plain_base64 percent_encode
  decode_token token = do
    base64_url ← truthy (second_segment token)
    binary ← b.atob (plain_base64 base64_url)
    payload ← b.decode_uri_component (percent_encode binary)
    b.json_parse payload

  -- `decoded.exp < Date.now() / 1000`, both sides times 1000.
  unfoldable pub is_token_expired : String → Bool
  is_token_expired token = elim (decode_token token) [
    | none ↦ true
    | some decoded ↦ ltb (decoded.exp * 1000) b.now_ms
  ]

  unfoldable pub get_user_role : Storage → Option UserRole
  get_user_role s = do token ← truthy (get_token s); decoded ← decode_token token; some decoded.role

  unfoldable pub get_user_id : Storage → Option String
  get_user_id s = do
    token ← truthy (get_token s)
    decoded ← decode_token token
    truthy (some decoded.sub)
