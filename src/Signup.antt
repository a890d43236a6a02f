-- ===== src/Signup.antt =====
-- The sign-up of a tenant: frontend/src/pages/public/TenantSignupPage.tsx and
-- frontend/src/hooks/useTenantSignup.ts. The schema library is a parameter only through what it is
-- given here: the pattern and the transformation of the phone number.
pub mod Start
pub mod Fields
use Prim.Native.Char.{Char, code}
use frixel_connect.Base.{
  ℕ, Bool, true, false, String, List, [], ◌∷◌, Option, none, some, if◌then◌else◌, ◌==◌, ◌===◌, ltb,
  leb, ◌&&◌, ◌||◌, is_digit, is_space, text_length, strip_prefix, find, get_or,
}
use frixel_connect.Phone.{test_rest}
use frixel_connect.Auth.{Browser}
use frixel_connect.Portal.{Portal, login}
use frixel_connect.Onboarding.{
  ServiceType, hotspot, pppoe, OnboardingState, Codec, init_onboarding_state,
}

pub data Tier : Type 0 where
  starter growth scale enterprise : Tier

-- `subscriptionTiers.includes(urlTier) ? urlTier : 'growth'`.
unfoldable pub default_tier : Option String → Tier
default_tier none = growth
default_tier (some t) =
    if t === "starter"
    then starter
    else if t === "growth"
    then growth
    else if t === "scale"
    then scale
    else if t === "enterprise"
    then enterprise
    else growth

unfoldable pub default_service : Option String → ServiceType
default_service none = hotspot
default_service (some s) = if s === "pppoe" then pppoe else hotspot

abbrev pub is_upper : Char → Bool
is_upper c = leb b'A' (code c) && leb (code c) b'Z'

-- `/[A-Z]/.test(s)` and `/\d/.test(s)`.
abbrev pub some_char : (Char → Bool) → String → Bool
some_char p String.[] = false
some_char p (String.◌∷◌ c s) = p c || some_char p s

unfoldable pub get_password_strength : String → ℕ
get_password_strength password =
    if ltb (text_length password) 8
    then 1
    else if some_char is_upper password && some_char is_digit password
    then 3
    else 2

-- `v.replace(/\s+/g, '')`.
unfoldable pub strip_spaces : String → String
strip_spaces String.[] = String.[]
strip_spaces (String.◌∷◌ c s) =
    let rest = strip_spaces s in if is_space c then rest else String.◌∷◌ c rest

-- `/^(?:\+?254|0)[17]\d{8}$/` behind the transformation.
unfoldable pub accepts_phone : String → Bool
unfolding strip_spaces
accepts_phone v =
    let s = strip_spaces v in
    test_rest (strip_prefix "+254" s)
    || (test_rest (strip_prefix "254" s) || test_rest (strip_prefix "0" s))

pub record SignupForm : Type 0 where
  pub business_name : String
  pub owner_name : String
  pub owner_email : String
  pub owner_phone : String
  pub password : String
  pub subscription_tier : Tier
  pub service_type : ServiceType

-- The body of POST /tenants/register.
pub record RegisterBody : Type 0 where
  pub business_name : String
  pub owner_email : String
  pub owner_phone : String
  pub password : String
  pub subscription_tier : Tier

unfoldable pub register_body : SignupForm → RegisterBody
unfolding strip_spaces
register_body form = record {
  business_name = form.business_name;
  owner_email = form.owner_email;
  owner_phone = strip_spaces form.owner_phone;
  password = form.password;
  subscription_tier = form.subscription_tier;
}

-- `onSuccess`: the register endpoint sends no refresh token.
unfoldable pub on_registered :
    Browser → Codec OnboardingState → String → String → SignupForm → Portal → Portal
on_registered b c access now form p =
    let q = login b access "" p in
    record q {
      local = init_onboarding_state c form.service_type now q.local;
      location = "/admin/onboarding";
    }

-- A field of the form, and the whole form as `root`.
pub data Field : Type 0 where
  business_name owner_email owner_phone password subscription_tier root : Field

-- An object is looked up; the names that every object inherits are left aside.
unfoldable pub map_api_field : String → Option Field
map_api_field name =
    if name === "business_name"
    then some Field.business_name
    else if name === "owner_email"
    then some Field.owner_email
    else if name === "owner_phone"
    then some Field.owner_phone
    else if name === "password"
    then some Field.password
    else if name === "subscription_tier"
    then some Field.subscription_tier
    else none

-- A segment of `loc`.
pub data Segment : Type 0 where
  key : String → Segment
  position : ℕ → Segment

pub record ApiError : Type 0 where
  pub loc : List Segment
  pub msg : String

-- `error.response`: its status, and its `detail` where that is an array.
pub record ApiFailure : Type 0 where
  pub status : Option ℕ
  pub detail : Option (List ApiError)

abbrev pub last_segment : List Segment → Option Segment
last_segment [] = none
last_segment (s ∷ []) = some s
last_segment (s ∷ t ∷ ss) = last_segment (t ∷ ss)

abbrev pub field_of : Option Segment → Option Field
field_of (some (key name)) = map_api_field name
field_of _ = none

-- `detail.forEach(…)`: the calls of `setError`.
unfoldable pub field_errors : List ApiError → List (Field × String)
unfolding map_api_field
field_errors [] = []
field_errors (item ∷ items) =
    let rest = field_errors items in
    elim (field_of (last_segment item.loc)) [ none ↦ rest | some f ↦ (f, item.msg) ∷ rest ]

abbrev pub failed_message : String
failed_message = "Registration failed. Please try again."

-- The `catch` of `onSubmit`.
unfoldable pub on_register_failed : ApiFailure → List (Field × String)
unfolding field_errors
on_register_failed e = elim e.status [
  | none ↦ (Field.root, failed_message) ∷ []
  | some status ↦
      if status == 409
      then (Field.owner_email, "An account with this email already exists.") ∷ []
      else if status == 422
      then elim e.detail [
        | none ↦ (Field.root, failed_message) ∷ []
        | some items ↦ field_errors items
      ]
      else (Field.root, failed_message) ∷ []
]
