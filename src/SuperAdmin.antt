-- ===== src/SuperAdmin.antt =====
-- The super admin's session: frontend/src/lib/superAdminApi.ts (its token and interceptors, in the child Client),
-- context/SuperAdminAuthContext.tsx (the sign-in in two steps), hooks/useSuperAdminAuth.ts,
-- components/shared/SuperAdminRoute.tsx, and the handlers of
-- pages/super-admin/SuperAdminLoginPage.tsx.
pub mod Access
pub mod Isolation
mod Client
unfoldable pub use Client.*
use Prim.Native.Char.{Char, code}
use frixel_connect.Base.{
  is_digit, text_length, text_take, ℕ, zero, suc, ◌*◌, Bool, true, false, String, List, [], ◌∷◌,
  ◌++◌, Option, none, some, if◌then◌else◌, ◌==◌, ◌===◌, ltb, leb, ◌&&◌, ◌||◌, not, truthy, is_some,
  get_or, prepend,
}
use frixel_connect.Storage.{Storage, get_item, set_item, remove_item}
use frixel_connect.Auth.{Browser, second_segment, plain_base64, percent_encode, ◌>>=◌}
use frixel_connect.Api.{bearer, has_status}

pub record SuperAdminClaims : Type 0 where
  pub sub : String
  pub full_name : Option String
  pub exp : ℕ

-- `read` is `JSON.parse` at this type, with null as a failure.
abbrev pub Reader : Type 0
Reader = List ℕ → Option SuperAdminClaims

unfoldable pub decode_super_admin_token : Browser → Reader → String → Option SuperAdminClaims
unfolding second_segment plain_base64 percent_encode
decode_super_admin_token b read token = do
  base64_url ← truthy (second_segment token)
  binary ← b.atob (plain_base64 base64_url)
  payload ← b.decode_uri_component (percent_encode binary)
  read payload

unfoldable pub is_super_admin_token_expired : Browser → Reader → String → Bool
is_super_admin_token_expired b read token = elim (decode_super_admin_token b read token) [
  | none ↦ true
  | some decoded ↦ ltb (decoded.exp * 1000) b.now_ms
]

pub record SuperAdminUser : Type 0 where
  pub id : String
  pub full_name : String

pub data LoginStep : Type 0 where
  idle password totp_setup totp_verify done : LoginStep

-- The provider's state, with the storage, the address, and the code field of the login page.
pub record Console : Type 0 where
  pub local : Storage
  pub super_admin : Option SuperAdminUser
  pub login_step : LoginStep
  pub pre_auth_token : Option String
  pub is_loading : Bool
  pub location : String
  pub totp_code : String

unfoldable pub mount : Storage → String → Console
mount local location = record {
  local = local;
  super_admin = none;
  login_step = LoginStep.idle;
  pre_auth_token = none;
  is_loading = true;
  location = location;
  totp_code = "";
}

pub open_session : Option SuperAdminClaims → Console → Console
unfolding clear_super_admin_token
open_session none c = record c { local = clear_super_admin_token c.local }
open_session (some decoded) c = record c {
  super_admin =
      some
        (record { id = decoded.sub; full_name = get_or (truthy decoded.full_name) "Super Admin" });
  login_step = LoginStep.done;
}

pub settle_console : Browser → Reader → Option String → Console → Console
unfolding open_session clear_super_admin_token
settle_console b read none c = c
settle_console b read (some token) c =
    if is_super_admin_token_expired b read token
    then record c { local = clear_super_admin_token c.local }
    else open_session (decode_super_admin_token b read token) c

-- The effect of the provider's mount.
unfoldable pub init_super_admin : Browser → Reader → Console → Console
unfolding settle_console get_super_admin_token
init_super_admin b read c =
    record (settle_console b read (truthy (get_super_admin_token c.local)) c) { is_loading = false }

unfoldable pub login : String → SuperAdminUser → Console → Console
unfolding save_super_admin_token
login token profile c = record c {
  local = save_super_admin_token token c.local;
  super_admin = some profile;
  login_step = LoginStep.done;
}

unfoldable pub logout : Console → Console
unfolding clear_super_admin_token
logout c = record c {
  local = clear_super_admin_token c.local;
  super_admin = none;
  login_step = LoginStep.idle;
  pre_auth_token = none;
  location = "/super-admin/login";
}

-- `onSuccess` of `usePasswordLogin`.
unfoldable pub on_password : String → Bool → Console → Console
on_password pre_auth setup_required c = record c {
  pre_auth_token = some pre_auth;
  login_step = if setup_required then LoginStep.totp_setup else LoginStep.totp_verify;
}

-- `onSuccess` of `useTOTPVerify`.
unfoldable pub on_totp_verified : String → SuperAdminUser → Console → Console
unfolding login
on_totp_verified token profile c = record (login token profile c) {
  location = "/super-admin/dashboard";
}

-- `value.replace(/[^0-9]/g, '')`.
unfoldable pub only_digits : String → String
only_digits String.[] = String.[]
only_digits (String.◌∷◌ c s) =
    let rest = only_digits s in if is_digit c then String.◌∷◌ c rest else rest

-- `handleTotpChange`: the new state, and the verification request, if one is sent.
unfoldable pub handle_totp_change : String → Console → Console × Option (String × String)
unfolding only_digits
handle_totp_change value c =
    let val = text_take 6 (only_digits value) in
    (
      record c { totp_code = val },
      elim (truthy c.pre_auth_token) [
        | none ↦ none
        | some pre_auth ↦ if text_length val == 6 then some (pre_auth, val) else none
      ],
    )

-- Its `onError`.
unfoldable pub on_totp_rejected : Console → Console
on_totp_rejected c = record c { totp_code = "" }

unfoldable pub handle_reset_auth : Console → Console
handle_reset_auth c = record c {
  pre_auth_token = none;
  login_step = LoginStep.idle;
  totp_code = "";
}

pub data View : Type 0 where
  spinner outlet : View
  redirect : String → View

abbrev pub is_done : LoginStep → Bool
is_done LoginStep.done = true
is_done _ = false

-- `SuperAdminRoute`.
unfoldable pub super_admin_route : Console → View
super_admin_route c =
    if c.is_loading
    then View.spinner
    else if not (is_some c.super_admin) || not (is_done c.login_step)
    then View.redirect "/super-admin/login"
    else View.outlet

pub data Event : Type 0 where
  accepts_password : String → Bool → Event
  continues : Event
  types : String → Event
  verifies : String → SuperAdminUser → Event
  rejects resets signs_out : Event
  fails : Option ℕ → Event

-- The button of the set-up screen, which that screen alone shows.
abbrev pub continue_setup : Console → Console
continue_setup c = elim c.login_step [
  | idle ↦ c
  | password ↦ c
  | totp_setup ↦ record c { login_step = LoginStep.totp_verify }
  | totp_verify ↦ c
  | done ↦ c
]

unfoldable pub step : Console → Event → Console
unfolding on_password handle_totp_change on_totp_verified on_totp_rejected handle_reset_auth logout
    on_super_admin_error
step c (accepts_password pre_auth setup_required) = on_password pre_auth setup_required c
step c continues = continue_setup c
step c (types value) = (handle_totp_change value c).0
step c (verifies token profile) = on_totp_verified token profile c
step c rejects = on_totp_rejected c
step c resets = handle_reset_auth c
step c signs_out = logout c
step c (fails status) =
    let (local, target) = on_super_admin_error status c.location c.local in
    record c { local = local; location = get_or target c.location }

unfoldable pub run : Console → List Event → Console
unfolding step
run c [] = c
run c (e ∷ es) = run (step c e) es
