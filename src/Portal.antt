-- ===== src/Portal.antt =====
-- frontend/src/context/AuthContext.tsx and frontend/src/hooks/useAuth.ts: who is signed in to the
-- tenant portal. The provider's React state, the query cache and the address are fields; the
-- tokens are in the local storage.
pub mod Laws
use frixel_connect.Base.{
  Bool, true, false, String, List, [], ◌∷◌, Option, none, some, if◌then◌else◌, truthy, not, is_some,
}
use frixel_connect.Storage.{Storage}
use frixel_connect.Auth.{
  Browser, DecodedToken, UserRole, save_token, get_token, clear_token, clear_all_tenant_tokens,
  save_refresh_token, clear_refresh_token, decode_token, is_token_expired,
}

pub record AuthUser : Type 0 where
  pub user_id : String
  pub role : UserRole
  pub tenant_id : Option String

-- `cache` lists the keys of the queries that the query client holds.
pub record Portal : Type 0 where
  pub local : Storage
  pub user : Option AuthUser
  pub is_loading : Bool
  pub cache : List (List String)
  pub location : String

-- `decoded?.tenant_id`, where it is set and not empty.
abbrev pub tenant_of : Option DecodedToken → Option String
tenant_of none = none
tenant_of (some decoded) = truthy decoded.tenant_id

abbrev pub user_of : DecodedToken → AuthUser
user_of decoded = record {
  user_id = decoded.sub;
  role = decoded.role;
  tenant_id = decoded.tenant_id;
}

abbrev pub set_user_of : Option DecodedToken → Portal → Portal
set_user_of none p = p
set_user_of (some decoded) p =
    if is_some (truthy decoded.tenant_id) then record p { user = some (user_of decoded) } else p

-- The state of a provider that has just been mounted, over the storage that the browser kept.
unfoldable pub mount : Storage → String → Portal
mount local location = record {
  local = local;
  user = none;
  is_loading = true;
  cache = [];
  location = location;
}

-- `!!user`.
unfoldable pub is_authenticated : Portal → Bool
is_authenticated p = is_some p.user

module _ (b : Browser) where
  pub settle_session : Option String → Portal → Portal
  settle_session none p = record p { user = none }
  settle_session (some token) p =
      if is_token_expired b token
      then record p { local = clear_refresh_token (clear_token p.local); user = none }
      else set_user_of (decode_token b token) p

  unfoldable pub init_auth : Portal → Portal
  unfolding settle_session
  init_auth p = record (settle_session (truthy (get_token p.local)) p) { is_loading = false }

  unfoldable pub login : String → String → Portal → Portal
  login access refresh p = elim (tenant_of (decode_token b access)) [
    | none ↦ record p { cache = [] }
    | some tenant_id ↦ set_user_of (decode_token b access) (record p {
      cache = [];
      local = save_refresh_token refresh tenant_id (save_token access tenant_id p.local);
    })
  ]

  unfoldable pub refresh_user : Portal → Portal
  refresh_user p = elim (truthy (get_token p.local)) [
    | none ↦ p
    | some token ↦ set_user_of (decode_token b token) p
  ]

unfoldable pub logout : Portal → Portal
logout p = record p {
  cache = [];
  local = clear_refresh_token (clear_all_tenant_tokens p.local);
  user = none;
  location = "/login";
}

-- `navigateBasedOnRole`.
unfoldable pub home : UserRole → String
home UserRole.admin = "/admin/dashboard"
home UserRole.reseller = "/reseller/dashboard"
home UserRole.customer = "/customer/dashboard"

-- What `useLogin` and `useRegister` do when the server answers with tokens.
unfoldable pub sign_in : Browser → String → String → UserRole → Portal → Portal
sign_in b access refresh role p = record (login b access refresh p) { location = home role }
