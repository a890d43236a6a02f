-- ===== src/Api.antt =====
-- frontend/src/lib/api.ts: the axios instance of the tenant portal, with its two interceptors. What
-- the response interceptor does up to its `await`, after the refresh call answers, and after that
-- call fails, are three functions over the page's state. A call returns what the page does next:
-- promises settled, requests sent, a navigation. A request stands for its promise by its id.
pub mod Headers
pub mod Overlap
pub mod Queue
pub mod Stuck
use frixel_connect.Base.{
  ℕ, Bool, true, false, String, List, [], ◌∷◌, ◌++◌, map, Option, none, some, if◌then◌else◌, ◌==◌,
  ◌===◌, ◌&&◌, not, prepend, truthy, is_some,
}
use frixel_connect.Storage.{Storage, get_item, remove_item}
use frixel_connect.Auth.{
  Browser, DecodedToken, active_tenant_key, get_token, clear_token, get_refresh_token, save_token,
  save_refresh_token, clear_refresh_token, clear_all_tenant_tokens, decode_token, is_token_expired,
}

abbrev pub impersonation_token_key : String
impersonation_token_key = "Frixel Connect_impersonation_token"

abbrev pub bearer : String → String
bearer token = prepend "Bearer " token

pub record Config : Type 0 where
  pub id : ℕ
  pub retry : Bool
  pub authorization : Option String

-- The module's variables, the two storages, and the page's path.
pub record Page : Type 0 where
  pub local : Storage
  pub session : Storage
  pub is_refreshing : Bool
  pub failed_queue : List Config
  pub default_authorization : Option String
  pub pathname : String

-- `status` is `error.response?.status`.
pub record Failure : Type 0 where
  pub status : Option ℕ
  pub config : Config

pub data Reason : Type 0 where
  rate_limited original refresh_error : Reason

pub data Effect : Type 0 where
  reject : ℕ → Reason → Effect
  resend : Config → Effect
  call_refresh : String → Effect
  navigate : String → Effect

abbrev pub has_status : ℕ → Option ℕ → Bool
has_status n none = false
has_status n (some m) = m == n

module _ (b : Browser) where
  -- `getRequestToken`.
  unfoldable pub get_request_token : Page → Option String
  get_request_token p = elim (truthy (get_item impersonation_token_key p.session)) [
    | some token ↦ some token
    | none ↦ elim (truthy (get_token p.local)) [
      | none ↦ get_token p.local
      | some token ↦ if is_token_expired b token then none else some token
    ]
  ]

  -- The request interceptor.
  unfoldable pub attach_token : Page → Config → Config
  unfolding get_request_token
  attach_token p config = elim (truthy (get_request_token p)) [
    | none ↦ config
    | some token ↦ record config { authorization = some (bearer token) }
  ]

-- `window.location.href = '/login'`, unless the page is there.
unfoldable pub to_login : Page → List Effect
to_login p = if p.pathname === "/login" then [] else navigate "/login" ∷ []

-- The impersonation branch.
pub end_impersonation : Page → Failure → Page × List Effect
unfolding to_login
end_impersonation p f =
    if has_status 401 f.status
    then (
      record p { session = remove_item impersonation_token_key p.session },
      to_login p ++ reject f.config.id original ∷ [],
    )
    else (p, reject f.config.id original ∷ [])

-- What follows `isRefreshing = true`, up to the `await`.
unfoldable pub begin_refresh : Page → Config → Page × List Effect
unfolding to_login
begin_refresh p config = elim (truthy (get_refresh_token p.local)) [
  | some token ↦ (record p { is_refreshing = true }, call_refresh token ∷ [])
  | none ↦ (
    record p { is_refreshing = true; local = clear_refresh_token (clear_token p.local) },
    to_login p ++ reject config.id original ∷ [],
  )
]

-- The error handler of the response interceptor.
unfoldable pub on_error : Page → Failure → Page × List Effect
unfolding end_impersonation begin_refresh
on_error p f =
    if has_status 429 f.status
    then (p, reject f.config.id rate_limited ∷ [])
    else if is_some (truthy (get_item impersonation_token_key p.session))
    then end_impersonation p f
    else if has_status 401 f.status && not f.config.retry
    then if p.is_refreshing
      then (record p { failed_queue = p.failed_queue ++ f.config ∷ [] }, [])
      else begin_refresh p f.config
    else (p, reject f.config.id original ∷ [])

-- A queued request, once its promise is resolved with the new token.
abbrev pub with_bearer : String → Config → Config
with_bearer token config = record config { authorization = some (bearer token) }

pub store_tokens : Option DecodedToken → String → String → Storage → Storage
store_tokens none access refresh s = s
store_tokens (some decoded) access refresh s = elim (truthy decoded.tenant_id) [
  | none ↦ s
  | some tenant_id ↦ save_refresh_token refresh tenant_id (save_token access tenant_id s)
]

-- After the refresh call answered. The queued requests are sent by callbacks of their promises, so
-- after `api(originalRequest)`.
unfoldable pub on_refreshed : Browser → Page → Config → String → String → Page × List Effect
unfolding store_tokens
on_refreshed b p config access refresh = (
  record p {
    local = store_tokens (decode_token b access) access refresh p.local;
    default_authorization = some (bearer access);
    failed_queue = [];
    is_refreshing = false;
  },
  resend (with_bearer access (record config { retry = true }))
      ∷ map (λ c. resend (with_bearer access c)) p.failed_queue,
)

-- After the refresh call failed.
unfoldable pub on_refresh_failed : Page → Config → Page × List Effect
unfolding to_login
on_refresh_failed p config = (
  record p {
    local = remove_item active_tenant_key (clear_all_tenant_tokens p.local);
    failed_queue = [];
    is_refreshing = false;
  },
  map (λ c. reject c.id refresh_error) p.failed_queue
      ++ (to_login p ++ reject config.id refresh_error ∷ []),
)

-- The page and the request whose refresh call has not answered.
pub record System : Type 0 where
  pub page : Page
  pub in_flight : Option Config

pub data Event : Type 0 where
  fails : Failure → Event
  refreshed : String → String → Event
  refresh_fails : Event

abbrev pub starts_refresh : List Effect → Bool
starts_refresh [] = false
starts_refresh (call_refresh _ ∷ _) = true
starts_refresh (_ ∷ es) = starts_refresh es

abbrev pub mark : Config → Option Config → List Effect → Option Config
mark config old es = if starts_refresh es then some config else old

-- One turn of the event loop. Without a call in flight its answers do not occur.
unfoldable pub step : Browser → System → Event → System × List Effect
unfolding on_error on_refreshed on_refresh_failed
step b s (fails f) =
    let (p, es) = on_error s.page f in
    (record { page = p; in_flight = mark f.config s.in_flight es }, es)
step b s (refreshed access refresh) = elim s.in_flight [
  | none ↦ (s, [])
  | some config ↦
      let (p, es) = on_refreshed b s.page config access refresh in
      (record { page = p; in_flight = none }, es)
]
step b s refresh_fails = elim s.in_flight [
  | none ↦ (s, [])
  | some config ↦
      let (p, es) = on_refresh_failed s.page config in (record { page = p; in_flight = none }, es)
]

unfoldable pub run : Browser → System → List Event → System
unfolding step
run b s [] = s
run b s (e ∷ es) = run b (step b s e).0 es
