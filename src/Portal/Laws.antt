-- ===== src/Portal/Laws.antt =====
-- A session survives a reload, and ends with its logout.
use frixel_connect.Base.{
  ◌≡◌, refl, ap, ◌∙◌, true, false, String, [], none, some, if◌then◌else◌, arith, truthy, eq_iff,
  ◌≢◌, ◌===◌, starts_with,
}
use frixel_connect.Storage.{Storage, get_item}
use frixel_connect.Auth.{
  Browser, DecodedToken, UserRole, get_token, get_refresh_token, decode_token, is_token_expired,
  save_token, save_refresh_token, active_tenant_key, clear_token, clear_all_tenant_tokens,
  refresh_prefix, token_prefix, get_token_for_tenant, refresh_key,
}
use frixel_connect.Auth.Sessions.{
  save_tokens_lem, clear_token_lem, clear_all_tenant_tokens_lem, truthy_of_ne,
  tokens_of-clear_all_tenant_tokens, clear_refresh_token_of_none, active-clear_all_tenant_tokens,
  active-clear_token,
}
use frixel_connect.Portal.{
  Portal, user_of, mount, init_auth, login, logout, home, sign_in, settle_session,
}

-- An access token that a session can be opened with: it reads as claims that name a tenant, and
-- their end has not come.
pub record IsUsable (b : Browser) (token : String) (d : DecodedToken) (t : String) : Type 0 where
  pub decodes : decode_token b token ≡ some d
  pub present : token ≢ ""
  pub tenant : d.tenant_id ≡ some t
  pub named : t ≢ ""
  pub lasts : is_token_expired b token ≡ false

module _ (b : Browser) (access refresh t : String) (d : DecodedToken)
    (u : IsUsable b access d t) where
  truthy_tenant : truthy d.tenant_id ≡ some t
  truthy_tenant = ap truthy u.tenant ∙ truthy_of_ne t u.named

  pub login-eq :
      (p : Portal)
      → login b access refresh p ≡ record p {
        cache = [];
        local = save_refresh_token refresh t (save_token access t p.local);
        user = some (user_of d);
      }
  unfolding login
  login-eq p = ground (arith, u.decodes, truthy_tenant)

  settle_session-eq :
      (p : Portal) → settle_session b (some access) p ≡ record p { user = some (user_of d) }
  unfolding settle_session
  settle_session-eq p = ground (arith, u.decodes, u.lasts, truthy_tenant)

  pub init_auth_usable :
      (p : Portal)
      → get_token p.local ≡ some access
      → init_auth b p ≡ record p { user = some (user_of d); is_loading = false }
  unfolding init_auth
  init_auth_usable p e =
      ground (arith, e, truthy_of_ne access u.present, u.decodes, u.lasts, truthy_tenant)

  pub get_token-sign_in :
      (p : Portal) (role : UserRole)
      → get_token (sign_in b access refresh role p).local ≡ some access
  unfolding sign_in
  get_token-sign_in p role = rw (login-eq p) (save_tokens_lem access refresh t t p.local u.named).0

  -- After a sign-in with a usable access token, the page shows the start page of the role, and a
  -- reload of any page reads the same user back from the storage, with nothing left of the cache.
  pub mount-sign_in :
      (p : Portal) (role : UserRole) (location : String)
      → let q = sign_in b access refresh role p in
        (q.user ≡ some (user_of d))
        × (q.cache ≡ [])
        × (q.location ≡ home role)
        × ((init_auth b (mount q.local location)).user ≡ some (user_of d))
        × ((init_auth b (mount q.local location)).is_loading ≡ false)
        × ((init_auth b (mount q.local location)).local ≡ q.local)
  unfolding sign_in mount
  mount-sign_in p role location =
      let saved = save_refresh_token refresh t (save_token access t p.local) in
      let kept = (save_tokens_lem access refresh t t p.local u.named).0 in
      rw (login-eq p, init_auth_usable (mount saved location) kept)
        (refl, refl, refl, refl, refl, refl)

pub init_auth_signed_out :
    (b : Browser) (p : Portal)
    → get_token p.local ≡ none
    → init_auth b p ≡ record p { user = none; is_loading = false }
unfolding init_auth
init_auth_signed_out b p e = ground (arith, e)

pub logout-local : (p : Portal) → (logout p).local ≡ clear_all_tenant_tokens p.local
unfolding logout
logout-local p = clear_refresh_token_of_none _ (active-clear_all_tenant_tokens p.local)

pub logout-user : (p : Portal) → (logout p).user ≡ none
unfolding logout
logout-user p = refl

logout-cache : (p : Portal) → (logout p).cache ≡ []
unfolding logout
logout-cache p = refl

-- After a logout no tenant has a token in the storage, and a reload finds nobody signed in. A key
-- that is neither a tenant's token nor the mark of the active tenant keeps its value.
pub mount-logout :
    (b : Browser) (p : Portal) (location t k : String)
    → starts_with k token_prefix ≡ false
    → starts_with k refresh_prefix ≡ false
    → k ≢ active_tenant_key
    → ((init_auth b (mount (logout p).local location)).user ≡ none)
      × ((logout p).user ≡ none)
      × ((logout p).cache ≡ [])
      × (get_token_for_tenant t (logout p).local ≡ none)
      × (get_item (refresh_key t) (logout p).local ≡ none)
      × (get_item k (logout p).local ≡ get_item k p.local)
unfolding mount get_token_for_tenant
mount-logout b p location t k h j ne =
    let gone = clear_all_tenant_tokens_lem k p.local in
    rw
      (
        logout-local p,
        init_auth_signed_out b (mount (clear_all_tenant_tokens p.local) location) gone.0,
      )
      (
        refl,
        logout-user p,
        logout-cache p,
        ap (λ o. o.0) (tokens_of-clear_all_tenant_tokens t p.local),
        ap (λ o. o.1) (tokens_of-clear_all_tenant_tokens t p.local),
        gone.2 ∙ ground (arith, eq_iff active_tenant_key k, h, j),
      )

init_auth_of_expired :
    (b : Browser) (p : Portal) (token t : String)
    → get_item active_tenant_key p.local ≡ some t
    → t ≢ ""
    → get_token p.local ≡ some token
    → token ≢ ""
    → is_token_expired b token ≡ true
    → init_auth b p ≡ record p { local = clear_token p.local; user = none; is_loading = false }
unfolding init_auth
init_auth_of_expired b p token t a ne e ne' x = ground (
  arith,
  truthy_of_ne token ne',
  clear_refresh_token_of_none (clear_token p.local) (active-clear_token t p.local a ne),
)

-- A provider that is mounted over an expired or unreadable token signs out: no user is set, no session is left to read, and of
-- all access and refresh tokens in the storage exactly the two of the active tenant are removed.
pub init_auth_expired :
    (b : Browser) (s : Storage) (location token t v : String)
    → get_item active_tenant_key s ≡ some t
    → t ≢ ""
    → get_token s ≡ some token
    → token ≢ ""
    → is_token_expired b token ≡ true
    → let q = init_auth b (mount s location) in
      (q.user ≡ none)
      × (q.is_loading ≡ false)
      × (get_token q.local ≡ none)
      × (get_refresh_token q.local ≡ none)
      × (get_token_for_tenant v q.local ≡ (if t === v then none else get_token_for_tenant v s))
      × (get_item (refresh_key v) q.local ≡ (if t === v then none else get_item (refresh_key v) s))
unfolding mount
init_auth_expired b s location token t v a ne e ne' x =
    let cleared = clear_token_lem t v s a ne in
    rw (init_auth_of_expired b (mount s location) token t a ne e ne' x)
      (refl, refl, cleared.0, cleared.1, cleared.2, cleared.3)
