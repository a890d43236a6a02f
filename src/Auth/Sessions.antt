-- ===== src/Auth/Sessions.antt =====
-- What the session functions of auth.ts do to the tokens of each tenant.
use frixel_connect.Base.{
  ◌≡◌, refl, sym, ◌∙◌, ◌≢◌, Bool, true, false, String, Option, some, none, arith, ◌===◌, eq_iff,
  ◌||◌, truthy, starts_with, if◌then◌else◌, eq_refl, Option-cases, inl, inr,
}
use frixel_connect.Storage.{Storage, get_item}
use frixel_connect.Storage.Laws.{get_item-set_item, get_item-remove_item, get_item-remove_where}
use frixel_connect.Auth.{
  token_key, refresh_key, token_prefix, refresh_prefix, active_tenant_key, save_token, get_token,
  get_token_for_tenant, clear_token, clear_all_tenant_tokens, save_refresh_token, get_refresh_token,
  clear_refresh_token,
}
use frixel_connect.Auth.Keys.{key_laws}

pub ruleset storage_laws =
    (get_item-set_item, get_item-remove_item, get_item-remove_where, key_laws, eq_refl)

-- What a storage holds for a tenant: the pair of its tokens.
abbrev pub tokens_of : String → Storage → Option String × Option String
tokens_of tenant_id s = (get_item (token_key tenant_id) s, get_item (refresh_key tenant_id) s)

pub truthy_of_ne : (t : String) → t ≢ "" → truthy (some t) ≡ some t
truthy_of_ne String.[] h = absurd (h refl)
truthy_of_ne (String.◌∷◌ c s) h = refl

pub get_token_of_active :
    (t : String) (s : Storage)
    → get_item active_tenant_key s ≡ some t
    → t ≢ ""
    → get_token s ≡ get_item (token_key t) s
unfolding get_token
get_token_of_active t s e h = rw (e, get_token) (rw (truthy_of_ne t h, get_token))

pub get_refresh_token_of_active :
    (t : String) (s : Storage)
    → get_item active_tenant_key s ≡ some t
    → t ≢ ""
    → get_refresh_token s ≡ get_item (refresh_key t) s
unfolding get_refresh_token
get_refresh_token_of_active t s e h =
    rw (e, get_refresh_token) (rw (truthy_of_ne t h, get_refresh_token))

pub get_token_of_none : (s : Storage) → get_item active_tenant_key s ≡ none → get_token s ≡ none
unfolding get_token
get_token_of_none s e = rw (e, get_token)

pub get_refresh_token_of_none :
    (s : Storage) → get_item active_tenant_key s ≡ none → get_refresh_token s ≡ none
unfolding get_refresh_token
get_refresh_token_of_none s e = rw (e, get_refresh_token)

-- What a session function reads is fixed by the mark of the active tenant and its own keys.
module _ (s s' : Storage)
    (same : get_item active_tenant_key s' ≡ get_item active_tenant_key s) where
  pub get_token_cong :
      ((t : String) → get_item (token_key t) s' ≡ get_item (token_key t) s)
      → get_token s' ≡ get_token s
  unfolding get_token
  get_token_cong h = elim (Option-cases (truthy (get_item active_tenant_key s))) [
    | inl e ↦ ground (arith, same, e)
    | inr (t, e) ↦ ground (arith, same, e, h t)
  ]

  pub get_refresh_token_cong :
      ((t : String) → get_item (refresh_key t) s' ≡ get_item (refresh_key t) s)
      → get_refresh_token s' ≡ get_refresh_token s
  unfolding get_refresh_token
  get_refresh_token_cong h = elim (Option-cases (truthy (get_item active_tenant_key s))) [
    | inl e ↦ ground (arith, same, e)
    | inr (t, e) ↦ ground (arith, same, e, h t)
  ]

pub clear_refresh_token_of_none :
    (s : Storage) → get_item active_tenant_key s ≡ none → clear_refresh_token s ≡ s
unfolding clear_refresh_token
clear_refresh_token_of_none s e = rw (e, clear_refresh_token)

pub active-clear_all_tenant_tokens :
    (s : Storage) → get_item active_tenant_key (clear_all_tenant_tokens s) ≡ none
unfolding clear_all_tenant_tokens
active-clear_all_tenant_tokens s = simp storage_laws

pub active-clear_token :
    (t : String) (s : Storage)
    → get_item active_tenant_key s ≡ some t
    → t ≢ ""
    → get_item active_tenant_key (clear_token s) ≡ none
unfolding clear_token
active-clear_token t s e h =
    rw (e, clear_token) (rw (truthy_of_ne t h, clear_token) (simp storage_laws))

-- Saving an access token and then a refresh token for a tenant with a non-empty id makes these two
-- the ones that the portal reads. Each tenant's own tokens are then as they were, but for this one.
pub save_tokens_lem :
    (token refresh t u : String) (s : Storage)
    → t ≢ ""
    → let s' = save_refresh_token refresh t (save_token token t s) in
      (get_token s' ≡ some token)
      × (get_refresh_token s' ≡ some refresh)
      × (get_token_for_tenant u s' ≡ (if t === u then some token else get_token_for_tenant u s))
      × (get_item (refresh_key u) s'
          ≡ (if t === u then some refresh else get_item (refresh_key u) s))
unfolding save_token save_refresh_token get_token_for_tenant
save_tokens_lem token refresh t u s h = (
  get_token_of_active t _ (simp storage_laws) h ∙ simp storage_laws,
  get_refresh_token_of_active t _ (simp storage_laws) h ∙ simp storage_laws,
  simp storage_laws,
  simp storage_laws,
)

-- Clearing the session of an active tenant with a non-empty id leaves no session to read, removes
-- the two tokens of this tenant, and keeps those of every other tenant.
pub clear_token_lem :
    (t u : String) (s : Storage)
    → get_item active_tenant_key s ≡ some t
    → t ≢ ""
    → (get_token (clear_token s) ≡ none)
      × (get_refresh_token (clear_token s) ≡ none)
      × (get_token_for_tenant u (clear_token s)
          ≡ (if t === u then none else get_token_for_tenant u s))
      × (get_item (refresh_key u) (clear_token s)
          ≡ (if t === u then none else get_item (refresh_key u) s))
unfolding clear_token get_token_for_tenant
clear_token_lem t u s e h =
    rw (e, clear_token)
      (rw (truthy_of_ne t h, clear_token)
        (
          get_token_of_none _ (simp storage_laws),
          get_refresh_token_of_none _ (simp storage_laws),
          simp storage_laws,
          simp storage_laws,
        ))

-- Clearing all sessions leaves none to read, and removes exactly the keys of access tokens, those
-- of refresh tokens and the mark of the active tenant: every other key keeps its value.
pub clear_all_tenant_tokens_lem :
    (k : String) (s : Storage)
    → (get_token (clear_all_tenant_tokens s) ≡ none)
      × (get_refresh_token (clear_all_tenant_tokens s) ≡ none)
      × (get_item k (clear_all_tenant_tokens s) ≡ (
          if active_tenant_key === k || (starts_with k refresh_prefix || starts_with k token_prefix)
          then none
          else get_item k s))
unfolding clear_all_tenant_tokens
clear_all_tenant_tokens_lem k s = (
  get_token_of_none _ (simp storage_laws),
  get_refresh_token_of_none _ (simp storage_laws),
  simp storage_laws (ground arith),
)

-- So no tenant has a token left.
pub tokens_of-clear_all_tenant_tokens :
    (u : String) (s : Storage) → tokens_of u (clear_all_tenant_tokens s) ≡ (none, none)
unfolding clear_all_tenant_tokens
tokens_of-clear_all_tenant_tokens u s = simp storage_laws
