-- ===== src/Auth/Keys.antt =====
-- The storage keys of auth.ts never meet: those of two tenants, those of access and refresh tokens,
-- and the key of the active tenant.
use frixel_connect.Base.{
  ◌≡◌, refl, ap, ◌≢◌, true, false, String, arith, ◌===◌, eq_iff, strip_prefix, starts_with,
}
use frixel_connect.Auth.{token_key, refresh_key, token_prefix, refresh_prefix, active_tenant_key}

pub ===-ne : (s t : String) → s ≢ t → (s === t) ≡ false
===-ne s t h = ground (arith, eq_iff s t)

===-of_iff : (s t u v : String) → (s ≡ t → u ≡ v) → (u ≡ v → s ≡ t) → (s === t) ≡ (u === v)
===-of_iff s t u v f g = ground (arith, eq_iff s t, eq_iff u v)

pub token_key-=== : (t u : String) → (token_key t === token_key u) ≡ (t === u)
unfolding token_key
token_key-=== t u =
    ===-of_iff (token_key t) (token_key u) t u (λ e. cc (ap (strip_prefix token_prefix) e))
      (ap token_key)

pub refresh_key-=== : (t u : String) → (refresh_key t === refresh_key u) ≡ (t === u)
unfolding refresh_key
refresh_key-=== t u =
    ===-of_iff (refresh_key t) (refresh_key u) t u (λ e. cc (ap (strip_prefix refresh_prefix) e))
      (ap refresh_key)

pub token_key-refresh_key : (t u : String) → (token_key t === refresh_key u) ≡ false
unfolding token_key refresh_key
token_key-refresh_key t u = ===-ne _ _ (λ e. cc (ap (strip_prefix token_prefix) e))

pub refresh_key-token_key : (t u : String) → (refresh_key t === token_key u) ≡ false
unfolding token_key refresh_key
refresh_key-token_key t u = ===-ne _ _ (λ e. cc (ap (strip_prefix token_prefix) e))

pub token_key-active : (t : String) → (token_key t === active_tenant_key) ≡ false
unfolding token_key
token_key-active t = ===-ne _ _ (λ e. cc (ap (strip_prefix token_prefix) e))

pub active-token_key : (t : String) → (active_tenant_key === token_key t) ≡ false
unfolding token_key
active-token_key t = ===-ne _ _ (λ e. cc (ap (strip_prefix token_prefix) e))

pub refresh_key-active : (t : String) → (refresh_key t === active_tenant_key) ≡ false
unfolding refresh_key
refresh_key-active t = ===-ne _ _ (λ e. cc (ap (strip_prefix refresh_prefix) e))

pub active-refresh_key : (t : String) → (active_tenant_key === refresh_key t) ≡ false
unfolding refresh_key
active-refresh_key t = ===-ne _ _ (λ e. cc (ap (strip_prefix refresh_prefix) e))

pub starts_with-token_key : (t : String) → starts_with (token_key t) token_prefix ≡ true
unfolding token_key
starts_with-token_key t = refl

pub starts_with-refresh_key : (t : String) → starts_with (refresh_key t) refresh_prefix ≡ true
unfolding refresh_key
starts_with-refresh_key t = refl

pub starts_with-token_key_refresh : (t : String) → starts_with (refresh_key t) token_prefix ≡ false
unfolding refresh_key
starts_with-token_key_refresh t = refl

pub starts_with-refresh_key_token : (t : String) → starts_with (token_key t) refresh_prefix ≡ false
unfolding token_key
starts_with-refresh_key_token t = refl

pub ruleset key_laws = (
  token_key-===, refresh_key-===, token_key-refresh_key, refresh_key-token_key, token_key-active,
  active-token_key, refresh_key-active, active-refresh_key, starts_with-token_key,
  starts_with-refresh_key, starts_with-token_key_refresh, starts_with-refresh_key_token,
)
