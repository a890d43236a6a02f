-- ===== src/SuperAdmin/Isolation.antt =====
-- The two portals share one local storage: neither touches the other's tokens.
use frixel_connect.Base.{
  ℕ, ◌≡◌, refl, ap, false, String, Option, arith, ◌===◌, strip_prefix, Option-cases, inl, inr,
  truthy,
}
use frixel_connect.Storage.{Storage, get_item}
use frixel_connect.Storage.Laws.{get_item-set_item, get_item-remove_item, get_item-remove_where}
use frixel_connect.Auth.{
  token_key, refresh_key, token_prefix, refresh_prefix, active_tenant_key, save_token, get_token,
  get_token_for_tenant, get_refresh_token, clear_token, clear_all_tenant_tokens, save_refresh_token,
  clear_refresh_token,
}
use frixel_connect.Auth.Sessions.{get_token_cong, get_refresh_token_cong}
use frixel_connect.Auth.Keys.{===-ne}
use frixel_connect.SuperAdmin.{
  super_admin_token_key, get_super_admin_token, save_super_admin_token, on_super_admin_error,
}

token_key-super : (t : String) → (token_key t === super_admin_token_key) ≡ false
unfolding token_key
token_key-super t = ===-ne _ _ (λ e. cc (ap (strip_prefix token_prefix) e))

super-token_key : (t : String) → (super_admin_token_key === token_key t) ≡ false
unfolding token_key
super-token_key t = ===-ne _ _ (λ e. cc (ap (strip_prefix token_prefix) e))

refresh_key-super : (t : String) → (refresh_key t === super_admin_token_key) ≡ false
unfolding refresh_key
refresh_key-super t = ===-ne _ _ (λ e. cc (ap (strip_prefix refresh_prefix) e))

super-refresh_key : (t : String) → (super_admin_token_key === refresh_key t) ≡ false
unfolding refresh_key
super-refresh_key t = ===-ne _ _ (λ e. cc (ap (strip_prefix refresh_prefix) e))

ruleset apart = (
  get_item-set_item, get_item-remove_item, get_item-remove_where, token_key-super, super-token_key,
  refresh_key-super, super-refresh_key,
)

super-clear_token : (s : Storage) → get_super_admin_token (clear_token s) ≡ get_super_admin_token s
unfolding get_super_admin_token clear_token
super-clear_token s = elim (Option-cases (truthy (get_item active_tenant_key s))) [
  | inl e ↦ rw (e, clear_token) (simp apart)
  | inr (t, e) ↦ rw (e, clear_token) (simp apart)
]

super-clear_refresh_token :
    (s : Storage) → get_super_admin_token (clear_refresh_token s) ≡ get_super_admin_token s
unfolding get_super_admin_token clear_refresh_token
super-clear_refresh_token s = elim (Option-cases (truthy (get_item active_tenant_key s))) [
  | inl e ↦ rw (e, clear_refresh_token)
  | inr (t, e) ↦ rw (e, clear_refresh_token) (simp apart)
]

-- Any change that keeps every key but the super admin's keeps what the tenant portal reads.
module _ (s s' : Storage)
    (keeps : (k : String)
      → (super_admin_token_key === k) ≡ false
      → get_item k s' ≡ get_item k s) where
  reads_same : (get_token s' ≡ get_token s) × (get_refresh_token s' ≡ get_refresh_token s)
  reads_same = (
    get_token_cong s s' (keeps _ refl) (λ t. keeps _ (super-token_key t)),
    get_refresh_token_cong s s' (keeps _ refl) (λ t. keeps _ (super-refresh_key t)),
  )

save-keeps :
    (token k : String) (s : Storage)
    → (super_admin_token_key === k) ≡ false
    → get_item k (save_super_admin_token token s) ≡ get_item k s
unfolding save_super_admin_token
save-keeps token k s e = simp (get_item-set_item, e)

error-keeps :
    (status : Option ℕ) (pathname k : String) (s : Storage)
    → (super_admin_token_key === k) ≡ false
    → get_item k (on_super_admin_error status pathname s).0 ≡ get_item k s
unfolding on_super_admin_error
error-keeps status pathname k s e = ground (arith, get_item-remove_item super_admin_token_key k s)

-- Nothing that the tenant portal does to its sessions changes the super admin's token.
pub tenant_keeps_super :
    (token t : String) (s : Storage)
    → (get_super_admin_token (save_token token t s) ≡ get_super_admin_token s)
      × (get_super_admin_token (save_refresh_token token t s) ≡ get_super_admin_token s)
      × (get_super_admin_token (clear_token s) ≡ get_super_admin_token s)
      × (get_super_admin_token (clear_refresh_token s) ≡ get_super_admin_token s)
      × (get_super_admin_token (clear_all_tenant_tokens s) ≡ get_super_admin_token s)
unfolding get_super_admin_token save_token save_refresh_token clear_all_tenant_tokens
tenant_keeps_super token t s =
    (simp apart, simp apart, super-clear_token s, super-clear_refresh_token s, simp apart)

-- Nothing that the super admin's portal does to its token, a failed request included, changes
-- what the tenant portal reads.
pub super_keeps_tenant :
    (token t pathname : String) (status : Option ℕ) (s : Storage)
    → (get_token (save_super_admin_token token s) ≡ get_token s)
      × (get_refresh_token (save_super_admin_token token s) ≡ get_refresh_token s)
      × (get_token (on_super_admin_error status pathname s).0 ≡ get_token s)
      × (get_refresh_token (on_super_admin_error status pathname s).0 ≡ get_refresh_token s)
      × (get_token_for_tenant t (on_super_admin_error status pathname s).0
          ≡ get_token_for_tenant t s)
unfolding get_token_for_tenant
super_keeps_tenant token t pathname status s =
    let saved = reads_same s _ (λ k. save-keeps token k s) in
    let failed = reads_same s _ (λ k. error-keeps status pathname k s) in
    (saved.0, saved.1, failed.0, failed.1, error-keeps status pathname _ s (super-token_key t))
