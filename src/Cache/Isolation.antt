-- ===== src/Cache/Isolation.antt =====
-- What a tenant changes leaves the answers of other tenants as they are.
use frixel_connect.Base.{
  ◌≡◌, refl, sym, ap, ◌∙◌, ◌⊎◌, inl, inr, Bool, true, false, String, Option, none, some, List, [],
  ◌∷◌, ◌++◌, ◌===◌, ◌||◌, if◌then◌else◌, is_empty, arith, All, Bool-cases,
}
use frixel_connect.Portal.{AuthUser}
use frixel_connect.Queries.{Part, text, number, Query, key_of}
use frixel_connect.Queries.Keys.{scope_of}
use frixel_connect.Cache.{tenant_id_of, user_id_of, if_tenant}
use frixel_connect.Cache.Client.{QueryClient, MatchesPrefixes, invalidate_all, invalidate_all-only}
use frixel_connect.Cache.Collections.{
  Write, mutation, create_reseller_customer, update_customer_profile, admin_create_user,
  admin_update_user, admin_delete_user, create_package, update_package, deactivate_package,
  revoke_voucher, retry_voucher, generate_wallet_voucher, toggle_auto_renew, suspend_subscription,
  reactivate_subscription, create_router, update_router, delete_router, init_magic,
  retry_provisioning, tenant_pay_now, initiate_stk_push, provision_router, delete_account,
}
use frixel_connect.Cache.Writes.{
  use_create_reseller_customer, use_update_customer_profile, use_admin_create_user,
  use_admin_update_user, use_admin_delete_user, use_create_package, use_update_package,
  use_deactivate_package, use_revoke_voucher, use_retry_voucher, use_generate_wallet_voucher,
  use_toggle_auto_renew, use_suspend_subscription, use_reactivate_subscription, use_create_router,
  use_update_router, use_delete_router, use_init_magic, use_retry_provisioning, use_tenant_pay_now,
  use_initiate_stk_push, post_provision, delete_me,
}

-- Whether the third part of a key that begins like this is an identifier, and the tenant is the fourth.
abbrev has_id : String → String → Bool
has_id a b =
    a === "wallet" || (b === "by-id" || (b === "status" || (b === "onboarding" || a === "portal")))

abbrev text_of : Part → Option String
text_of (text s) = some s
text_of (number n) = none

-- The tenant in a key, as far as the key has one.
abbrev pub tenant_in : List Part → Option String
tenant_in (text a ∷ text b ∷ c ∷ []) = if has_id a b then none else text_of c
tenant_in (text a ∷ text b ∷ c ∷ d ∷ rest) = if has_id a b then text_of d else text_of c
tenant_in _ = none

pub tenant_in-key_of : (q : Query) (s : String) → tenant_in (key_of q s) ≡ scope_of q s
unfolding key_of scope_of
tenant_in-key_of q s = ground arith

-- A key with the tenant as its third part, and a key with an identifier in front of the tenant.
tenant_third :
    (a b t : String) (rest : List Part)
    → has_id a b ≡ false
    → tenant_in ((text a ∷ text b ∷ text t ∷ []) ++ rest) ≡ some t
tenant_third a b t [] h = rw h refl
tenant_third a b t (d ∷ rest) h = rw h refl

-- What a query whose key begins with the key of a tenant is for.
of_tenant :
    (a b t : String) (q : Query) (s : String) (rest : List Part)
    → has_id a b ≡ false
    → (text a ∷ text b ∷ text t ∷ []) ++ rest ≡ key_of q s
    → scope_of q s ≡ some t
of_tenant a b t q s rest h e =
    sym (tenant_in-key_of q s) ∙ sym (ap tenant_in e) ∙ tenant_third a b t rest h

of_wallet :
    (b id t : String) (q : Query) (s : String) (rest : List Part)
    → (text "wallet" ∷ text b ∷ text id ∷ text t ∷ []) ++ rest ≡ key_of q s
    → scope_of q s ≡ some t
of_wallet b id t q s rest e = sym (tenant_in-key_of q s) ∙ sym (ap tenant_in e)

module _ (user : Option AuthUser) (q : Query) (s : String) where
  -- The query is one of the user's tenant, which is there.
  abbrev OfTenant : Type 0
  OfTenant = (scope_of q s ≡ some (tenant_id_of user)) × (is_empty (tenant_id_of user) ≡ false)

  -- What a key of a list says of the query when the query's key begins with it.
  abbrev Says : List Part → Type 0
  Says key = (rest : List Part) → key ++ rest ≡ key_of q s → OfTenant

  if_tenant-Says :
      (keys : List (List Part))
      → ((is_empty (tenant_id_of user) ≡ false) → All Says keys)
      → All Says (if_tenant (tenant_id_of user) keys)
  unfolding if_tenant
  if_tenant-Says keys h = elim (Bool-cases (is_empty (tenant_id_of user))) [
    | inl e ↦ rw (e, if_tenant) tt
    | inr e ↦ rw (e, if_tenant) (h e)
  ]

  says :
      (a b : String)
      → has_id a b ≡ false
      → is_empty (tenant_id_of user) ≡ false
      → Says (text a ∷ text b ∷ text (tenant_id_of user) ∷ [])
  says a b h t rest e = (of_tenant a b (tenant_id_of user) q s rest h e, t)

  balance-Says :
      is_empty (tenant_id_of user) ≡ false
      → Says
          (text "wallet" ∷ text "balance" ∷ text (user_id_of user) ∷ text (tenant_id_of user) ∷ [])
  balance-Says t rest e = (of_wallet "balance" (user_id_of user) (tenant_id_of user) q s rest e, t)

  mutation-Says {ℓ} : {D : Type ℓ} (w : Write D) → All Says (mutation w user).on_success
  unfolding mutation key_of use_create_reseller_customer use_update_customer_profile
      use_admin_create_user use_admin_update_user use_admin_delete_user use_create_package
      use_update_package use_deactivate_package use_revoke_voucher use_retry_voucher
      use_generate_wallet_voucher use_toggle_auto_renew use_suspend_subscription
      use_reactivate_subscription use_create_router use_update_router use_delete_router
      use_init_magic use_retry_provisioning use_tenant_pay_now use_initiate_stk_push post_provision
      delete_me
  mutation-Says (create_reseller_customer body) =
      if_tenant-Says _ (λ t. (says "users" "reseller-customers" refl t, tt))
  mutation-Says (update_customer_profile body) =
      if_tenant-Says _ (λ t. (says "users" "profile" refl t, tt))
  mutation-Says (admin_create_user body) =
      if_tenant-Says _ (λ t. (says "users" "admin-customers" refl t, tt))
  mutation-Says (admin_update_user id body) =
      if_tenant-Says _ (λ t. (says "users" "admin-customers" refl t, tt))
  mutation-Says (admin_delete_user id) =
      if_tenant-Says _ (λ t. (says "users" "admin-customers" refl t, tt))
  mutation-Says (create_package body) = if_tenant-Says _ (λ t. (says "packages" "all" refl t, tt))
  mutation-Says (update_package id body) =
      if_tenant-Says _ (λ t. (says "packages" "all" refl t, tt))
  mutation-Says (deactivate_package id) = if_tenant-Says _ (λ t. (says "packages" "all" refl t, tt))
  mutation-Says (revoke_voucher id) = if_tenant-Says _ (λ t. (
    says "vouchers" "admin" refl t,
    (says "vouchers" "reseller" refl t, (says "vouchers" "customer" refl t, tt)),
  ))
  mutation-Says (retry_voucher id) = if_tenant-Says _ (λ t. (
    says "vouchers" "admin" refl t,
    (says "vouchers" "reseller" refl t, (says "vouchers" "customer" refl t, tt)),
  ))
  mutation-Says (generate_wallet_voucher body) =
      if_tenant-Says _ (λ t. (balance-Says t, (says "vouchers" "reseller" refl t, tt)))
  mutation-Says (toggle_auto_renew body) =
      if_tenant-Says _ (λ t. (says "subscriptions" "mine" refl t, tt))
  mutation-Says (suspend_subscription id) =
      if_tenant-Says _
        (λ t. (says "subscriptions" "admin" refl t, (says "subscriptions" "mine" refl t, tt)))
  mutation-Says (reactivate_subscription id) =
      if_tenant-Says _
        (λ t. (says "subscriptions" "admin" refl t, (says "subscriptions" "mine" refl t, tt)))
  mutation-Says (create_router body) = if_tenant-Says _ (λ t. (says "routers" "all" refl t, tt))
  mutation-Says (update_router id body) = if_tenant-Says _ (λ t. (says "routers" "all" refl t, tt))
  mutation-Says (delete_router id) = if_tenant-Says _ (λ t. (says "routers" "all" refl t, tt))
  mutation-Says (init_magic body) = if_tenant-Says _ (λ t. (says "routers" "all" refl t, tt))
  mutation-Says (retry_provisioning id) =
      if_tenant-Says _
        (λ t. (says "stats" "stuck-payments" refl t, (says "stats" "system-health" refl t, tt)))
  mutation-Says tenant_pay_now = tt
  mutation-Says (initiate_stk_push body) = tt
  mutation-Says (provision_router id body) = tt
  mutation-Says delete_account = tt

-- A mutation of a tenant's user makes no query stale but that tenant's: what another tenant asked for stays as
-- it is, whatever the query, and so does all when the user has no tenant.
pub mutation-own_tenant {ℓ κ} :
    {D : Type ℓ} {C : Type κ} (client : QueryClient Part C) (law : MatchesPrefixes client)
    (w : Write D) (user : Option AuthUser) (q : Query) (s : String) (c : C)
    → client.is_stale (key_of q s) (invalidate_all client (mutation w user).on_success c) ≡ true
    → (client.is_stale (key_of q s) c ≡ true)
      ⊎ ((scope_of q s ≡ some (tenant_id_of user)) × (is_empty (tenant_id_of user) ≡ false))
mutation-own_tenant client law w user q s c h =
    invalidate_all-only client law (OfTenant user q s) (mutation w user).on_success (key_of q s) c
      (mutation-Says user q s w) h
