-- ===== src/Cache/Freshness.antt =====
-- What a change on the server makes stale.
use frixel_connect.Base.{
  Bool-cases, ℕ, zero, suc, ◌≡◌, sym, ap, ◌∙◌, inl, inr, Bool, true, false, String, Option, some,
  List, [], ◌∷◌, ◌++◌, is_empty, arith, All, all, any, get_or,
}
use frixel_connect.Portal.{AuthUser}
use frixel_connect.Queries.{Part, text, key_of}
use mathlib.Core.Path.{subst}
use frixel_connect.Cache.Addresses.{
  collections, tag, nth, nth-tag, same, refreshed, missed, is_under, is_told, told,
}
use frixel_connect.Cache.{tenant_id_of, user_id_of, if_tenant}
use frixel_connect.Cache.Client.{QueryClient, MatchesPrefixes, invalidate_all, invalidate_all-marks}
use frixel_connect.Cache.Collections.{
  Collection, Write, Filter, query_options, mutation, create_reseller_customer,
  update_customer_profile, admin_create_user, admin_update_user, admin_delete_user, create_package,
  update_package, deactivate_package, revoke_voucher, retry_voucher, generate_wallet_voucher,
  toggle_auto_renew, suspend_subscription, reactivate_subscription, create_router, update_router,
  delete_router, init_magic, retry_provisioning, tenant_pay_now, initiate_stk_push,
  provision_router, delete_account,
}
use frixel_connect.Cache.Reads.{
  use_admin_customers, use_reseller_customers, use_customer_profile, use_packages,
  use_admin_vouchers, use_reseller_vouchers, use_customer_vouchers, use_routers, use_admin_sessions,
  use_customer_sessions, use_admin_payments, use_reseller_payments, use_customer_payments,
  use_admin_invoices, use_my_invoices, use_my_subscription, use_system_health, use_stuck_payments,
  use_wallet_balance, use_wallet_transactions, use_admin_subscriptions, use_audit_log,
  use_tenant_me,
}
use frixel_connect.Cache.Writes.{
  use_create_reseller_customer, use_update_customer_profile, use_admin_create_user,
  use_admin_update_user, use_admin_delete_user, use_create_package, use_update_package,
  use_deactivate_package, use_revoke_voucher, use_retry_voucher, use_generate_wallet_voucher,
  use_toggle_auto_renew, use_suspend_subscription, use_reactivate_subscription, use_create_router,
  use_update_router, use_delete_router, use_init_magic, use_retry_provisioning, use_tenant_pay_now,
  use_initiate_stk_push, post_provision, delete_me,
}

all-nth {ℓ} :
    {A : Type ℓ} (p : A → Bool) (n : ℕ) (xs : List A) (x : A)
    → all p xs ≡ true
    → nth n xs ≡ some x
    → p x ≡ true
all-nth p n [] x h e = cc
all-nth p zero (y ∷ xs) x h e = ground arith
all-nth p (suc n) (y ∷ xs) x h e = ground (arith, all-nth p n xs x)

same-eq : (r x : Collection) → same r x ≡ true → r ≡ x
same-eq r x h =
    let e : tag r ≡ tag x = ground arith in
    ap (λ o. get_or o r) (sym (nth-tag r) ∙ ap (λ n. nth n collections) e ∙ nth-tag x)

All-same {ℓ} :
    (P : Collection → Type ℓ) (r : Collection) (xs : List Collection)
    → All P xs
    → any (same r) xs ≡ true
    → P r
All-same P r [] ps h = cc
All-same P r (x ∷ xs) (p, ps) h = elim (Bool-cases (same r x)) [
  | inl e ↦ subst P (sym (same-eq r x e)) p
  | inr e ↦ All-same P r xs ps (ground (arith, e, h))
]

module _ {κ} {C : Type κ} (client : QueryClient Part C) (law : MatchesPrefixes client)
    (to_lower_case : String → String) (user : Option AuthUser) (f : Filter) (c : C) where
  -- A query is stale after a change.
  abbrev pub IsStale {ℓ} : {D : Type ℓ} → Write D → Collection → Type 0
  IsStale w r =
      client.is_stale (query_options to_lower_case r f user).query_key
        (invalidate_all client (mutation w user).on_success c)
      ≡ true

  -- A key that stands at some place of what a change gives `invalidateQueries`.
  stale_at :
      (pre post : List (List Part)) (key rest : List Part)
      → is_empty (tenant_id_of user) ≡ false
      → client.is_stale
          (key ++ rest)
          (invalidate_all client (if_tenant (tenant_id_of user) (pre ++ key ∷ post)) c)
        ≡ true
  unfolding if_tenant
  stale_at pre post key rest t =
      rw (t, if_tenant) (invalidate_all-marks client law pre post key rest c)

  abbrev k : String → String → List Part
  k a b = text a ∷ text b ∷ text (tenant_id_of user) ∷ []

  refreshed-IsStale {ℓ} :
      {D : Type ℓ} (w : Write D)
      → is_empty (tenant_id_of user) ≡ false
      → All (IsStale w) (refreshed w)
  unfolding query_options mutation key_of use_admin_customers use_reseller_customers
      use_customer_profile use_packages use_admin_vouchers use_reseller_vouchers
      use_customer_vouchers use_routers use_admin_sessions use_customer_sessions use_admin_payments
      use_reseller_payments use_customer_payments use_admin_invoices use_my_invoices
      use_my_subscription use_system_health use_stuck_payments use_wallet_balance
      use_wallet_transactions use_admin_subscriptions use_audit_log use_tenant_me
      use_create_reseller_customer use_update_customer_profile use_admin_create_user
      use_admin_update_user use_admin_delete_user use_create_package use_update_package
      use_deactivate_package use_revoke_voucher use_retry_voucher use_generate_wallet_voucher
      use_toggle_auto_renew use_suspend_subscription use_reactivate_subscription use_create_router
      use_update_router use_delete_router use_init_magic use_retry_provisioning use_tenant_pay_now
      use_initiate_stk_push post_provision delete_me
  refreshed-IsStale (create_reseller_customer body) t =
      (stale_at [] [] (k "users" "reseller-customers") [] t, tt)
  refreshed-IsStale (update_customer_profile body) t =
      (stale_at [] [] (k "users" "profile") [] t, tt)
  refreshed-IsStale (admin_create_user body) t =
      (stale_at [] [] (k "users" "admin-customers") [] t, tt)
  refreshed-IsStale (admin_update_user id body) t =
      (stale_at [] [] (k "users" "admin-customers") [] t, tt)
  refreshed-IsStale (admin_delete_user id) t =
      (stale_at [] [] (k "users" "admin-customers") [] t, tt)
  refreshed-IsStale (create_package body) t = (stale_at [] [] (k "packages" "all") [] t, tt)
  refreshed-IsStale (update_package id body) t = (stale_at [] [] (k "packages" "all") [] t, tt)
  refreshed-IsStale (deactivate_package id) t = (stale_at [] [] (k "packages" "all") [] t, tt)
  refreshed-IsStale (revoke_voucher id) t = (
    stale_at [] ((k "vouchers" "reseller") ∷ (k "vouchers" "customer") ∷ []) (k "vouchers" "admin")
        [] t,
    (
      stale_at ((k "vouchers" "admin") ∷ []) ((k "vouchers" "customer") ∷ [])
          (k "vouchers" "reseller") [] t,
      (
        stale_at ((k "vouchers" "admin") ∷ (k "vouchers" "reseller") ∷ []) []
            (k "vouchers" "customer") [] t,
        tt,
      ),
    ),
  )
  refreshed-IsStale (retry_voucher id) t = (
    stale_at [] ((k "vouchers" "reseller") ∷ (k "vouchers" "customer") ∷ []) (k "vouchers" "admin")
        [] t,
    (
      stale_at ((k "vouchers" "admin") ∷ []) ((k "vouchers" "customer") ∷ [])
          (k "vouchers" "reseller") [] t,
      (
        stale_at ((k "vouchers" "admin") ∷ (k "vouchers" "reseller") ∷ []) []
            (k "vouchers" "customer") [] t,
        tt,
      ),
    ),
  )
  refreshed-IsStale (generate_wallet_voucher body) t = (
    stale_at [] ((k "vouchers" "reseller") ∷ [])
        (text "wallet" ∷ text "balance" ∷ text (user_id_of user) ∷ text (tenant_id_of user) ∷ []) []
        t,
    (
      stale_at
          ((text "wallet" ∷ text "balance" ∷ text (user_id_of user) ∷ text (tenant_id_of user) ∷ [])
            ∷ [])
          [] (k "vouchers" "reseller") [] t,
      tt,
    ),
  )
  refreshed-IsStale (toggle_auto_renew body) t =
      (stale_at [] [] (k "subscriptions" "mine") [] t, tt)
  refreshed-IsStale (suspend_subscription id) t = (
    stale_at [] ((k "subscriptions" "mine") ∷ []) (k "subscriptions" "admin")
        (text (get_or f.status "all") ∷ []) t,
    (stale_at ((k "subscriptions" "admin") ∷ []) [] (k "subscriptions" "mine") [] t, tt),
  )
  refreshed-IsStale (reactivate_subscription id) t = (
    stale_at [] ((k "subscriptions" "mine") ∷ []) (k "subscriptions" "admin")
        (text (get_or f.status "all") ∷ []) t,
    (stale_at ((k "subscriptions" "admin") ∷ []) [] (k "subscriptions" "mine") [] t, tt),
  )
  refreshed-IsStale (create_router body) t = (stale_at [] [] (k "routers" "all") [] t, tt)
  refreshed-IsStale (update_router id body) t = (stale_at [] [] (k "routers" "all") [] t, tt)
  refreshed-IsStale (delete_router id) t = (stale_at [] [] (k "routers" "all") [] t, tt)
  refreshed-IsStale (init_magic body) t = (stale_at [] [] (k "routers" "all") [] t, tt)
  refreshed-IsStale (retry_provisioning id) t = (
    stale_at [] ((k "stats" "system-health") ∷ []) (k "stats" "stuck-payments") [] t,
    (stale_at ((k "stats" "stuck-payments") ∷ []) [] (k "stats" "system-health") [] t, tt),
  )
  refreshed-IsStale tenant_pay_now t = tt
  refreshed-IsStale (initiate_stk_push body) t = tt
  refreshed-IsStale (provision_router id body) t = tt
  refreshed-IsStale delete_account t = tt

  -- After a change of `Write` by a user of a tenant, every query of `Collection` whose address the request stands under is fetched
  -- anew, but for five: the admins' vouchers after a voucher was bought from a wallet, the payments after one was provisioned
  -- again, the tenant after its bill was paid, the routers after one was provisioned, and the profile after the account was deleted.
  pub mutation-query_options {ℓ} :
      {D : Type ℓ} (w : Write D) (r : Collection)
      → is_empty (tenant_id_of user) ≡ false
      → is_under to_lower_case user f w r ≡ true
      → any (same r) (missed w) ≡ false
      → IsStale w r
  mutation-query_options w r t h m =
      let here =
        all-nth (is_told to_lower_case user f w) (tag r) collections r (told to_lower_case user f w)
          (nth-tag r) in
      All-same (IsStale w) r (refreshed w) (refreshed-IsStale w t) (ground (arith, here, h, m))
