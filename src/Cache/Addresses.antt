-- ===== src/Cache/Addresses.antt =====
-- Under which addresses a change stands, and which queries it names.
use frixel_connect.Base.{
  ℕ, zero, suc, ◌≡◌, refl, Bool, true, not, String, Option, none, some, List, [], ◌∷◌, ◌||◌, ◌==◌,
  starts_with, arith, all, any,
}
use frixel_connect.Portal.{AuthUser}
use frixel_connect.Cache.Collections.{
  Collection, Write, Filter, query_options, mutation, admin_customers, reseller_customers,
  customer_profile, packages, admin_vouchers, reseller_vouchers, customer_vouchers, routers,
  admin_sessions, customer_sessions, admin_payments, reseller_payments, customer_payments,
  admin_invoices, my_invoices, my_subscription, system_health, stuck_payments, wallet_balance,
  wallet_transactions, admin_subscriptions, audit_log, tenant_me, create_reseller_customer,
  update_customer_profile, admin_create_user, admin_update_user, admin_delete_user, create_package,
  update_package, deactivate_package, revoke_voucher, retry_voucher, generate_wallet_voucher,
  toggle_auto_renew, suspend_subscription, reactivate_subscription, create_router, update_router,
  delete_router, init_magic, retry_provisioning, tenant_pay_now, initiate_stk_push,
  provision_router, delete_account,
}
use frixel_connect.Cache.Reads.{
  use_admin_customers, use_reseller_customers, use_customer_profile, use_packages,
  use_admin_vouchers, use_reseller_vouchers, use_customer_vouchers, use_routers, use_admin_sessions,
  use_customer_sessions, use_admin_payments, use_reseller_payments, use_customer_payments,
  use_admin_invoices, use_my_invoices, use_my_subscription, use_system_health, use_stuck_payments,
  use_wallet_balance, use_wallet_transactions, use_admin_subscriptions, use_audit_log,
  use_tenant_me,
}
use frixel_connect.Cache.Writes.{
  use_create_reseller_customer, use_update_customer_profile, use_admin_create_user,
  use_admin_update_user, use_admin_delete_user, use_create_package, use_update_package,
  use_deactivate_package, use_revoke_voucher, use_retry_voucher, use_generate_wallet_voucher,
  use_toggle_auto_renew, use_suspend_subscription, use_reactivate_subscription, use_create_router,
  use_update_router, use_delete_router, use_init_magic, use_retry_provisioning, use_tenant_pay_now,
  use_initiate_stk_push, post_provision, delete_me,
}

abbrev pub collections : List Collection
collections =
    admin_customers ∷ reseller_customers ∷ customer_profile ∷ packages ∷ admin_vouchers
    ∷ reseller_vouchers ∷ customer_vouchers ∷ routers ∷ admin_sessions ∷ customer_sessions
    ∷ admin_payments ∷ reseller_payments ∷ customer_payments ∷ admin_invoices ∷ my_invoices
    ∷ my_subscription ∷ system_health ∷ stuck_payments ∷ wallet_balance ∷ wallet_transactions
    ∷ admin_subscriptions ∷ audit_log ∷ tenant_me ∷ []

abbrev pub tag : Collection → ℕ
tag admin_customers = 0
tag reseller_customers = 1
tag customer_profile = 2
tag packages = 3
tag admin_vouchers = 4
tag reseller_vouchers = 5
tag customer_vouchers = 6
tag routers = 7
tag admin_sessions = 8
tag customer_sessions = 9
tag admin_payments = 10
tag reseller_payments = 11
tag customer_payments = 12
tag admin_invoices = 13
tag my_invoices = 14
tag my_subscription = 15
tag system_health = 16
tag stuck_payments = 17
tag wallet_balance = 18
tag wallet_transactions = 19
tag admin_subscriptions = 20
tag audit_log = 21
tag tenant_me = 22

abbrev pub nth {ℓ} : {A : Type ℓ} → ℕ → List A → Option A
nth n [] = none
nth zero (x ∷ xs) = some x
nth (suc n) (x ∷ xs) = nth n xs

pub nth-tag : (r : Collection) → nth (tag r) collections ≡ some r
nth-tag r = ground arith

abbrev pub same : Collection → Collection → Bool
same r x = tag r == tag x

-- The queries that a change makes stale.
abbrev pub refreshed {ℓ} : {D : Type ℓ} → Write D → List Collection
refreshed (create_reseller_customer body) = reseller_customers ∷ []
refreshed (update_customer_profile body) = customer_profile ∷ []
refreshed (admin_create_user body) = admin_customers ∷ []
refreshed (admin_update_user id body) = admin_customers ∷ []
refreshed (admin_delete_user id) = admin_customers ∷ []
refreshed (create_package body) = packages ∷ []
refreshed (update_package id body) = packages ∷ []
refreshed (deactivate_package id) = packages ∷ []
refreshed (revoke_voucher id) = admin_vouchers ∷ reseller_vouchers ∷ customer_vouchers ∷ []
refreshed (retry_voucher id) = admin_vouchers ∷ reseller_vouchers ∷ customer_vouchers ∷ []
refreshed (generate_wallet_voucher body) = wallet_balance ∷ reseller_vouchers ∷ []
refreshed (toggle_auto_renew body) = my_subscription ∷ []
refreshed (suspend_subscription id) = admin_subscriptions ∷ my_subscription ∷ []
refreshed (reactivate_subscription id) = admin_subscriptions ∷ my_subscription ∷ []
refreshed (create_router body) = routers ∷ []
refreshed (update_router id body) = routers ∷ []
refreshed (delete_router id) = routers ∷ []
refreshed (init_magic body) = routers ∷ []
refreshed (retry_provisioning id) = stuck_payments ∷ system_health ∷ []
refreshed tenant_pay_now = []
refreshed (initiate_stk_push body) = []
refreshed (provision_router id body) = []
refreshed delete_account = []

-- The queries under whose address a change stands and that it leaves as they are.
abbrev pub missed {ℓ} : {D : Type ℓ} → Write D → List Collection
missed (generate_wallet_voucher body) = admin_vouchers ∷ []
missed (retry_provisioning id) = admin_payments ∷ []
missed tenant_pay_now = tenant_me ∷ []
missed (provision_router id body) = routers ∷ []
missed delete_account = customer_profile ∷ []
missed _ = []

module _ {ℓ} {D : Type ℓ} (to_lower_case : String → String) (user : Option AuthUser)
    (f : Filter) where
  abbrev pub is_under : Write D → Collection → Bool
  is_under w r = starts_with (mutation w user).url (query_options to_lower_case r f user).url

  abbrev pub is_told : Write D → Collection → Bool
  is_told w r = any (same r) (refreshed w) || (not (is_under w r) || any (same r) (missed w))

  pub told : (w : Write D) → all (is_told w) collections ≡ true
  unfolding query_options mutation use_admin_customers use_reseller_customers use_customer_profile
      use_packages use_admin_vouchers use_reseller_vouchers use_customer_vouchers use_routers
      use_admin_sessions use_customer_sessions use_admin_payments use_reseller_payments
      use_customer_payments use_admin_invoices use_my_invoices use_my_subscription use_system_health
      use_stuck_payments use_wallet_balance use_wallet_transactions use_admin_subscriptions
      use_audit_log use_tenant_me use_create_reseller_customer use_update_customer_profile
      use_admin_create_user use_admin_update_user use_admin_delete_user use_create_package
      use_update_package use_deactivate_package use_revoke_voucher use_retry_voucher
      use_generate_wallet_voucher use_toggle_auto_renew use_suspend_subscription
      use_reactivate_subscription use_create_router use_update_router use_delete_router
      use_init_magic use_retry_provisioning use_tenant_pay_now use_initiate_stk_push post_provision
      delete_me
  told (create_reseller_customer body) = refl
  told (update_customer_profile body) = refl
  told (admin_create_user body) = refl
  told (admin_update_user id body) = refl
  told (admin_delete_user id) = refl
  told (create_package body) = refl
  told (update_package id body) = refl
  told (deactivate_package id) = refl
  told (revoke_voucher id) = refl
  told (retry_voucher id) = refl
  told (generate_wallet_voucher body) = refl
  told (toggle_auto_renew body) = refl
  told (suspend_subscription id) = refl
  told (reactivate_subscription id) = refl
  told (create_router body) = refl
  told (update_router id body) = refl
  told (delete_router id) = refl
  told (init_magic body) = refl
  told (retry_provisioning id) = refl
  told tenant_pay_now = refl
  told (initiate_stk_push body) = refl
  told (provision_router id body) = refl
  told delete_account = refl
