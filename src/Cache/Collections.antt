-- ===== src/Cache/Collections.antt =====
-- The hooks as data: what can be asked for, and what can be changed.
use frixel_connect.Base.{ℕ, String, Option}
use frixel_connect.Portal.{AuthUser}
use frixel_connect.Queries.{Part}
use frixel_connect.Cache.{QueryOptions, Mutation}
use frixel_connect.Cache.Reads.{
  use_admin_customers, use_reseller_customers, use_customer_profile, use_packages,
  use_admin_vouchers, use_reseller_vouchers, use_customer_vouchers, use_routers, use_admin_sessions,
  use_customer_sessions, use_admin_payments, use_reseller_payments, use_customer_payments,
  use_admin_invoices, use_my_invoices, use_my_subscription, use_system_health, use_stuck_payments,
  use_wallet_balance, use_wallet_transactions, use_admin_subscriptions, use_audit_log,
  use_tenant_me,
}
use frixel_connect.Cache.Writes.{
  use_create_reseller_customer, use_update_customer_profile, use_admin_create_user,
  use_admin_update_user, use_admin_delete_user, use_create_package, use_update_package,
  use_deactivate_package, use_revoke_voucher, use_retry_voucher, use_generate_wallet_voucher,
  use_toggle_auto_renew, use_suspend_subscription, use_reactivate_subscription, use_create_router,
  use_update_router, use_delete_router, use_init_magic, use_retry_provisioning, use_tenant_pay_now,
  use_initiate_stk_push, post_provision, delete_me,
}

-- One constructor for each hook that asks for what a user of the tenant portal may see. Left out are the hooks that poll
-- one payment or one router, those of the hotspot and of the super admins, and TenantStatusGuard's own query of the tenant.
pub data Collection : Type 0 where
  admin_customers reseller_customers customer_profile packages admin_vouchers reseller_vouchers
        customer_vouchers routers admin_sessions customer_sessions admin_payments reseller_payments
        customer_payments admin_invoices my_invoices my_subscription system_health stuck_payments
        wallet_balance wallet_transactions admin_subscriptions audit_log tenant_me :
      Collection

-- The arguments of the two hooks that have some.
pub record Filter : Type 0 where
  pub status : Option String
  pub action : Option String
  pub limit : ℕ
  pub offset : ℕ

-- One constructor for each hook that changes something for a user of the tenant portal, with the argument of its mutation, and
-- for the two requests that pages make without a hook.
pub data Write {ℓ} (D : Type ℓ) : Type ℓ where
  create_reseller_customer : D → Write D
  update_customer_profile : D → Write D
  admin_create_user : D → Write D
  admin_update_user : String → D → Write D
  admin_delete_user : String → Write D
  create_package : D → Write D
  update_package : String → D → Write D
  deactivate_package : String → Write D
  revoke_voucher : String → Write D
  retry_voucher : String → Write D
  generate_wallet_voucher : D → Write D
  toggle_auto_renew : D → Write D
  suspend_subscription : String → Write D
  reactivate_subscription : String → Write D
  create_router : D → Write D
  update_router : String → D → Write D
  delete_router : String → Write D
  init_magic : D → Write D
  retry_provisioning : String → Write D
  tenant_pay_now : Write D
  initiate_stk_push : D → Write D
  provision_router : String → D → Write D
  delete_account : Write D

module _ (to_lower_case : String → String) where
  unfoldable pub query_options : Collection → Filter → Option AuthUser → QueryOptions Part
  unfolding use_admin_customers use_reseller_customers use_customer_profile use_packages
      use_admin_vouchers use_reseller_vouchers use_customer_vouchers use_routers use_admin_sessions
      use_customer_sessions use_admin_payments use_reseller_payments use_customer_payments
      use_admin_invoices use_my_invoices use_my_subscription use_system_health use_stuck_payments
      use_wallet_balance use_wallet_transactions use_admin_subscriptions use_audit_log use_tenant_me
  query_options admin_customers filter user = use_admin_customers user
  query_options reseller_customers filter user = use_reseller_customers user
  query_options customer_profile filter user = use_customer_profile user
  query_options packages filter user = use_packages user
  query_options admin_vouchers filter user = use_admin_vouchers user
  query_options reseller_vouchers filter user = use_reseller_vouchers user
  query_options customer_vouchers filter user = use_customer_vouchers user
  query_options routers filter user = use_routers user
  query_options admin_sessions filter user = use_admin_sessions user
  query_options customer_sessions filter user = use_customer_sessions user
  query_options admin_payments filter user = use_admin_payments user
  query_options reseller_payments filter user = use_reseller_payments user
  query_options customer_payments filter user = use_customer_payments user
  query_options admin_invoices filter user = use_admin_invoices user
  query_options my_invoices filter user = use_my_invoices user
  query_options my_subscription filter user = use_my_subscription user
  query_options system_health filter user = use_system_health user
  query_options stuck_payments filter user = use_stuck_payments user
  query_options wallet_balance filter user = use_wallet_balance user
  query_options wallet_transactions filter user = use_wallet_transactions user
  query_options admin_subscriptions filter user =
      use_admin_subscriptions to_lower_case filter.status user
  query_options audit_log filter user = use_audit_log filter.action filter.limit filter.offset user
  query_options tenant_me filter user = use_tenant_me user

unfoldable pub mutation {ℓ} : {D : Type ℓ} → Write D → Option AuthUser → Mutation Part D
unfolding use_create_reseller_customer use_update_customer_profile use_admin_create_user
    use_admin_update_user use_admin_delete_user use_create_package use_update_package
    use_deactivate_package use_revoke_voucher use_retry_voucher use_generate_wallet_voucher
    use_toggle_auto_renew use_suspend_subscription use_reactivate_subscription use_create_router
    use_update_router use_delete_router use_init_magic use_retry_provisioning use_tenant_pay_now
    use_initiate_stk_push post_provision delete_me
mutation (create_reseller_customer body) user = use_create_reseller_customer body user
mutation (update_customer_profile body) user = use_update_customer_profile body user
mutation (admin_create_user body) user = use_admin_create_user body user
mutation (admin_update_user id body) user = use_admin_update_user id body user
mutation (admin_delete_user id) user = use_admin_delete_user id user
mutation (create_package body) user = use_create_package body user
mutation (update_package id body) user = use_update_package id body user
mutation (deactivate_package id) user = use_deactivate_package id user
mutation (revoke_voucher id) user = use_revoke_voucher id user
mutation (retry_voucher id) user = use_retry_voucher id user
mutation (generate_wallet_voucher body) user = use_generate_wallet_voucher body user
mutation (toggle_auto_renew body) user = use_toggle_auto_renew body user
mutation (suspend_subscription id) user = use_suspend_subscription id user
mutation (reactivate_subscription id) user = use_reactivate_subscription id user
mutation (create_router body) user = use_create_router body user
mutation (update_router id body) user = use_update_router id body user
mutation (delete_router id) user = use_delete_router id user
mutation (init_magic body) user = use_init_magic body user
mutation (retry_provisioning id) user = use_retry_provisioning id user
mutation tenant_pay_now user = use_tenant_pay_now user
mutation (initiate_stk_push body) user = use_initiate_stk_push body user
mutation (provision_router id body) user = post_provision id body
mutation delete_account user = delete_me
