-- ===== src/Cache/Writes.antt =====
-- The hooks that change something on the server, one function for each, with the user of the tenant
-- portal and what the mutation is called with as its arguments. `D` holds the bodies, which are sent as they are.
use frixel_connect.Base.{String, Option, none, some, [], ◌∷◌, prepend}
use frixel_connect.Portal.{AuthUser}
use frixel_connect.Queries.{
  Part, text, key_of, packages_all, vouchers_admin, vouchers_reseller, vouchers_customer,
  users_admin_customers, users_reseller_customers, users_profile, routers_all, subscriptions_mine,
  wallets_balance, stats_system_health, stats_stuck_payments,
}
use frixel_connect.Cache.{Mutation, post, put, delete, tenant_id_of, user_id_of, if_tenant}

module _ {ℓ} {D : Type ℓ} where
  unfoldable pub use_create_reseller_customer : D → Option AuthUser → Mutation Part D
  unfolding tenant_id_of user_id_of if_tenant key_of
  use_create_reseller_customer body user = record {
    method = post;
    url = "/reseller/customers";
    body = some body;
    on_success =
        if_tenant (tenant_id_of user) (key_of users_reseller_customers (tenant_id_of user) ∷ []);
  }

  unfoldable pub use_update_customer_profile : D → Option AuthUser → Mutation Part D
  unfolding tenant_id_of user_id_of if_tenant key_of
  use_update_customer_profile body user = record {
    method = put;
    url = "/customers/me";
    body = some body;
    on_success = if_tenant (tenant_id_of user) (key_of users_profile (tenant_id_of user) ∷ []);
  }

  unfoldable pub use_admin_create_user : D → Option AuthUser → Mutation Part D
  unfolding tenant_id_of user_id_of if_tenant key_of
  use_admin_create_user body user = record {
    method = post;
    url = "/admin/users";
    body = some body;
    on_success =
        if_tenant (tenant_id_of user) (key_of users_admin_customers (tenant_id_of user) ∷ []);
  }

  unfoldable pub use_admin_update_user : String → D → Option AuthUser → Mutation Part D
  unfolding tenant_id_of user_id_of if_tenant key_of
  use_admin_update_user id body user = record {
    method = put;
    url = prepend "/admin/users/" id;
    body = some body;
    on_success =
        if_tenant (tenant_id_of user) (key_of users_admin_customers (tenant_id_of user) ∷ []);
  }

  unfoldable pub use_admin_delete_user : String → Option AuthUser → Mutation Part D
  unfolding tenant_id_of user_id_of if_tenant key_of
  use_admin_delete_user id user = record {
    method = delete;
    url = prepend "/admin/users/" id;
    body = none;
    on_success =
        if_tenant (tenant_id_of user) (key_of users_admin_customers (tenant_id_of user) ∷ []);
  }

  unfoldable pub use_create_package : D → Option AuthUser → Mutation Part D
  unfolding tenant_id_of user_id_of if_tenant key_of
  use_create_package body user = record {
    method = post;
    url = "/packages";
    body = some body;
    on_success = if_tenant (tenant_id_of user) (key_of packages_all (tenant_id_of user) ∷ []);
  }

  unfoldable pub use_update_package : String → D → Option AuthUser → Mutation Part D
  unfolding tenant_id_of user_id_of if_tenant key_of
  use_update_package id body user = record {
    method = put;
    url = prepend "/packages/" id;
    body = some body;
    on_success = if_tenant (tenant_id_of user) (key_of packages_all (tenant_id_of user) ∷ []);
  }

  unfoldable pub use_deactivate_package : String → Option AuthUser → Mutation Part D
  unfolding tenant_id_of user_id_of if_tenant key_of
  use_deactivate_package id user = record {
    method = delete;
    url = prepend "/packages/" id;
    body = none;
    on_success = if_tenant (tenant_id_of user) (key_of packages_all (tenant_id_of user) ∷ []);
  }

  unfoldable pub use_revoke_voucher : String → Option AuthUser → Mutation Part D
  unfolding tenant_id_of user_id_of if_tenant key_of
  use_revoke_voucher id user = record {
    method = post;
    url = prepend "/vouchers/" (prepend id "/revoke");
    body = none;
    on_success = if_tenant (tenant_id_of user) (
        key_of vouchers_admin (tenant_id_of user)
        ∷ key_of vouchers_reseller (tenant_id_of user)
        ∷ key_of vouchers_customer (tenant_id_of user)
        ∷ []);
  }

  unfoldable pub use_retry_voucher : String → Option AuthUser → Mutation Part D
  unfolding tenant_id_of user_id_of if_tenant key_of
  use_retry_voucher id user = record {
    method = post;
    url = prepend "/vouchers/" (prepend id "/retry");
    body = none;
    on_success = if_tenant (tenant_id_of user) (
        key_of vouchers_admin (tenant_id_of user)
        ∷ key_of vouchers_reseller (tenant_id_of user)
        ∷ key_of vouchers_customer (tenant_id_of user)
        ∷ []);
  }

  unfoldable pub use_generate_wallet_voucher : D → Option AuthUser → Mutation Part D
  unfolding tenant_id_of user_id_of if_tenant key_of
  use_generate_wallet_voucher body user = record {
    method = post;
    url = "/reseller/vouchers/generate";
    body = some body;
    on_success = if_tenant (tenant_id_of user) (
        key_of (wallets_balance (user_id_of user)) (tenant_id_of user)
        ∷ key_of vouchers_reseller (tenant_id_of user)
        ∷ []);
  }

  unfoldable pub use_toggle_auto_renew : D → Option AuthUser → Mutation Part D
  unfolding tenant_id_of user_id_of if_tenant key_of
  use_toggle_auto_renew body user = record {
    method = put;
    url = "/subscriptions/me";
    body = some body;
    on_success = if_tenant (tenant_id_of user) (key_of subscriptions_mine (tenant_id_of user) ∷ []);
  }

  unfoldable pub use_suspend_subscription : String → Option AuthUser → Mutation Part D
  unfolding tenant_id_of user_id_of if_tenant key_of
  use_suspend_subscription id user = record {
    method = post;
    url = prepend "/admin/subscriptions/" (prepend id "/suspend");
    body = none;
    on_success = if_tenant (tenant_id_of user) (
        (text "subscriptions" ∷ text "admin" ∷ text (tenant_id_of user) ∷ [])
        ∷ key_of subscriptions_mine (tenant_id_of user)
        ∷ []);
  }

  unfoldable pub use_reactivate_subscription : String → Option AuthUser → Mutation Part D
  unfolding tenant_id_of user_id_of if_tenant key_of
  use_reactivate_subscription id user = record {
    method = post;
    url = prepend "/admin/subscriptions/" (prepend id "/reactivate");
    body = none;
    on_success = if_tenant (tenant_id_of user) (
        (text "subscriptions" ∷ text "admin" ∷ text (tenant_id_of user) ∷ [])
        ∷ key_of subscriptions_mine (tenant_id_of user)
        ∷ []);
  }

  unfoldable pub use_create_router : D → Option AuthUser → Mutation Part D
  unfolding tenant_id_of user_id_of if_tenant key_of
  use_create_router body user = record {
    method = post;
    url = "/admin/routers";
    body = some body;
    on_success = if_tenant (tenant_id_of user) (key_of routers_all (tenant_id_of user) ∷ []);
  }

  unfoldable pub use_update_router : String → D → Option AuthUser → Mutation Part D
  unfolding tenant_id_of user_id_of if_tenant key_of
  use_update_router id body user = record {
    method = put;
    url = prepend "/admin/routers/" id;
    body = some body;
    on_success = if_tenant (tenant_id_of user) (key_of routers_all (tenant_id_of user) ∷ []);
  }

  unfoldable pub use_delete_router : String → Option AuthUser → Mutation Part D
  unfolding tenant_id_of user_id_of if_tenant key_of
  use_delete_router id user = record {
    method = delete;
    url = prepend "/admin/routers/" id;
    body = none;
    on_success = if_tenant (tenant_id_of user) (key_of routers_all (tenant_id_of user) ∷ []);
  }

  unfoldable pub use_init_magic : D → Option AuthUser → Mutation Part D
  unfolding tenant_id_of user_id_of if_tenant key_of
  use_init_magic body user = record {
    method = post;
    url = "/admin/routers/onboarding/init-magic";
    body = some body;
    on_success = if_tenant (tenant_id_of user) (key_of routers_all (tenant_id_of user) ∷ []);
  }

  unfoldable pub use_retry_provisioning : String → Option AuthUser → Mutation Part D
  unfolding tenant_id_of user_id_of if_tenant key_of
  use_retry_provisioning id user = record {
    method = post;
    url = prepend "/admin/payments/" (prepend id "/retry-provision");
    body = none;
    on_success = if_tenant (tenant_id_of user) (
        key_of stats_stuck_payments (tenant_id_of user)
        ∷ key_of stats_system_health (tenant_id_of user)
        ∷ []);
  }

  unfoldable pub use_tenant_pay_now : Option AuthUser → Mutation Part D
  use_tenant_pay_now user = record {
    method = post;
    url = "/tenants/me/billing/pay-now";
    body = none;
    on_success = [];
  }

  -- Two requests that the pages make without a hook: `handleProvision` of RouterOnboardingWizard.tsx and
  -- `handleDeleteAccount` of DataPrivacyPage.tsx. They name no query.
  unfoldable pub post_provision : String → D → Mutation Part D
  post_provision router_id body = record {
    method = post;
    url = prepend "/admin/routers/onboarding/provision/" router_id;
    body = some body;
    on_success = [];
  }

  unfoldable pub delete_me : Mutation Part D
  delete_me = record { method = delete; url = "/customers/me"; body = none; on_success = [] }

  unfoldable pub use_initiate_stk_push : D → Option AuthUser → Mutation Part D
  use_initiate_stk_push body user = record {
    method = post;
    url = "/payments/stk";
    body = some body;
    on_success = [];
  }
