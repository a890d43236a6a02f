-- ===== src/Cache/Reads.antt =====
-- The hooks that ask the server, one function for each, with the user of the tenant portal as its
-- argument: useUsers.ts, usePackages.ts, useVouchers.ts, useRouters.ts, useSessions.ts,
-- usePayments.ts, useInvoices.ts, useSubscriptions.ts, useWallet.ts, useSystemHealth.ts, useTenant.ts.
mod Accounts
mod Answers
unfoldable pub use Accounts.*
unfoldable pub use Answers.*
use frixel_connect.Base.{
  ℕ, Bool, false, ◌&&◌, not, String, Option, none, some, List, [], ◌∷◌, get_or, is_empty, is_some,
  truthy, ◌===◌, ◌==◌, if◌then◌else◌,
}
use frixel_connect.Portal.{AuthUser}
use frixel_connect.Queries.{
  Part, text, number, key_of, packages_all, payments_admin, payments_reseller, payments_customer,
  vouchers_admin, vouchers_reseller, vouchers_customer, users_admin_customers,
  users_reseller_customers, users_profile, routers_all, sessions_admin, sessions_customer,
  subscriptions_mine, subscriptions_admin, wallets_balance, wallets_transactions, invoices_admin,
  invoices_mine, stats_system_health, stats_stuck_payments, stats_audit_log, tenant_me,
}
use frixel_connect.Cache.{is_set, QueryOptions, tenant_id_of, user_id_of}

unfoldable pub use_admin_customers : Option AuthUser → QueryOptions Part
unfolding tenant_id_of user_id_of key_of
use_admin_customers user = record {
  query_key = key_of users_admin_customers (tenant_id_of user);
  url = "/admin/users";
  params = [];
  enabled = is_set (tenant_id_of user);
  stale_time = none;
  refetch_interval = none;
}

unfoldable pub use_reseller_customers : Option AuthUser → QueryOptions Part
unfolding tenant_id_of user_id_of key_of
use_reseller_customers user = record {
  query_key = key_of users_reseller_customers (tenant_id_of user);
  url = "/reseller/customers";
  params = [];
  enabled = is_set (tenant_id_of user);
  stale_time = none;
  refetch_interval = none;
}

unfoldable pub use_customer_profile : Option AuthUser → QueryOptions Part
unfolding tenant_id_of user_id_of key_of
use_customer_profile user = record {
  query_key = key_of users_profile (tenant_id_of user);
  url = "/customers/me";
  params = [];
  enabled = is_set (tenant_id_of user);
  stale_time = none;
  refetch_interval = none;
}

unfoldable pub use_packages : Option AuthUser → QueryOptions Part
unfolding tenant_id_of user_id_of key_of
use_packages user = record {
  query_key = key_of packages_all (tenant_id_of user);
  url = "/packages";
  params = [];
  enabled = is_set (tenant_id_of user);
  stale_time = some 300000;
  refetch_interval = none;
}

unfoldable pub use_admin_vouchers : Option AuthUser → QueryOptions Part
unfolding tenant_id_of user_id_of key_of
use_admin_vouchers user = record {
  query_key = key_of vouchers_admin (tenant_id_of user);
  url = "/reseller/vouchers";
  params = [];
  enabled = is_set (tenant_id_of user);
  stale_time = none;
  refetch_interval = none;
}

unfoldable pub use_reseller_vouchers : Option AuthUser → QueryOptions Part
unfolding tenant_id_of user_id_of key_of
use_reseller_vouchers user = record {
  query_key = key_of vouchers_reseller (tenant_id_of user);
  url = "/reseller/vouchers";
  params = [];
  enabled = is_set (tenant_id_of user);
  stale_time = none;
  refetch_interval = none;
}

unfoldable pub use_customer_vouchers : Option AuthUser → QueryOptions Part
unfolding tenant_id_of user_id_of key_of
use_customer_vouchers user = record {
  query_key = key_of vouchers_customer (tenant_id_of user);
  url = "/vouchers/me";
  params = [];
  enabled = is_set (tenant_id_of user);
  stale_time = none;
  refetch_interval = none;
}

unfoldable pub use_routers : Option AuthUser → QueryOptions Part
unfolding tenant_id_of user_id_of key_of
use_routers user = record {
  query_key = key_of routers_all (tenant_id_of user);
  url = "/admin/routers";
  params = [];
  enabled = is_set (tenant_id_of user);
  stale_time = none;
  refetch_interval = none;
}

unfoldable pub use_admin_sessions : Option AuthUser → QueryOptions Part
unfolding tenant_id_of user_id_of key_of
use_admin_sessions user = record {
  query_key = key_of sessions_admin (tenant_id_of user);
  url = "/admin/sessions";
  params = [];
  enabled = is_set (tenant_id_of user);
  stale_time = none;
  refetch_interval = none;
}

unfoldable pub use_customer_sessions : Option AuthUser → QueryOptions Part
unfolding tenant_id_of user_id_of key_of
use_customer_sessions user = record {
  query_key = key_of sessions_customer (tenant_id_of user);
  url = "/sessions/me";
  params = [];
  enabled = is_set (tenant_id_of user);
  stale_time = none;
  refetch_interval = none;
}

unfoldable pub use_admin_payments : Option AuthUser → QueryOptions Part
unfolding tenant_id_of user_id_of key_of
use_admin_payments user = record {
  query_key = key_of payments_admin (tenant_id_of user);
  url = "/admin/payments";
  params = [];
  enabled = is_set (tenant_id_of user);
  stale_time = none;
  refetch_interval = none;
}

unfoldable pub use_reseller_payments : Option AuthUser → QueryOptions Part
unfolding tenant_id_of user_id_of key_of
use_reseller_payments user = record {
  query_key = key_of payments_reseller (tenant_id_of user);
  url = "/reseller/payments";
  params = [];
  enabled = is_set (tenant_id_of user);
  stale_time = none;
  refetch_interval = none;
}

unfoldable pub use_customer_payments : Option AuthUser → QueryOptions Part
unfolding tenant_id_of user_id_of key_of
use_customer_payments user = record {
  query_key = key_of payments_customer (tenant_id_of user);
  url = "/payments/me";
  params = [];
  enabled = is_set (tenant_id_of user);
  stale_time = none;
  refetch_interval = none;
}

unfoldable pub use_admin_invoices : Option AuthUser → QueryOptions Part
unfolding tenant_id_of user_id_of key_of
use_admin_invoices user = record {
  query_key = key_of invoices_admin (tenant_id_of user);
  url = "/admin/invoices";
  params = [];
  enabled = is_set (tenant_id_of user);
  stale_time = none;
  refetch_interval = none;
}

unfoldable pub use_my_invoices : Option AuthUser → QueryOptions Part
unfolding tenant_id_of user_id_of key_of
use_my_invoices user = record {
  query_key = key_of invoices_mine (tenant_id_of user);
  url = "/invoices/me";
  params = [];
  enabled = is_set (tenant_id_of user);
  stale_time = none;
  refetch_interval = none;
}
