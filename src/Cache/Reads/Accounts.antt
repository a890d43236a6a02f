-- ===== src/Cache/Reads/Accounts.antt =====
-- The hooks that ask for subscriptions, the wallet, the health of the system, the audit log and the tenant itself:
-- useSubscriptions.ts, useWallet.ts, useSystemHealth.ts, useTenant.ts.
use frixel_connect.Base.{
  ℕ, ◌&&◌, String, Option, none, some, List, [], ◌∷◌, get_or, is_some, truthy, ◌===◌, if◌then◌else◌,
}
use frixel_connect.Portal.{AuthUser}
use frixel_connect.Queries.{
  Part, text, number, key_of, subscriptions_mine, subscriptions_admin, wallets_balance,
  wallets_transactions, stats_system_health, stats_stuck_payments, stats_audit_log, tenant_me,
}
use frixel_connect.Cache.{is_set, QueryOptions, tenant_id_of, user_id_of}

unfoldable pub use_my_subscription : Option AuthUser → QueryOptions Part
unfolding tenant_id_of user_id_of key_of
use_my_subscription user = record {
  query_key = key_of subscriptions_mine (tenant_id_of user);
  url = "/subscriptions/me";
  params = [];
  enabled = is_set (tenant_id_of user);
  stale_time = none;
  refetch_interval = none;
}

unfoldable pub use_system_health : Option AuthUser → QueryOptions Part
unfolding tenant_id_of user_id_of key_of
use_system_health user = record {
  query_key = key_of stats_system_health (tenant_id_of user);
  url = "/admin/system-health";
  params = [];
  enabled = is_set (tenant_id_of user);
  stale_time = some 30000;
  refetch_interval = some 30000;
}

unfoldable pub use_stuck_payments : Option AuthUser → QueryOptions Part
unfolding tenant_id_of user_id_of key_of
use_stuck_payments user = record {
  query_key = key_of stats_stuck_payments (tenant_id_of user);
  url = "/admin/payments/stuck";
  params = [];
  enabled = is_set (tenant_id_of user);
  stale_time = none;
  refetch_interval = some 60000;
}

unfoldable pub use_wallet_balance : Option AuthUser → QueryOptions Part
unfolding tenant_id_of user_id_of key_of
use_wallet_balance user = record {
  query_key = key_of (wallets_balance (user_id_of user)) (tenant_id_of user);
  url = "/reseller/wallet";
  params = [];
  enabled = is_set (tenant_id_of user) && is_set (user_id_of user);
  stale_time = none;
  refetch_interval = none;
}

unfoldable pub use_wallet_transactions : Option AuthUser → QueryOptions Part
unfolding tenant_id_of user_id_of key_of
use_wallet_transactions user = record {
  query_key = key_of (wallets_transactions (user_id_of user)) (tenant_id_of user);
  url = "/reseller/wallet";
  params = [];
  enabled = is_set (tenant_id_of user) && is_set (user_id_of user);
  stale_time = none;
  refetch_interval = none;
}

-- `status && status !== 'All' ? { status: status.toLowerCase() } : {}`; `toLowerCase` is the language's.
unfoldable pub status_params : (String → String) → Option String → List (String × Part)
status_params to_lower_case status = elim (truthy status) [
  | none ↦ []
  | some s ↦ if s === "All" then [] else ("status", text (to_lower_case s)) ∷ []
]

unfoldable pub use_admin_subscriptions :
    (String → String) → Option String → Option AuthUser → QueryOptions Part
unfolding tenant_id_of user_id_of key_of
use_admin_subscriptions to_lower_case status user = record {
  query_key = key_of (subscriptions_admin status) (tenant_id_of user);
  url = "/admin/subscriptions";
  params = status_params to_lower_case status;
  enabled = is_set (tenant_id_of user);
  stale_time = none;
  refetch_interval = none;
}

-- `if (action && action !== 'All') params.action = action`.
unfoldable pub action_params : Option String → List (String × Part)
action_params action = elim (truthy action) [
  | none ↦ []
  | some a ↦ if a === "All" then [] else ("action", text a) ∷ []
]

unfoldable pub use_audit_log : Option String → ℕ → ℕ → Option AuthUser → QueryOptions Part
unfolding tenant_id_of user_id_of key_of
use_audit_log action limit offset user = record {
  query_key = key_of (stats_audit_log (get_or action "All") limit offset) (tenant_id_of user);
  url = "/admin/audit-log";
  params = ("limit", number limit) ∷ ("offset", number offset) ∷ action_params action;
  enabled = is_set (tenant_id_of user);
  stale_time = none;
  refetch_interval = none;
}

unfoldable pub use_tenant_me : Option AuthUser → QueryOptions Part
unfolding tenant_id_of user_id_of key_of
use_tenant_me user = record {
  query_key = key_of tenant_me (tenant_id_of user);
  url = "/tenants/me";
  params = [];
  enabled = is_some user && is_set (tenant_id_of user);
  stale_time = none;
  refetch_interval = none;
}
