-- ===== src/Queries.antt =====
-- frontend/src/lib/queryKeys.ts: the keys under which the query client keeps what the server said.
pub mod Keys
use frixel_connect.Base.{ℕ, String, Option, none, some, List, [], ◌∷◌, get_or}

pub data Part : Type 0 where
  text : String → Part
  number : ℕ → Part

-- One constructor for each function of `queryKeys`, with its arguments but the tenant's id.
pub data Query : Type 0 where
  packages_all : Query
  packages_by_id : String → Query
  payments_all : Query
  payments_admin : Query
  payments_reseller : Query
  payments_customer : Query
  payments_by_id : String → Query
  payments_status : String → Query
  payments_portal : String → Query
  vouchers_all : Query
  vouchers_admin : Query
  vouchers_reseller : Query
  vouchers_customer : Query
  vouchers_by_id : String → Query
  users_me : Query
  users_admin_customers : Query
  users_reseller_customers : Query
  users_profile : Query
  routers_all : Query
  routers_by_id : String → Query
  routers_status : String → Query
  routers_onboarding : String → Query
  sessions_admin : Query
  sessions_customer : Query
  subscriptions_mine : Query
  subscriptions_admin : Option String → Query
  wallets_balance : String → Query
  wallets_transactions : String → Query
  invoices_admin : Query
  invoices_mine : Query
  stats_dashboard : Query
  stats_system_health : Query
  stats_stuck_payments : Query
  stats_audit_log : String → ℕ → ℕ → Query
  tenant_me : Query

-- `payments.portal` takes no tenant.
unfoldable pub key_of : Query → String → List Part
key_of packages_all tenant_id = text "packages" ∷ text "all" ∷ text tenant_id ∷ []
key_of (packages_by_id id) tenant_id =
    text "packages" ∷ text "by-id" ∷ text id ∷ text tenant_id ∷ []
key_of payments_all tenant_id = text "payments" ∷ text "all" ∷ text tenant_id ∷ []
key_of payments_admin tenant_id = text "payments" ∷ text "admin" ∷ text tenant_id ∷ []
key_of payments_reseller tenant_id = text "payments" ∷ text "reseller" ∷ text tenant_id ∷ []
key_of payments_customer tenant_id = text "payments" ∷ text "customer" ∷ text tenant_id ∷ []
key_of (payments_by_id id) tenant_id =
    text "payments" ∷ text "by-id" ∷ text id ∷ text tenant_id ∷ []
key_of (payments_status id) tenant_id =
    text "payments" ∷ text "status" ∷ text id ∷ text tenant_id ∷ []
key_of (payments_portal payment_id) tenant_id =
    text "portal" ∷ text "payment-status" ∷ text payment_id ∷ []
key_of vouchers_all tenant_id = text "vouchers" ∷ text "all" ∷ text tenant_id ∷ []
key_of vouchers_admin tenant_id = text "vouchers" ∷ text "admin" ∷ text tenant_id ∷ []
key_of vouchers_reseller tenant_id = text "vouchers" ∷ text "reseller" ∷ text tenant_id ∷ []
key_of vouchers_customer tenant_id = text "vouchers" ∷ text "customer" ∷ text tenant_id ∷ []
key_of (vouchers_by_id id) tenant_id =
    text "vouchers" ∷ text "by-id" ∷ text id ∷ text tenant_id ∷ []
key_of users_me tenant_id = text "users" ∷ text "me" ∷ text tenant_id ∷ []
key_of users_admin_customers tenant_id = text "users" ∷ text "admin-customers" ∷ text tenant_id ∷ []
key_of users_reseller_customers tenant_id =
    text "users" ∷ text "reseller-customers" ∷ text tenant_id ∷ []
key_of users_profile tenant_id = text "users" ∷ text "profile" ∷ text tenant_id ∷ []
key_of routers_all tenant_id = text "routers" ∷ text "all" ∷ text tenant_id ∷ []
key_of (routers_by_id id) tenant_id = text "routers" ∷ text "by-id" ∷ text id ∷ text tenant_id ∷ []
key_of (routers_status id) tenant_id =
    text "routers" ∷ text "status" ∷ text id ∷ text tenant_id ∷ []
key_of (routers_onboarding router_id) tenant_id =
    text "routers" ∷ text "onboarding" ∷ text router_id ∷ text tenant_id ∷ []
key_of sessions_admin tenant_id = text "sessions" ∷ text "admin" ∷ text tenant_id ∷ []
key_of sessions_customer tenant_id = text "sessions" ∷ text "customer" ∷ text tenant_id ∷ []
key_of subscriptions_mine tenant_id = text "subscriptions" ∷ text "mine" ∷ text tenant_id ∷ []
key_of (subscriptions_admin status) tenant_id =
    text "subscriptions" ∷ text "admin" ∷ text tenant_id ∷ text (get_or status "all") ∷ []
key_of (wallets_balance reseller_id) tenant_id =
    text "wallet" ∷ text "balance" ∷ text reseller_id ∷ text tenant_id ∷ []
key_of (wallets_transactions reseller_id) tenant_id =
    text "wallet" ∷ text "transactions" ∷ text reseller_id ∷ text tenant_id ∷ []
key_of invoices_admin tenant_id = text "invoices" ∷ text "admin" ∷ text tenant_id ∷ []
key_of invoices_mine tenant_id = text "invoices" ∷ text "mine" ∷ text tenant_id ∷ []
key_of stats_dashboard tenant_id = text "stats" ∷ text "dashboard" ∷ text tenant_id ∷ []
key_of stats_system_health tenant_id = text "stats" ∷ text "system-health" ∷ text tenant_id ∷ []
key_of stats_stuck_payments tenant_id = text "stats" ∷ text "stuck-payments" ∷ text tenant_id ∷ []
key_of (stats_audit_log action limit offset) tenant_id =
    text "stats"
    ∷ text "audit-log"
    ∷ text tenant_id
    ∷ text action
    ∷ number limit
    ∷ number offset
    ∷ []
key_of tenant_me tenant_id = text "tenant" ∷ text "me" ∷ text tenant_id ∷ []
