-- ===== src/Queries/Keys.antt =====
-- No two queries share a key, and no two tenants.
use frixel_connect.Base.{
  ◌≡◌, refl, sym, ap, ◌∙◌, String, Option, none, some, List, [], ◌∷◌, get_or, ◌===◌, ◌&&◌,
  if◌then◌else◌,
}
use frixel_connect.Queries.{
  Part, text, number, Query, key_of, packages_all, packages_by_id, payments_all, payments_admin,
  payments_reseller, payments_customer, payments_by_id, payments_status, payments_portal,
  vouchers_all, vouchers_admin, vouchers_reseller, vouchers_customer, vouchers_by_id, users_me,
  users_admin_customers, users_reseller_customers, users_profile, routers_all, routers_by_id,
  routers_status, routers_onboarding, sessions_admin, sessions_customer, subscriptions_mine,
  subscriptions_admin, wallets_balance, wallets_transactions, invoices_admin, invoices_mine,
  stats_dashboard, stats_system_health, stats_stuck_payments, stats_audit_log, tenant_me,
}

-- The tenant that a query is for.
unfoldable pub scope_of : Query → String → Option String
scope_of (payments_portal payment_id) tenant_id = none
scope_of _ tenant_id = some tenant_id

-- The query with an omitted status written out.
unfoldable pub normal : Query → Query
normal (subscriptions_admin status) = subscriptions_admin (some (get_or status "all"))
normal q = q

abbrev plain_keys : List (String × String × Query)
plain_keys =
    ("packages", "all", packages_all)
    ∷ ("payments", "all", payments_all)
    ∷ ("payments", "admin", payments_admin)
    ∷ ("payments", "reseller", payments_reseller)
    ∷ ("payments", "customer", payments_customer)
    ∷ ("vouchers", "all", vouchers_all)
    ∷ ("vouchers", "admin", vouchers_admin)
    ∷ ("vouchers", "reseller", vouchers_reseller)
    ∷ ("vouchers", "customer", vouchers_customer)
    ∷ ("users", "me", users_me)
    ∷ ("users", "admin-customers", users_admin_customers)
    ∷ ("users", "reseller-customers", users_reseller_customers)
    ∷ ("users", "profile", users_profile)
    ∷ ("routers", "all", routers_all)
    ∷ ("sessions", "admin", sessions_admin)
    ∷ ("sessions", "customer", sessions_customer)
    ∷ ("subscriptions", "mine", subscriptions_mine)
    ∷ ("invoices", "admin", invoices_admin)
    ∷ ("invoices", "mine", invoices_mine)
    ∷ ("stats", "dashboard", stats_dashboard)
    ∷ ("stats", "system-health", stats_system_health)
    ∷ ("stats", "stuck-payments", stats_stuck_payments)
    ∷ ("tenant", "me", tenant_me)
    ∷ []

abbrev id_keys : List (String × String × (String → Query))
id_keys =
    ("packages", "by-id", packages_by_id)
    ∷ ("payments", "by-id", payments_by_id)
    ∷ ("payments", "status", payments_status)
    ∷ ("vouchers", "by-id", vouchers_by_id)
    ∷ ("routers", "by-id", routers_by_id)
    ∷ ("routers", "status", routers_status)
    ∷ ("routers", "onboarding", routers_onboarding)
    ∷ ("wallet", "balance", wallets_balance)
    ∷ ("wallet", "transactions", wallets_transactions)
    ∷ []

abbrev row_of {ℓ} : {A : Type ℓ} → String → String → List (String × String × A) → Option A
row_of a b [] = none
row_of a b ((c, d, x) ∷ rows) = if c === a && d === b then some x else row_of a b rows

abbrev plain_query : Option Query → String → Option (Query × Option String)
plain_query none tenant_id = none
plain_query (some q) tenant_id = some (q, some tenant_id)

abbrev id_query : Option (String → Query) → String → String → Option (Query × Option String)
id_query none id tenant_id = none
id_query (some q) id tenant_id = some (q id, some tenant_id)

-- Reading a key back.
abbrev read_key : List Part → Option (Query × Option String)
read_key (text a ∷ text b ∷ text c ∷ []) =
    if a === "portal" then some (payments_portal c, none) else plain_query (row_of a b plain_keys) c
read_key (text a ∷ text b ∷ text c ∷ text d ∷ []) =
    if a === "subscriptions"
    then some (subscriptions_admin (some d), some c)
    else id_query (row_of a b id_keys) c d
read_key (text a ∷ text b ∷ text c ∷ text d ∷ number n ∷ number m ∷ []) =
    some (stats_audit_log d n m, some c)
read_key _ = none

read_key-key_of :
    (q : Query) (tenant_id : String)
    → read_key (key_of q tenant_id) ≡ some (normal q, scope_of q tenant_id)
unfolding key_of normal scope_of
read_key-key_of packages_all tenant_id = refl
read_key-key_of (packages_by_id id) tenant_id = refl
read_key-key_of payments_all tenant_id = refl
read_key-key_of payments_admin tenant_id = refl
read_key-key_of payments_reseller tenant_id = refl
read_key-key_of payments_customer tenant_id = refl
read_key-key_of (payments_by_id id) tenant_id = refl
read_key-key_of (payments_status id) tenant_id = refl
read_key-key_of (payments_portal payment_id) tenant_id = refl
read_key-key_of vouchers_all tenant_id = refl
read_key-key_of vouchers_admin tenant_id = refl
read_key-key_of vouchers_reseller tenant_id = refl
read_key-key_of vouchers_customer tenant_id = refl
read_key-key_of (vouchers_by_id id) tenant_id = refl
read_key-key_of users_me tenant_id = refl
read_key-key_of users_admin_customers tenant_id = refl
read_key-key_of users_reseller_customers tenant_id = refl
read_key-key_of users_profile tenant_id = refl
read_key-key_of routers_all tenant_id = refl
read_key-key_of (routers_by_id id) tenant_id = refl
read_key-key_of (routers_status id) tenant_id = refl
read_key-key_of (routers_onboarding router_id) tenant_id = refl
read_key-key_of sessions_admin tenant_id = refl
read_key-key_of sessions_customer tenant_id = refl
read_key-key_of subscriptions_mine tenant_id = refl
read_key-key_of (subscriptions_admin status) tenant_id = refl
read_key-key_of (wallets_balance reseller_id) tenant_id = refl
read_key-key_of (wallets_transactions reseller_id) tenant_id = refl
read_key-key_of invoices_admin tenant_id = refl
read_key-key_of invoices_mine tenant_id = refl
read_key-key_of stats_dashboard tenant_id = refl
read_key-key_of stats_system_health tenant_id = refl
read_key-key_of stats_stuck_payments tenant_id = refl
read_key-key_of (stats_audit_log action limit offset) tenant_id = refl
read_key-key_of tenant_me tenant_id = refl

abbrev fst_or : Query × Option String → Option (Query × Option String) → Query × Option String
fst_or d none = d
fst_or d (some x) = x

-- Queries that share a key are the same query, with the same arguments, for the same tenant; an omitted status counts as
-- the status `all`. So what one tenant was told is never found by another.
pub key_of_injective :
    (q r : Query) (s t : String)
    → key_of q s ≡ key_of r t
    → (normal q ≡ normal r) × (scope_of q s ≡ scope_of r t)
key_of_injective q r s t e =
    let same = ap (λ k. fst_or (normal q, scope_of q s) (read_key k)) e in
    let both : (normal q, scope_of q s) ≡ (normal r, scope_of r t) =
      sym (ap (fst_or (normal q, scope_of q s)) (read_key-key_of q s))
      ∙ same
      ∙ ap (fst_or (normal q, scope_of q s)) (read_key-key_of r t) in
    (ap (λ x. x.0) both, ap (λ x. x.1) both)
