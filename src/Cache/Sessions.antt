-- ===== src/Cache/Sessions.antt =====
-- What is asked for as one user leaves and another one signs in.
use frixel_connect.Base.{
  ◌≡◌, sym, ap, ◌∙◌, inl, inr, false, String, Option, none, some, [], truthy, arith, truthy-some,
  Option-cases,
}
use frixel_connect.Auth.{Browser, decode_token}
use frixel_connect.Portal.{Portal, AuthUser, login, logout, tenant_of}
use frixel_connect.Queries.{Query, key_of}
use frixel_connect.Queries.Keys.{scope_of}
use frixel_connect.Cache.{tenant_id_of}
use frixel_connect.Cache.Isolation.{tenant_in, tenant_in-key_of}
use frixel_connect.Cache.Reads.{
  use_admin_customers, use_reseller_customers, use_customer_profile, use_packages,
  use_admin_vouchers, use_reseller_vouchers, use_customer_vouchers, use_routers, use_admin_sessions,
  use_customer_sessions, use_admin_payments, use_reseller_payments, use_customer_payments,
  use_admin_invoices, use_my_invoices, use_my_subscription, use_system_health, use_stuck_payments,
  use_wallet_balance, use_wallet_transactions, use_admin_subscriptions, use_audit_log,
  use_tenant_me,
}
use frixel_connect.Cache.Collections.{Collection, Filter, query_options}

module _ (to_lower_case : String → String) where
  -- Every key of a hook has the user's tenant in it.
  tenant_in-query_options :
      (r : Collection) (f : Filter) (user : Option AuthUser)
      → tenant_in (query_options to_lower_case r f user).query_key ≡ some (tenant_id_of user)
  unfolding query_options key_of use_admin_customers use_reseller_customers use_customer_profile
      use_packages use_admin_vouchers use_reseller_vouchers use_customer_vouchers use_routers
      use_admin_sessions use_customer_sessions use_admin_payments use_reseller_payments
      use_customer_payments use_admin_invoices use_my_invoices use_my_subscription use_system_health
      use_stuck_payments use_wallet_balance use_wallet_transactions use_admin_subscriptions
      use_audit_log use_tenant_me
  tenant_in-query_options r f user = ground arith

  logout-disabled :
      (r : Collection) (f : Filter) → (query_options to_lower_case r f none).enabled ≡ false
  unfolding query_options tenant_id_of use_admin_customers use_reseller_customers
      use_customer_profile use_packages use_admin_vouchers use_reseller_vouchers
      use_customer_vouchers use_routers use_admin_sessions use_customer_sessions use_admin_payments
      use_reseller_payments use_customer_payments use_admin_invoices use_my_invoices
      use_my_subscription use_system_health use_stuck_payments use_wallet_balance
      use_wallet_transactions use_admin_subscriptions use_audit_log use_tenant_me
  logout-disabled r f = ground arith

  module _ (b : Browser) where
    login-tenant :
        (access refresh t : String) (p : Portal)
        → tenant_of (decode_token b access) ≡ some t
        → (tenant_id_of (login b access refresh p).user ≡ t)
          × ((login b access refresh p).cache ≡ [])
    unfolding login tenant_id_of
    login-tenant access refresh t p e = elim (Option-cases (decode_token b access)) [
      | inl none_eq ↦ ground (arith, ap tenant_of (sym none_eq) ∙ e)
      | inr (d, d_eq) ↦
          let named : truthy d.tenant_id ≡ some t = ap tenant_of (sym d_eq) ∙ e in
          ground (arith, e, d_eq, named, truthy-some d.tenant_id t named)
    ]

    -- When a user has left, none of the hooks of `Collection` asks, whatever its arguments. When then someone of a tenant signs in,
    -- nothing that was kept is left, and none of these hooks finds an answer of another tenant: every key that one of them asks
    -- under is that tenant's.
    pub logout-login :
        (access refresh t : String) (p : Portal) (r : Collection) (f : Filter) (q : Query)
        (s : String)
        → tenant_of (decode_token b access) ≡ some t
        → let next = login b access refresh (logout p) in
          (query_options to_lower_case r f next.user).query_key ≡ key_of q s
          → ((query_options to_lower_case r f (logout p).user).enabled ≡ false)
            × (next.cache ≡ [])
            × (scope_of q s ≡ some t)
    unfolding logout
    logout-login access refresh t p r f q s e h =
        let (own, empty) = login-tenant access refresh t (logout p) e in
        (
          logout-disabled r f,
          empty,
          sym (tenant_in-key_of q s)
              ∙ sym (ap tenant_in h)
              ∙ tenant_in-query_options r f (login b access refresh (logout p)).user
              ∙ ap some own,
        )
