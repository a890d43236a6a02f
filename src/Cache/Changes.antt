-- ===== src/Cache/Changes.antt =====
-- What the console of the super admins asks for again after a change.
use frixel_connect.Base.{◌≡◌, refl, sym, ap, ◌∙◌, true, false, String, List, [], ◌∷◌, ◌++◌, ◌===◌}
use frixel_connect.Cache.Client.{
  QueryClient, MatchesPrefixes, invalidate_all, invalidate_all-marks, invalidate_all-others,
}
use frixel_connect.Cache.Console.{
  ConsolePart, text, tenants_params, GetTenantsParams, GetAuditLogParams, use_tenants,
  use_tenant_detail, use_platform_stats, use_super_admins, use_super_admin_audit_log,
  use_suspend_tenant, use_reactivate_tenant,
}

-- The second part of a key.
abbrev second : List ConsolePart → String
second (a ∷ text b ∷ rest) = b
second _ = ""

abbrev tenants_key : List ConsolePart
tenants_key = text "super-admin" ∷ text "tenants" ∷ []

abbrev stats_key : List ConsolePart
stats_key = text "super-admin" ∷ text "stats" ∷ []

abbrev accounts_key : List ConsolePart
accounts_key = text "super-admin" ∷ text "accounts" ∷ []

-- What a key does not say of a key whose second part is another one.
never :
    (b : String) (k : List ConsolePart)
    → (b === second k) ≡ false
    → (b === b) ≡ true
    → (rest : List ConsolePart) → (text "super-admin" ∷ text b ∷ []) ++ rest ≡ k
    → true ≡ false
never b k h e rest p = sym e ∙ ap (λ j. b === second j) p ∙ h

module _ {κ} {C : Type κ} (client : QueryClient ConsolePart C) (law : MatchesPrefixes client)
    (c : C) where
  kept :
      (k : List ConsolePart)
      → ("tenants" === second k) ≡ false
      → ("stats" === second k) ≡ false
      → client.is_stale k (invalidate_all client (tenants_key ∷ stats_key ∷ []) c)
        ≡ client.is_stale k c
  kept k h h' =
      invalidate_all-others client law (tenants_key ∷ stats_key ∷ []) k c
        (never "tenants" k h refl, (never "stats" k h' refl, tt))

  -- Suspending and reactivating a tenant make stale every page of the list of tenants, whatever its filters, the details
  -- of every tenant and the figures, and leave the accounts and the audit log as they are.
  pub change-use_tenants :
      (tenant_id reason : String) (params : GetTenantsParams) (log : GetAuditLogParams)
      (id : String)
      → let after = invalidate_all client (use_suspend_tenant tenant_id reason).on_success c in
        (after ≡ invalidate_all client (use_reactivate_tenant tenant_id).on_success c)
        × (client.is_stale (use_tenants params).query_key after ≡ true)
        × (client.is_stale (use_tenant_detail id).query_key after ≡ true)
        × (client.is_stale use_platform_stats.query_key after ≡ true)
        × (client.is_stale use_super_admins.query_key after
            ≡ client.is_stale use_super_admins.query_key c)
        × (client.is_stale (use_super_admin_audit_log log).query_key after
            ≡ client.is_stale (use_super_admin_audit_log log).query_key c)
  unfolding use_suspend_tenant use_reactivate_tenant use_tenants use_tenant_detail
      use_platform_stats use_super_admins use_super_admin_audit_log
  change-use_tenants tenant_id reason params log id = (
    refl,
    invalidate_all-marks client law [] (stats_key ∷ []) tenants_key (tenants_params params ∷ []) c,
    invalidate_all-marks client law [] (stats_key ∷ []) tenants_key (text id ∷ []) c,
    invalidate_all-marks client law (tenants_key ∷ []) [] stats_key [] c,
    kept use_super_admins.query_key refl refl,
    kept (use_super_admin_audit_log log).query_key refl refl,
  )
