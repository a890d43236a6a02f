-- ===== src/Cache/Console.antt =====
-- frontend/src/hooks/useSuperAdmin.ts: what the console of the super admins asks for and changes.
use frixel_connect.Base.{
  ℕ, true, not, String, Option, none, some, List, [], ◌∷◌, ◌++◌, is_empty, prepend, truthy,
}
use frixel_connect.Cache.{QueryOptions, Mutation, post}

pub record GetTenantsParams : Type 0 where
  pub page : ℕ
  pub limit : ℕ
  pub status : Option String
  pub search : Option String

pub record GetAuditLogParams : Type 0 where
  pub page : ℕ
  pub limit : ℕ
  pub action : Option String

-- A part of a key: a text, or the object of the parameters.
pub data ConsolePart : Type 0 where
  text : String → ConsolePart
  number : ℕ → ConsolePart
  tenants_params : GetTenantsParams → ConsolePart
  audit_log_params : GetAuditLogParams → ConsolePart

-- `value || undefined` as a parameter of the address: what is undefined is left out.
unfoldable pub optional_param : String → Option String → List (String × ConsolePart)
optional_param name value = elim (truthy value) [ none ↦ [] | some s ↦ (name, text s) ∷ [] ]

unfoldable pub use_platform_stats : QueryOptions ConsolePart
use_platform_stats = record {
  query_key = text "super-admin" ∷ text "stats" ∷ [];
  url = "/super-admin/stats";
  params = [];
  enabled = true;
  stale_time = some 60000;
  refetch_interval = none;
}

unfoldable pub use_tenants : GetTenantsParams → QueryOptions ConsolePart
unfolding optional_param
use_tenants params = record {
  query_key = text "super-admin" ∷ text "tenants" ∷ tenants_params params ∷ [];
  url = "/super-admin/tenants";
  params =
      ("page", number params.page)
      ∷ ("limit", number params.limit)
      ∷ (optional_param "status_filter" params.status ++ optional_param "search" params.search);
  enabled = true;
  stale_time = none;
  refetch_interval = none;
}

unfoldable pub use_tenant_detail : String → QueryOptions ConsolePart
use_tenant_detail tenant_id = record {
  query_key = text "super-admin" ∷ text "tenants" ∷ text tenant_id ∷ [];
  url = prepend "/super-admin/tenants/" tenant_id;
  params = [];
  enabled = not (is_empty tenant_id);
  stale_time = none;
  refetch_interval = none;
}

unfoldable pub use_super_admin_audit_log : GetAuditLogParams → QueryOptions ConsolePart
unfolding optional_param
use_super_admin_audit_log params = record {
  query_key = text "super-admin" ∷ text "audit-log" ∷ audit_log_params params ∷ [];
  url = "/super-admin/audit-log";
  params =
      ("page", number params.page)
      ∷ ("limit", number params.limit)
      ∷ optional_param "action" params.action;
  enabled = true;
  stale_time = none;
  refetch_interval = none;
}

unfoldable pub use_super_admins : QueryOptions ConsolePart
use_super_admins = record {
  query_key = text "super-admin" ∷ text "accounts" ∷ [];
  url = "/super-admin/accounts";
  params = [];
  enabled = true;
  stale_time = none;
  refetch_interval = none;
}

-- The bodies here are made of named values.
abbrev pub Body : Type 0
Body = List (String × ConsolePart)

unfoldable pub use_suspend_tenant : String → String → Mutation ConsolePart Body
use_suspend_tenant tenant_id reason = record {
  method = post;
  url = prepend "/super-admin/tenants/" (prepend tenant_id "/suspend");
  body = some (("reason", text reason) ∷ []);
  on_success =
      (text "super-admin" ∷ text "tenants" ∷ []) ∷ (text "super-admin" ∷ text "stats" ∷ []) ∷ [];
}

unfoldable pub use_reactivate_tenant : String → Mutation ConsolePart Body
use_reactivate_tenant tenant_id = record {
  method = post;
  url = prepend "/super-admin/tenants/" (prepend tenant_id "/reactivate");
  body = none;
  on_success =
      (text "super-admin" ∷ text "tenants" ∷ []) ∷ (text "super-admin" ∷ text "stats" ∷ []) ∷ [];
}

unfoldable pub use_impersonate_tenant : String → ℕ → Mutation ConsolePart Body
use_impersonate_tenant tenant_id duration_minutes = record {
  method = post;
  url = prepend "/super-admin/tenants/" (prepend tenant_id "/impersonate");
  body = some (("duration_minutes", number duration_minutes) ∷ []);
  on_success = [];
}

unfoldable pub use_trigger_billing : String → Mutation ConsolePart Body
use_trigger_billing tenant_id = record {
  method = post;
  url = prepend "/super-admin/tenants/" (prepend tenant_id "/billing/trigger");
  body = none;
  on_success = [];
}

unfoldable pub use_create_super_admin : Body → Mutation ConsolePart Body
use_create_super_admin body = record {
  method = post;
  url = "/super-admin/accounts";
  body = some body;
  on_success = (text "super-admin" ∷ text "accounts" ∷ []) ∷ [];
}
