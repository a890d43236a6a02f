-- ===== src/TenantDetail.antt =====
-- frontend/src/pages/super-admin/TenantDetailPage.tsx: one tenant in the console of the super admins. The requests are those
-- of Tenants; the tab that an impersonation opens is in Impersonation.
pub mod Requests
pub mod AuditTab
use frixel_connect.Base.{
  ℕ, suc, Bool, true, false, not, ◌||◌, ◌&&◌, String, Option, none, some, List, [], ◌∷◌,
  if◌then◌else◌, ltb, is_some, truthy, text_length, prepend, get_or,
}
use frixel_connect.Routing.{is_suspended_status}
use frixel_connect.Tenants.{TenantRow, Request, suspend, reactivate, impersonate}

pub data Tab : Type 0 where
  overview audit : Tab

-- `A` holds the entries of the tenant's audit log. `tenant` is what the server last said of it; `sent` are the requests for a
-- change, `logs_tokens` the tokens that the tenant's log was asked for with; both newest first.
pub record TenantDetailPage {ℓ} (A : Type ℓ) : Type ℓ where
  pub id : Option String
  pub tenant : Option TenantRow
  pub active_tab : Tab
  pub show_impersonate_modal : Bool
  pub impersonate_duration : ℕ
  pub show_suspend_modal : Bool
  pub suspend_reason : String
  pub tenant_audit_logs : List A
  pub audit_loading : Bool
  pub suspend_pending : Bool
  pub reactivate_pending : Bool
  pub impersonate_pending : Bool
  pub sent : List Request
  pub logs_tokens : List String
  pub refetches : ℕ
  pub toast : Option String

module _ {ℓ} {A : Type ℓ} where
  abbrev pub first_render : Option String → TenantDetailPage A
  first_render id = record {
    id = id;
    tenant = none;
    active_tab = overview;
    show_impersonate_modal = false;
    impersonate_duration = 30;
    show_suspend_modal = false;
    suspend_reason = "";
    tenant_audit_logs = [];
    audit_loading = false;
    suspend_pending = false;
    reactivate_pending = false;
    impersonate_pending = false;
    sent = [];
    logs_tokens = [];
    refetches = 0;
    toast = none;
  }

  -- `loadTenantAuditLogs` up to its first await.
  unfoldable pub load_tenant_audit_logs : TenantDetailPage A → TenantDetailPage A
  load_tenant_audit_logs p = elim (truthy p.id) [
    | none ↦ p
    | some id ↦ record p {
      audit_loading = true;
      impersonate_pending = true;
      sent = impersonate id 5 ∷ p.sent;
    }
  ]

  -- The token has come: the log is asked for with it. The two uses of the mutation share its `isPending`, which is that of
  -- the request made last: `latest` tells whether it was this one.
  unfoldable pub on_logs_token : Bool → String → TenantDetailPage A → TenantDetailPage A
  on_logs_token latest token p = record p {
    impersonate_pending = p.impersonate_pending && not latest;
    logs_tokens = token ∷ p.logs_tokens;
  }

  unfoldable pub on_logs : Option (List A) → TenantDetailPage A → TenantDetailPage A
  on_logs items p = record p { tenant_audit_logs = get_or items []; audit_loading = false }

  -- One of the two requests has failed.
  unfoldable pub on_logs_token_error : Bool → TenantDetailPage A → TenantDetailPage A
  on_logs_token_error latest p = record p {
    impersonate_pending = p.impersonate_pending && not latest;
    audit_loading = false;
    toast = some "Failed to load tenant audit logs";
  }

  unfoldable pub on_logs_error : TenantDetailPage A → TenantDetailPage A
  on_logs_error p = record p {
    audit_loading = false;
    toast = some "Failed to load tenant audit logs";
  }

  -- The effect on the tab runs when the tab has changed.
  unfoldable pub on_active_tab : TenantDetailPage A → TenantDetailPage A
  unfolding load_tenant_audit_logs
  on_active_tab p = elim p.active_tab [
    | overview ↦ p
    | audit ↦ elim p.tenant_audit_logs [ [] ↦ load_tenant_audit_logs p | e ∷ es ↦ p ]
  ]

  unfoldable pub set_active_tab : Tab → TenantDetailPage A → TenantDetailPage A
  unfolding on_active_tab
  set_active_tab overview p = record p { active_tab = overview }
  set_active_tab audit p = elim p.active_tab [
    | overview ↦ on_active_tab (record p { active_tab = audit })
    | audit ↦ p
  ]

  -- `if (!id || !tenant) return`, and what follows it.
  unfoldable pub with_tenant :
      TenantDetailPage A → (String → TenantRow → TenantDetailPage A) → TenantDetailPage A
  with_tenant p f = elim (truthy p.id) [
    | none ↦ p
    | some id ↦ elim p.tenant [ none ↦ p | some tenant ↦ f id tenant ]
  ]

  -- The button of the dialog is there while the dialog is, and not while a request is under way.
  unfoldable pub handle_start_impersonation : TenantDetailPage A → TenantDetailPage A
  unfolding with_tenant
  handle_start_impersonation p =
      if not p.show_impersonate_modal || p.impersonate_pending
      then p
      else with_tenant p (λ id tenant. record p {
        impersonate_pending = true;
        sent = impersonate id p.impersonate_duration ∷ p.sent;
      })

  -- The answer, which is delivered when no later request of the mutation was made.
  unfoldable pub on_impersonation : TenantDetailPage A → TenantDetailPage A
  on_impersonation p = record p { impersonate_pending = false; show_impersonate_modal = false }

  unfoldable pub on_impersonation_error : Option String → TenantDetailPage A → TenantDetailPage A
  on_impersonation_error message p = record p {
    impersonate_pending = false;
    toast = some (get_or (truthy message) "Impersonation failed");
  }

  -- The button is disabled while a suspension is under way and while the reason is too short.
  unfoldable pub handle_confirm_suspend : TenantDetailPage A → TenantDetailPage A
  unfolding with_tenant
  handle_confirm_suspend p =
      if not p.show_suspend_modal || (p.suspend_pending || ltb (text_length p.suspend_reason) 10)
      then p
      else with_tenant p (λ id tenant. record p {
        suspend_pending = true;
        sent = suspend id p.suspend_reason ∷ p.sent;
      })

  unfoldable pub on_suspended : TenantDetailPage A → TenantDetailPage A
  on_suspended p = record p {
    suspend_pending = false;
    show_suspend_modal = false;
    suspend_reason = "";
    refetches = suc p.refetches;
    toast = elim p.tenant [
      | none ↦ p.toast
      | some tenant ↦ some (prepend "Suspended tenant " tenant.business_name)
    ];
  }

  unfoldable pub on_suspend_error : Option String → TenantDetailPage A → TenantDetailPage A
  on_suspend_error message p = record p {
    suspend_pending = false;
    toast = some (get_or (truthy message) "Failed to suspend tenant");
  }

  unfoldable pub close_suspend : TenantDetailPage A → TenantDetailPage A
  close_suspend p = record p { show_suspend_modal = false; suspend_reason = "" }

  -- Of the two buttons on top, the one for the tenant's status is there.
  unfoldable pub open_suspend : TenantDetailPage A → TenantDetailPage A
  open_suspend p = elim p.tenant [
    | none ↦ p
    | some tenant ↦
        if is_suspended_status tenant.status then p else record p { show_suspend_modal = true }
  ]

  unfoldable pub handle_reactivate : TenantDetailPage A → TenantDetailPage A
  unfolding with_tenant
  handle_reactivate p = with_tenant p (λ id tenant.
      if not (is_suspended_status tenant.status) || p.reactivate_pending
      then p
      else record p { reactivate_pending = true; sent = reactivate id ∷ p.sent })

  unfoldable pub on_reactivated : TenantDetailPage A → TenantDetailPage A
  on_reactivated p = record p {
    reactivate_pending = false;
    refetches = suc p.refetches;
    toast = elim p.tenant [
      | none ↦ p.toast
      | some tenant ↦ some (prepend "Reactivated tenant " tenant.business_name)
    ];
  }

  unfoldable pub on_reactivate_error : Option String → TenantDetailPage A → TenantDetailPage A
  on_reactivate_error message p = record p {
    reactivate_pending = false;
    toast = some (get_or (truthy message) "Failed to reactivate tenant");
  }

pub data Event {ℓ} (A : Type ℓ) : Type ℓ where
  tab : Tab → Event A
  logs_token : Bool → String → Event A
  logs : Option (List A) → Event A
  logs_token_error : Bool → Event A
  logs_error : Event A
  open_impersonation close_impersonation start_impersonation impersonated : Event A
  impersonation_error : Option String → Event A
  choose_duration : ℕ → Event A
  open_suspension close_suspension confirm_suspend suspended : Event A
  type_reason : String → Event A
  suspend_error : Option String → Event A
  press_reactivate reactivated : Event A
  reactivate_error : Option String → Event A
  loaded : TenantRow → Event A

module _ {ℓ} {A : Type ℓ} where
  -- What the super admin does, and the answers of the server.
  unfoldable pub handle : TenantDetailPage A → Event A → TenantDetailPage A
  unfolding set_active_tab on_logs_token on_logs on_logs_token_error on_logs_error
      handle_start_impersonation on_impersonation on_impersonation_error open_suspend close_suspend
      handle_confirm_suspend on_suspended on_suspend_error handle_reactivate on_reactivated
      on_reactivate_error
  handle p (tab t) = set_active_tab t p
  handle p (logs_token latest token) = on_logs_token latest token p
  handle p (logs items) = on_logs items p
  handle p (logs_token_error latest) = on_logs_token_error latest p
  handle p logs_error = on_logs_error p
  handle p open_impersonation = record p { show_impersonate_modal = true }
  handle p close_impersonation = record p { show_impersonate_modal = false }
  handle p start_impersonation = handle_start_impersonation p
  handle p impersonated = on_impersonation p
  handle p (impersonation_error message) = on_impersonation_error message p
  handle p (choose_duration d) = record p { impersonate_duration = d }
  handle p open_suspension = open_suspend p
  handle p close_suspension = close_suspend p
  handle p confirm_suspend = handle_confirm_suspend p
  handle p suspended = on_suspended p
  handle p (type_reason s) = record p { suspend_reason = s }
  handle p (suspend_error message) = on_suspend_error message p
  handle p press_reactivate = handle_reactivate p
  handle p reactivated = on_reactivated p
  handle p (reactivate_error message) = on_reactivate_error message p
  handle p (loaded tenant) = record p { tenant = some tenant }

  unfoldable pub handle_all : TenantDetailPage A → List (Event A) → TenantDetailPage A
  unfolding handle
  handle_all p [] = p
  handle_all p (e ∷ es) = handle_all (handle p e) es
