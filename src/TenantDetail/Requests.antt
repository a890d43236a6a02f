-- ===== src/TenantDetail/Requests.antt =====
-- What the page of a tenant asks the server for.
use frixel_connect.Base.{
  unless-holds, ℕ, ◌≡◌, ◌≤◌, refl, sym, ◌∙◌, ◌⊎◌, inl, inr, true, false, String, Option, none, some,
  List, [], ◌∷◌, arith, All, truthy, truthy-some, text_length, if◌then◌else◌, not, ◌||◌, ltb,
}
use frixel_connect.Routing.{is_suspended_status}
use frixel_connect.Tenants.{Request, TenantRow, suspend, reactivate, impersonate, trigger_billing}
use frixel_connect.TenantDetail.{
  TenantDetailPage, Tab, overview, audit, Event, handle, handle_all, first_render, with_tenant,
  load_tenant_audit_logs, on_active_tab, set_active_tab, on_logs_token, on_logs,
  on_logs_token_error, on_logs_error, handle_start_impersonation, on_impersonation,
  on_impersonation_error, handle_confirm_suspend, on_suspended, on_suspend_error, close_suspend,
  open_suspend, handle_reactivate, on_reactivated, on_reactivate_error, tab, logs_token, logs,
  logs_token_error, logs_error, open_impersonation, close_impersonation, start_impersonation,
  impersonated, impersonation_error, choose_duration, open_suspension, close_suspension,
  confirm_suspend, suspended, type_reason, suspend_error, press_reactivate, reactivated,
  reactivate_error, loaded,
}

-- A duration that the dialog offers.
abbrev pub IsOffered : ℕ → Type 0
IsOffered d = (d ≡ 15) ⊎ (d ≡ 30) ⊎ (d ≡ 60)

-- A request for the tenant of the page: with a reason of ten characters, or for a time that the dialog offers, or the five
-- minutes in which the log is read.
abbrev pub IsOwn : Option String → Request → Type 0
IsOwn id (suspend t reason) = (id ≡ some t) × (10 ≤ text_length reason)
IsOwn id (reactivate t) = id ≡ some t
IsOwn id (trigger_billing t) = true ≡ false
IsOwn id (impersonate t d) = (id ≡ some t) × (IsOffered d ⊎ (d ≡ 5))

module _ {ℓ} {A : Type ℓ} where
  -- The durations that are chosen are those that the dialog offers.
  abbrev pub IsPossible : Event A → Type 0
  IsPossible (choose_duration d) = IsOffered d
  IsPossible _ = true ≡ true

  module _ (id : Option String) where
    abbrev IsSafe : TenantDetailPage A → Type 0
    IsSafe p = (p.id ≡ id) × IsOffered p.impersonate_duration × All (IsOwn id) p.sent

    -- The identifier of the page, where it is not empty.
    own : (p : TenantDetailPage A) (t : String) → IsSafe p → truthy p.id ≡ some t → id ≡ some t
    own p t (same, d, r) e = sym same ∙ truthy-some p.id t e

    option-IsSafe {κ} :
        {B : Type κ} (o : Option B) (p : TenantDetailPage A) (f : B → TenantDetailPage A)
        → IsSafe p
        → ((b : B) → o ≡ some b → IsSafe (f b))
        → IsSafe (elim o [ none ↦ p | some b ↦ f b ])
    option-IsSafe none p f v g = v
    option-IsSafe (some b) p f v g = g b refl

    load-IsSafe : (p : TenantDetailPage A) → IsSafe p → IsSafe (load_tenant_audit_logs p)
    unfolding load_tenant_audit_logs
    load-IsSafe p (same, d, r) =
        option-IsSafe (truthy p.id) p _ (same, d, r)
          (λ t e. (same, d, ((own p t (same, d, r) e, inr refl), r)))

    first_load-IsSafe :
        (es : List A) (p : TenantDetailPage A)
        → IsSafe p
        → IsSafe (elim es [ [] ↦ load_tenant_audit_logs p | x ∷ xs ↦ p ])
    first_load-IsSafe [] p v = load-IsSafe p v
    first_load-IsSafe (x ∷ xs) p v = v

    open_audit-IsSafe :
        (t : Tab) (p : TenantDetailPage A)
        → IsSafe p
        → IsSafe (elim t [ overview ↦ on_active_tab (record p { active_tab = audit }) | audit ↦ p ])
    unfolding on_active_tab
    open_audit-IsSafe overview p v =
        first_load-IsSafe p.tenant_audit_logs (record p { active_tab = audit }) v
    open_audit-IsSafe audit p v = v

    set_active_tab-IsSafe :
        (t : Tab) (p : TenantDetailPage A) → IsSafe p → IsSafe (set_active_tab t p)
    unfolding set_active_tab
    set_active_tab-IsSafe overview p v = v
    set_active_tab-IsSafe audit p v = open_audit-IsSafe p.active_tab p v

    with_tenant-IsSafe :
        (p : TenantDetailPage A) (f : String → TenantRow → TenantDetailPage A)
        → IsSafe p
        → ((t : String) (tenant : TenantRow) → id ≡ some t → IsSafe (f t tenant))
        → IsSafe (with_tenant p f)
    unfolding with_tenant
    with_tenant-IsSafe p f v g =
        option-IsSafe (truthy p.id) p _ v
          (λ t e. option-IsSafe p.tenant p (f t) v (λ tenant n. g t tenant (own p t v e)))

    start-IsSafe : (p : TenantDetailPage A) → IsSafe p → IsSafe (handle_start_impersonation p)
    unfolding handle_start_impersonation
    start-IsSafe p (same, d, r) =
        let asked : String → TenantRow → TenantDetailPage A = λ t tenant. record p {
          impersonate_pending = true;
          sent = impersonate t p.impersonate_duration ∷ p.sent;
        } in
        unless-holds IsSafe (not p.show_impersonate_modal || p.impersonate_pending) p
          (with_tenant p asked) (same, d, r)
          (λ h. with_tenant-IsSafe p asked (same, d, r) (λ t tenant e. (same, d, ((e, inl d), r))))

    suspend-IsSafe : (p : TenantDetailPage A) → IsSafe p → IsSafe (handle_confirm_suspend p)
    unfolding handle_confirm_suspend
    suspend-IsSafe p (same, d, r) =
        let asked : String → TenantRow → TenantDetailPage A = λ t tenant. record p {
          suspend_pending = true;
          sent = suspend t p.suspend_reason ∷ p.sent;
        } in
        unless-holds IsSafe
          (not p.show_suspend_modal || (p.suspend_pending || ltb (text_length p.suspend_reason) 10))
          p (with_tenant p asked) (same, d, r)
          (λ h.
            with_tenant-IsSafe p asked (same, d, r)
              (λ t tenant e. (same, d, ((e, ground (arith, h)), r))))

    reactivate-IsSafe : (p : TenantDetailPage A) → IsSafe p → IsSafe (handle_reactivate p)
    unfolding handle_reactivate
    reactivate-IsSafe p (same, d, r) =
        let asked : String → TenantDetailPage A =
          λ t. record p { reactivate_pending = true; sent = reactivate t ∷ p.sent } in
        with_tenant-IsSafe p
          (λ t tenant.
            if not (is_suspended_status tenant.status) || p.reactivate_pending then p else asked t)
          (same, d, r)
          (λ t tenant e.
            unless-holds IsSafe (not (is_suspended_status tenant.status) || p.reactivate_pending) p
              (asked t) (same, d, r) (λ h. (same, d, (e, r))))

    open_suspend-IsSafe : (p : TenantDetailPage A) → IsSafe p → IsSafe (open_suspend p)
    unfolding open_suspend
    open_suspend-IsSafe p v =
        option-IsSafe p.tenant p _ v (λ tenant n. unless-holds IsSafe _ p _ v (λ h. v))

    handle-IsSafe :
        (p : TenantDetailPage A) (e : Event A) → IsPossible e → IsSafe p → IsSafe (handle p e)
    unfolding handle on_logs_token on_logs on_logs_token_error on_logs_error on_impersonation
        on_impersonation_error close_suspend on_suspended on_suspend_error on_reactivated
        on_reactivate_error
    handle-IsSafe p (tab t) h v = set_active_tab-IsSafe t p v
    handle-IsSafe p (logs_token latest token) h v = v
    handle-IsSafe p (logs items) h v = v
    handle-IsSafe p (logs_token_error latest) h v = v
    handle-IsSafe p logs_error h v = v
    handle-IsSafe p open_impersonation h v = v
    handle-IsSafe p close_impersonation h v = v
    handle-IsSafe p start_impersonation h v = start-IsSafe p v
    handle-IsSafe p impersonated h v = v
    handle-IsSafe p (impersonation_error message) h v = v
    handle-IsSafe p (choose_duration d) h (same, _, r) = (same, h, r)
    handle-IsSafe p open_suspension h v = open_suspend-IsSafe p v
    handle-IsSafe p close_suspension h v = v
    handle-IsSafe p confirm_suspend h v = suspend-IsSafe p v
    handle-IsSafe p suspended h v = v
    handle-IsSafe p (type_reason s) h v = v
    handle-IsSafe p (suspend_error message) h v = v
    handle-IsSafe p press_reactivate h v = reactivate-IsSafe p v
    handle-IsSafe p reactivated h v = v
    handle-IsSafe p (reactivate_error message) h v = v
    handle-IsSafe p (loaded tenant) h v = v

    handle_all-IsSafe :
        (p : TenantDetailPage A) (es : List (Event A))
        → All IsPossible es
        → IsSafe p
        → IsSafe (handle_all p es)
    unfolding handle_all
    handle_all-IsSafe p [] hs v = v
    handle_all-IsSafe p (e ∷ es) (h, hs) v =
        handle_all-IsSafe (handle p e) es hs (handle-IsSafe p e h v)

  -- Whatever is done on the page and whatever the server answers, in whatever order, every request is for the tenant of the
  -- address: it suspends it with a reason of ten characters or more, reactivates it, or impersonates it, for a time that the
  -- dialog offers or the five minutes in which its log is read. The durations that are chosen are those of the dialog.
  pub requests-IsOwn :
      (id : Option String) (es : List (Event A))
      → All IsPossible es
      → All (IsOwn id) (handle_all (first_render id) es).sent
  requests-IsOwn id es hs =
      (handle_all-IsSafe id (first_render id) es hs (refl, inr (inl refl), tt)).2
