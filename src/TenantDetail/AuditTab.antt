-- ===== src/TenantDetail/AuditTab.antt =====
-- When the tab of the tenant's log asks for it.
use frixel_connect.Base.{
  ℕ, zero, suc, ◌≡◌, ◌≢◌, refl, sym, ap, ◌∙◌, true, String, some, List, [], ◌∷◌, ◌++◌, arith,
  truthy,
}
use frixel_connect.Auth.Sessions.{truthy_of_ne}
use frixel_connect.Tenants.{Request, impersonate}
use frixel_connect.TenantDetail.{
  TenantDetailPage, overview, audit, Event, tab, handle, handle_all, load_tenant_audit_logs,
  on_active_tab, set_active_tab,
}

-- The other tab is opened, and the tab of the log again, n times.
abbrev pub openings {ℓ} : {A : Type ℓ} → ℕ → List (Event A)
openings zero = []
openings (suc n) = tab overview ∷ tab audit ∷ openings n

abbrev pub token_requests : String → ℕ → List Request
token_requests id zero = []
token_requests id (suc n) = token_requests id n ++ impersonate id 5 ∷ []

append_assoc :
    (xs : List Request) (r : Request) (ys : List Request) → (xs ++ r ∷ []) ++ ys ≡ xs ++ r ∷ ys
append_assoc [] r ys = refl
append_assoc (x ∷ xs) r ys = ap (◌∷◌ x) (append_assoc xs r ys)

module _ {ℓ} {A : Type ℓ} where
  load-some :
      (p : TenantDetailPage A) (id : String)
      → truthy p.id ≡ some id
      → load_tenant_audit_logs p ≡ record p {
        audit_loading = true;
        impersonate_pending = true;
        sent = impersonate id 5 ∷ p.sent;
      }
  unfolding load_tenant_audit_logs
  load-some p id e = ground (arith, e)

  tab-empty :
      (p : TenantDetailPage A)
      → p.active_tab ≡ audit
      → p.tenant_audit_logs ≡ []
      → on_active_tab p ≡ load_tenant_audit_logs p
  unfolding on_active_tab
  tab-empty p a l = ground (arith, a, l)

  tab-logs :
      (p : TenantDetailPage A) (x : A) (xs : List A)
      → p.tenant_audit_logs ≡ x ∷ xs
      → on_active_tab p ≡ p
  unfolding on_active_tab
  tab-logs p x xs l = ground (arith, l)

  opened-empty :
      (n : ℕ) (p : TenantDetailPage A) (id : String)
      → truthy p.id ≡ some id
      → p.tenant_audit_logs ≡ []
      → (handle_all p (openings n)).sent ≡ token_requests id n ++ p.sent
  unfolding handle_all handle set_active_tab on_active_tab
  opened-empty zero p id e l = refl
  opened-empty (suc n) p id e l =
      let q : TenantDetailPage A = record p { active_tab = audit } in
      let loading : TenantDetailPage A = record q {
        audit_loading = true;
        impersonate_pending = true;
        sent = impersonate id 5 ∷ q.sent;
      } in
      ap (λ r. (handle_all r (openings n)).sent) (tab-empty q refl l ∙ load-some q id e)
      ∙ opened-empty n loading id e l
      ∙ sym (append_assoc (token_requests id n) (impersonate id 5) p.sent)

  opened-logs :
      (n : ℕ) (p : TenantDetailPage A) (x : A) (xs : List A)
      → p.tenant_audit_logs ≡ x ∷ xs
      → (handle_all p (openings n)).sent ≡ p.sent
  unfolding handle_all handle set_active_tab on_active_tab
  opened-logs zero p x xs l = refl
  opened-logs (suc n) p x xs l =
      let q : TenantDetailPage A = record p { active_tab = audit } in
      ap (λ r. (handle_all r (openings n)).sent) (tab-logs q x xs l) ∙ opened-logs n q x xs l

  -- Each time the tab of the log is opened while the log has no entries, a token for an impersonation is asked for; once entries
  -- are there, none is any more, however often the tab is opened.
  pub openings-sent :
      (n : ℕ) (p : TenantDetailPage A) (id : String) (x : A) (xs : List A)
      → p.id ≡ some id
      → id ≢ ""
      → let empty : TenantDetailPage A = record p { tenant_audit_logs = [] } in
        let filled : TenantDetailPage A = record p { tenant_audit_logs = x ∷ xs } in
        ((handle_all empty (openings n)).sent ≡ token_requests id n ++ p.sent)
        × ((handle_all filled (openings n)).sent ≡ p.sent)
  openings-sent n p id x xs e h = (
    opened-empty n (record p { tenant_audit_logs = [] }) id (ap truthy e ∙ truthy_of_ne id h) refl,
    opened-logs n (record p { tenant_audit_logs = x ∷ xs }) x xs refl,
  )
