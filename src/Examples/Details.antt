-- ===== src/Examples/Details.antt =====
-- The page of one tenant.
use frixel_connect.Base.{refl, inr, String, some, List, [], ◌∷◌, All, true}
use frixel_connect.Auth.{TenantStatus}
use frixel_connect.Tenants.{TenantRow}
use frixel_connect.TenantDetail.{
  TenantDetailPage, Event, audit, first_render, handle_all, loaded, tab, logs_token, logs,
  choose_duration, open_impersonation, start_impersonation, impersonated, open_suspension,
  type_reason, confirm_suspend, suspended, press_reactivate,
}
use frixel_connect.TenantDetail.Requests.{IsOwn, requests-IsOwn}

abbrev row : TenantStatus → TenantRow
row status = record { id = "t1"; business_name = "Hill Net"; status = status }

abbrev visit : List (Event String)
visit =
    loaded (row TenantStatus.active)
    ∷ open_impersonation
    ∷ choose_duration 60
    ∷ start_impersonation
    ∷ impersonated
    ∷ tab audit
    ∷ logs_token true "h.p.s"
    ∷ logs (some ("package.created" ∷ []))
    ∷ open_suspension
    ∷ type_reason "unpaid invoices"
    ∷ confirm_suspend
    ∷ suspended
    ∷ loaded (row TenantStatus.suspended)
    ∷ press_reactivate
    ∷ []

requests-IsOwn_example : All (IsOwn (some "t1")) (handle_all (first_render (some "t1")) visit).sent
requests-IsOwn_example = requests-IsOwn (some "t1") visit (
  refl,
  (
    refl,
    (
      inr (inr refl),
      (refl, (refl, (refl, (refl, (refl, (refl, (refl, (refl, (refl, (refl, (refl, tt))))))))))),
    ),
  ),
)

abbrev detail : TenantDetailPage String
detail = record (first_render (some "t1")) { tenant = some (row TenantStatus.active) }
