-- ===== src/Routing.antt =====
-- Which page an address shows: frontend/src/router/index.tsx (the table of routes),
-- components/shared/ProtectedRoute.tsx and TenantStatusGuard.tsx. Of the router library this uses
-- that a full path selects its route, the index route of a layout its parent's path.
pub mod Redirects
pub mod Access
pub mod Suspension
pub mod SignedOut
use frixel_connect.Base.{
  Bool, true, false, String, List, [], ◌∷◌, ◌++◌, map, Option, none, some, if◌then◌else◌, ◌===◌,
  find, any, ◌&&◌, ◌||◌, not, truthy, is_some,
}
use frixel_connect.Storage.{Storage}
use frixel_connect.Auth.{
  Browser, UserRole, admin, reseller, customer, TenantStatus, get_token, decode_token,
}
use frixel_connect.Portal.{Portal, AuthUser, home, is_authenticated}
use frixel_connect.SuperAdmin.{Console, View, spinner, outlet, redirect, super_admin_route}

abbrev pub role_eq : UserRole → UserRole → Bool
role_eq admin admin = true
role_eq reseller reseller = true
role_eq customer customer = true
role_eq _ _ = false

-- `ProtectedRoute`. The role of a user is one of three, so the last redirect of the source to
-- "/login" is not reached.
pub check_user : List UserRole → Option AuthUser → View
check_user allowed none = redirect "/login"
check_user allowed (some user) =
    if any (role_eq user.role) allowed then outlet else redirect (home user.role)

unfoldable pub protected_route : List UserRole → Portal → View
unfolding check_user
protected_route allowed p = if p.is_loading then spinner else check_user allowed p.user

pub data Guard : Type 0 where
  open_to_all : Guard
  for_roles : List UserRole → Guard
  for_super_admin : Guard

pub data Element : Type 0 where
  page : String → Element
  go : String → Element

pub record Route : Type 0 where
  pub path : String
  pub guard : Guard
  pub element : Element

abbrev route : Guard → String → String → Route
route guard path name = record { path = path; guard = guard; element = page name }

abbrev index : Guard → String → String → Route
index guard path target = record { path = path; guard = guard; element = go target }

pub routes : List Route
routes =
    route open_to_all "/" "LandingPage"
    ∷ route open_to_all "/login" "LoginPage"
    ∷ route open_to_all "/register" "RegisterPage"
    ∷ route open_to_all "/signup" "TenantSignupPage"
    ∷ route open_to_all "/hotspot/login" "CaptivePortalPage"
    ∷ route (for_roles (admin ∷ [])) "/admin/onboarding" "OnboardingPage"
    ∷ route (for_roles (admin ∷ [])) "/admin/onboarding/router" "RouterOnboardingWizard"
    ∷ index (for_roles (admin ∷ [])) "/admin" "/admin/dashboard"
    ∷ route (for_roles (admin ∷ [])) "/admin/dashboard" "AdminDashboard"
    ∷ route (for_roles (admin ∷ [])) "/admin/customers" "AdminCustomers"
    ∷ route (for_roles (admin ∷ [])) "/admin/packages" "AdminPackages"
    ∷ route (for_roles (admin ∷ [])) "/admin/payments" "AdminPayments"
    ∷ route (for_roles (admin ∷ [])) "/admin/vouchers" "AdminVouchers"
    ∷ route (for_roles (admin ∷ [])) "/admin/sessions" "AdminSessions"
    ∷ route (for_roles (admin ∷ [])) "/admin/routers" "AdminRouters"
    ∷ route (for_roles (admin ∷ [])) "/admin/subscriptions" "AdminSubscriptions"
    ∷ route (for_roles (admin ∷ [])) "/admin/invoices" "AdminInvoices"
    ∷ route (for_roles (admin ∷ [])) "/admin/system-health" "AdminSystemHealth"
    ∷ route (for_roles (admin ∷ [])) "/admin/audit-log" "AdminAuditLog"
    ∷ route (for_roles (admin ∷ [])) "/admin/account" "AdminAccount"
    ∷ index (for_roles (reseller ∷ [])) "/reseller" "/reseller/dashboard"
    ∷ route (for_roles (reseller ∷ [])) "/reseller/dashboard" "ResellerDashboard"
    ∷ route (for_roles (reseller ∷ [])) "/reseller/customers" "ResellerCustomers"
    ∷ route (for_roles (reseller ∷ [])) "/reseller/payments" "ResellerPayments"
    ∷ route (for_roles (reseller ∷ [])) "/reseller/vouchers" "ResellerVouchers"
    ∷ route (for_roles (reseller ∷ [])) "/reseller/wallet" "ResellerWallet"
    ∷ index (for_roles (customer ∷ [])) "/customer" "/customer/dashboard"
    ∷ route (for_roles (customer ∷ [])) "/customer/dashboard" "CustomerDashboard"
    ∷ route (for_roles (customer ∷ [])) "/customer/buy" "CustomerBuyPackage"
    ∷ route (for_roles (customer ∷ [])) "/customer/status/:id" "CustomerPaymentStatus"
    ∷ route (for_roles (customer ∷ [])) "/customer/vouchers" "CustomerVouchers"
    ∷ route (for_roles (customer ∷ [])) "/customer/invoices" "CustomerInvoices"
    ∷ route (for_roles (customer ∷ [])) "/customer/profile" "CustomerProfile"
    ∷ route (for_roles (customer ∷ [])) "/customer/privacy" "CustomerDataPrivacy"
    ∷ index for_super_admin "/super-admin" "/super-admin/dashboard"
    ∷ route for_super_admin "/super-admin/dashboard" "SuperAdminDashboardPage"
    ∷ route for_super_admin "/super-admin/tenants" "TenantsPage"
    ∷ route for_super_admin "/super-admin/tenants/:id" "TenantDetailPage"
    ∷ route for_super_admin "/super-admin/audit-log" "AuditLogPage"
    ∷ route for_super_admin "/super-admin/accounts" "AccountsPage"
    ∷ route open_to_all "/super-admin/login" "SuperAdminLoginPage"
    ∷ []

pub data Outcome : Type 0 where
  waits : Outcome
  shows : String → Outcome
  goes : String → Outcome

abbrev pub render : Element → View → Outcome
render e spinner = waits
render e (redirect path) = goes path
render (page name) outlet = shows name
render (go path) outlet = goes path

pub guard_view : Portal → Console → Guard → View
guard_view p c open_to_all = outlet
guard_view p c (for_roles allowed) = protected_route allowed p
guard_view p c for_super_admin = super_admin_route c

pub visit_route : Portal → Console → Option Route → Outcome
unfolding guard_view
visit_route p c none = shows "NotFound"
visit_route p c (some r) = render r.element (guard_view p c r.guard)

-- What an address shows, at a full path of the table.
unfoldable pub visit : Portal → Console → String → Outcome
unfolding visit_route routes
visit p c path = visit_route p c (find (λ r. r.path === path) routes)

pub data BillingStatus : Type 0 where
  active grace suspended : BillingStatus

-- The live answer of GET /tenants/me.
pub record Tenant : Type 0 where
  pub status : TenantStatus
  pub billing_status : BillingStatus

abbrev pub is_suspended_status : TenantStatus → Bool
is_suspended_status TenantStatus.suspended = true
is_suspended_status _ = false

abbrev pub is_suspended_billing : BillingStatus → Bool
is_suspended_billing BillingStatus.suspended = true
is_suspended_billing _ = false

abbrev pub is_suspended_tenant : Option Tenant → Bool
is_suspended_tenant none = false
is_suspended_tenant (some tenant) =
    is_suspended_status tenant.status || is_suspended_billing tenant.billing_status

abbrev pub is_admin : Option AuthUser → Bool
is_admin none = false
is_admin (some user) = role_eq user.role admin

-- `decoded?.tenant_status === 'suspended'`, for the stored token.
unfoldable pub token_suspended : Browser → Storage → Bool
token_suspended b s = elim (truthy (get_token s)) [
  | none ↦ false
  | some token ↦ elim (decode_token b token) [
    | none ↦ false
    | some decoded ↦ elim decoded.tenant_status [
      | none ↦ false
      | some status ↦ is_suspended_status status
    ]
  ]
]

-- `TenantStatusGuard`: whether the page of a suspended tenant is shown instead of the program.
unfoldable pub is_locked : Browser → Portal → Option Tenant → Bool
unfolding token_suspended is_authenticated
is_locked b p tenant =
    is_authenticated p
    && ((is_admin p.user && is_suspended_tenant tenant) || token_suspended b p.local)
