-- ===== src/Lib.antt =====
-- Frixel Connect: the web frontend (frontend/src), a React program in TypeScript in front of the
-- service under app/. It has three portals for a tenant's admins, resellers and customers, a
-- console for super admins, and a captive portal for the visitors of a hotspot.
--
-- How it is modelled. A component is a record of its React state, its part of the browser's storage
-- and the address, and one function for each handler, effect or interceptor, named after it in snake
-- case. A handler that awaits an answer is two functions, one up to the request and one after the
-- answer; the answer is an argument, so that an error of the server is one of its values. What a
-- handler makes the browser do (a request, a navigation, a message) is returned. Where order matters,
-- a data type `Event` lists what can happen and `step` and `run` take a list of events, so that a
-- theorem about all lists speaks about every interleaving of clicks, timers and answers.
--
-- The modules:
--   Base, Storage    shared names, texts, and the two storages of a browser as finite maps
--   Auth             lib/auth.ts: the tokens of each tenant, and how a token is read
--   Api              lib/api.ts: headers, 401 and 429, the refresh and the requests that wait for it
--   Portal           context/AuthContext.tsx and hooks/useAuth.ts
--   SuperAdmin       lib/superAdminApi.ts, context/SuperAdminAuthContext.tsx, the sign-in in two steps
--   Routing          router/index.tsx, and the guards of components/shared
--   Impersonation    the two windows of an impersonation: pages/super-admin and main.tsx
--   Onboarding       hooks/useOnboarding.ts and pages/admin/onboarding/OnboardingPage.tsx
--   RouterSetup      pages/admin/onboarding/RouterOnboardingWizard.tsx
--   Phone            the pattern of a Kenyan number, and formatPhone of lib/utils.ts
--   Hotspot          pages/public/CaptivePortalPage.tsx and components/hotspot
--   Queries          lib/queryKeys.ts
--   Cache            the hooks of hooks/ that ask and change, two requests of pages without a hook, and the
--                    query client's cache
--   VoucherDialog    pages/reseller/GenerateVoucherDialog.tsx
--   Signup           pages/public/TenantSignupPage.tsx and hooks/useTenantSignup.ts
--   Tables           the sort by time that tables share, and pages/admin/SessionsPage.tsx
--   Routers          hooks/useRouterSummary.ts, and the sidebar of components/layout/AdminLayout.tsx
--   Dashboard        pages/admin/DashboardPage.tsx
--   Customers        pages/admin/CustomersPage.tsx
--   Tenants          pages/super-admin/TenantsPage.tsx
--   TenantDetail     pages/super-admin/TenantDetailPage.tsx
--   Logs             pages/admin/AuditLogPage.tsx and pages/super-admin/AuditLogPage.tsx
--   RouterList       pages/admin/RoutersPage.tsx and components/shared/RouterForm.tsx
--   Subscriptions    pages/admin/SubscriptionsPage.tsx
--   MyCustomers      pages/reseller/MyCustomersPage.tsx, with the voucher dialog in it
--   Vouchers         pages/admin/VouchersPage.tsx
--   Formats          lib/formatDuration.ts, and the code of an invoice
--   Purchase         pages/customer/BuyPackagePage.tsx, PaymentStatusPage.tsx, hooks/usePayments.ts, and
--                    `retry` of lib/queryClient.ts
--   Packages         pages/admin/PackagesPage.tsx, lib/packageServiceType.ts, and the
--                    duration in components/admin/PackageForm.tsx
--   Examples         each property at a concrete input
--
-- They interact through the storage and the address: Api, Portal and Routing read the tokens that
-- Auth keeps, SuperAdmin keeps its own beside them, Impersonation hands a token to a tab whose
-- requests Api then signs with it, and Onboarding and RouterSetup resume from what they stored. Signup
-- opens the session of Portal and the onboarding; Dashboard and Customers sort with Tables.
--
-- Parameters. `QueryClient` is the query client, with the documented matching of prefixes as the hypothesis
-- `MatchesPrefixes`. `Browser` holds atob, decodeURIComponent, JSON.parse and the clock; `Codec` holds JSON
-- for one type, with its round trip as the hypothesis `IsFaithful`; `Clock` the parser of dates. Where records are
-- sorted or counted by date, the time of a text, or whether it is a text of today, is a function; so
-- are the test for e-mail addresses and `toLowerCase`. `MergesDefaults` is what axios documents of its default headers.
-- Fetches that the query client makes by itself, on a mount or when the window is looked at again, are events of Purchase.
-- Numbers are natural numbers; times are milliseconds. Decimal digits are
-- produced with the number itself as fuel, which is enough since a tenth is less; nothing else needs fuel.
--
-- Not modelled: the service under app/, whose answers are inputs here; the libraries (React, the
-- query client, axios, the form and schema libraries), of which only the calls are modelled; layout,
-- styling and texts of the pages; in Cache, the hooks that poll one payment or one router (RouterSetup, Hotspot and Purchase
-- have them), and TenantStatusGuard's own query of the tenant; route parameters, which Routing reads literally; pages that only list what the server sent.
pub mod Base
pub mod Storage
pub mod Auth
pub mod Api
pub mod Portal
pub mod Subscriptions
pub mod MyCustomers
pub mod Vouchers
pub mod SuperAdmin
pub mod Routing
pub mod Impersonation
pub mod Onboarding
pub mod RouterSetup
pub mod Phone
pub mod Hotspot
pub mod Queries
pub mod VoucherDialog
pub mod Examples
pub mod Signup
pub mod Tables
pub mod Routers
pub mod Dashboard
pub mod Customers
pub mod Tenants
pub mod Purchase
pub mod Packages
pub mod Cache
pub mod Logs
pub mod TenantDetail
pub mod RouterList
pub mod Formats
