-- ===== src/Routers.antt =====
-- The routers of a tenant and what they switch on: frontend/src/hooks/useRouterSummary.ts, and the
-- sidebar of frontend/src/components/layout/AdminLayout.tsx.
pub mod Sidebar
use frixel_connect.Base.{
  Bool, true, false, String, List, [], ◌∷◌, ◌++◌, Option, none, some, if◌then◌else◌, take, drop,
}
use frixel_connect.Onboarding.{ServiceType, hotspot, pppoe}

pub data RouterStatus : Type 0 where
  online offline unknown pending_setup testing : RouterStatus

-- The fields that are read here; the service type is optional in the answer of the server.
pub record MikrotikRouter : Type 0 where
  pub id : String
  pub name : String
  pub status : RouterStatus
  pub service_type : Option ServiceType

abbrev pub resolve_router_service_type : MikrotikRouter → ServiceType
resolve_router_service_type r = elim r.service_type [
  | some pppoe ↦ pppoe
  | some hotspot ↦ hotspot
  | none ↦ hotspot
]

-- What is computed of the routers, beside themselves and whether they are loading.
pub record RouterSummary : Type 0 where
  pub has_hotspot_router : Bool
  pub has_pppoe_router : Bool
  pub has_online_router : Bool

abbrev pub is_pppoe : ServiceType → Bool
is_pppoe pppoe = true
is_pppoe hotspot = false

abbrev pub is_online : RouterStatus → Bool
is_online online = true
is_online _ = false

-- The body of the loop.
abbrev pub add_router : MikrotikRouter → RouterSummary → RouterSummary
add_router router s =
    let t =
      if is_pppoe (resolve_router_service_type router)
      then record s { has_pppoe_router = true }
      else record s { has_hotspot_router = true } in
    if is_online router.status then record t { has_online_router = true } else t

abbrev summarise_from : RouterSummary → List MikrotikRouter → RouterSummary
summarise_from s [] = s
summarise_from s (router ∷ routers) = summarise_from (add_router router s) routers

unfoldable pub summarise_routers : List MikrotikRouter → RouterSummary
summarise_routers =
    summarise_from
      (record { has_hotspot_router = false; has_pppoe_router = false; has_online_router = false })

pub data NavState : Type 0 where
  active muted disabled : NavState

abbrev pub has_any : List MikrotikRouter → Bool
has_any [] = false
has_any (r ∷ rs) = true

unfoldable pub vouchers_nav_state : List MikrotikRouter → NavState
unfolding summarise_routers
vouchers_nav_state routers =
    if has_any routers
    then if (summarise_routers routers).has_hotspot_router then active else disabled
    else muted

unfoldable pub subscriptions_nav_state : List MikrotikRouter → NavState
unfolding summarise_routers
subscriptions_nav_state routers =
    if has_any routers
    then if (summarise_routers routers).has_pppoe_router then active else disabled
    else muted

-- An item without a state counts as active.
pub record SidebarItem : Type 0 where
  pub label : String
  pub href : String
  pub nav_state : NavState

abbrev item : String → String → SidebarItem
item label href = record { label = label; href = href; nav_state = active }

abbrev pub core_sidebar_items : List SidebarItem
core_sidebar_items =
    item "Dashboard" "/admin/dashboard"
    ∷ item "Customers" "/admin/customers"
    ∷ item "Packages" "/admin/packages"
    ∷ item "Payments" "/admin/payments"
    ∷ item "Invoices" "/admin/invoices"
    ∷ item "Sessions" "/admin/sessions"
    ∷ item "Routers" "/admin/routers"
    ∷ item "System Health" "/admin/system-health"
    ∷ item "Audit Log" "/admin/audit-log"
    ∷ item "Account & Billing" "/admin/account"
    ∷ []

unfoldable pub service_sidebar_items : List MikrotikRouter → List SidebarItem
unfolding vouchers_nav_state subscriptions_nav_state
service_sidebar_items routers =
    record { label = "Vouchers"; href = "/admin/vouchers"; nav_state = vouchers_nav_state routers }
    ∷ record {
      label = "Subscriptions";
      href = "/admin/subscriptions";
      nav_state = subscriptions_nav_state routers;
    }
    ∷ []

unfoldable pub sidebar_items : List MikrotikRouter → List SidebarItem
unfolding service_sidebar_items
sidebar_items routers =
    take 5 core_sidebar_items ++ (service_sidebar_items routers ++ drop 5 core_sidebar_items)

-- `NavItems`: a disabled item is not a link.
abbrev pub links_of : List SidebarItem → List String
links_of [] = []
links_of (i ∷ items) =
    let rest = links_of items in
    elim i.nav_state [ disabled ↦ rest | active ↦ i.href ∷ rest | muted ↦ i.href ∷ rest ]
