-- ===== src/Routers/Sidebar.antt =====
-- What the routers switch on, and where the sidebar leads.
use frixel_connect.Base.{
  ◌≡◌, refl, ◌∙◌, Bool, true, false, String, List, [], ◌∷◌, map, any, all, arith, not,
  if◌then◌else◌, ◌||◌, some, starts_with,
}
use frixel_connect.Auth.{admin}
use frixel_connect.Portal.{Portal, AuthUser}
use frixel_connect.SuperAdmin.{Console, outlet}
use frixel_connect.Routing.{Outcome, shows, protected_route, visit}
use frixel_connect.Routers.{
  MikrotikRouter, RouterSummary, summarise_from, add_router, summarise_routers,
  resolve_router_service_type, is_pppoe, is_online, has_any, active, muted, disabled,
  vouchers_nav_state, subscriptions_nav_state, SidebarItem, links_of, sidebar_items,
}

summarise_from_lem :
    (s : RouterSummary) (rs : List MikrotikRouter)
    → summarise_from s rs ≡ record {
      has_hotspot_router =
          s.has_hotspot_router || any (λ r. not (is_pppoe (resolve_router_service_type r))) rs;
      has_pppoe_router =
          s.has_pppoe_router || any (λ r. is_pppoe (resolve_router_service_type r)) rs;
      has_online_router = s.has_online_router || any (λ r. is_online r.status) rs;
    }
summarise_from_lem s [] = ground arith
summarise_from_lem s (r ∷ rs) = ground (arith, summarise_from_lem (add_router r s) rs)

-- Of the routers the summary tells whether one serves hotspots, where a router without a service type
-- counts, whether one serves PPPoE, and whether one is online. An entry of the sidebar is muted
-- without routers, and else a link or disabled after its kind of service.
pub summarise_routers_lem :
    (rs : List MikrotikRouter)
    → let hotspots = any (λ r. not (is_pppoe (resolve_router_service_type r))) rs in
      let pppoes = any (λ r. is_pppoe (resolve_router_service_type r)) rs in
      (summarise_routers rs ≡ record {
        has_hotspot_router = hotspots;
        has_pppoe_router = pppoes;
        has_online_router = any (λ r. is_online r.status) rs;
      })
      × (vouchers_nav_state rs
          ≡ (if has_any rs then if hotspots then active else disabled else muted))
      × (subscriptions_nav_state rs
          ≡ (if has_any rs then if pppoes then active else disabled else muted))
unfolding summarise_routers vouchers_nav_state subscriptions_nav_state
summarise_routers_lem rs =
    let e = summarise_from_lem _ rs in (e ∙ refl, ground (arith, e), ground (arith, e))

all-links_of :
    (q : String → Bool) (items : List SidebarItem)
    → all q (map (λ i. i.href) items) ≡ true
    → all q (links_of items) ≡ true
all-links_of q [] h = refl
all-links_of q (i ∷ items) h = ground (arith, all-links_of q items)

-- A page of the administrator's console.
abbrev pub is_admin_page : Outcome → Bool
is_admin_page (shows name) = starts_with name "Admin"
is_admin_page _ = false

protected_route-admin :
    (p : Portal) (u : AuthUser)
    → p.is_loading ≡ false
    → p.user ≡ some u
    → u.role ≡ admin
    → protected_route (admin ∷ []) p ≡ outlet
unfolding protected_route
protected_route-admin p u l e r = rw (l, e, r) refl

-- Once the session has loaded, every link of the sidebar shows a signed-in administrator a page of the console, whatever routers there are.
pub sidebar_links_open :
    (p : Portal) (c : Console) (u : AuthUser) (rs : List MikrotikRouter)
    → p.is_loading ≡ false
    → p.user ≡ some u
    → u.role ≡ admin
    → all (λ href. is_admin_page (visit p c href)) (links_of (sidebar_items rs)) ≡ true
unfolding visit sidebar_items
sidebar_links_open p c u rs l e r =
    all-links_of (λ href. is_admin_page (visit p c href)) (sidebar_items rs)
      (rw (protected_route-admin p u l e r) refl)
