-- ===== src/Routing/Redirects.antt =====
-- Where the guards of the table lead.
use frixel_connect.Base.{
  ◌≡◌, refl, Bool, true, false, String, List, [], ◌∷◌, some, arith, find, any, all, find-all, ◌===◌,
  eq_iff, ◌⊎◌, inl, inr, Option-cases, ◌||◌,
}
use frixel_connect.Auth.{UserRole, admin, reseller, customer}
use frixel_connect.Portal.{Portal, AuthUser, home}
use frixel_connect.SuperAdmin.{Console, outlet, redirect, super_admin_route}
use frixel_connect.Routing.{
  role_eq, protected_route, Guard, open_to_all, for_roles, for_super_admin, Element, page, go,
  Route, routes, Outcome, shows, goes, render, guard_view, visit_route, visit,
}

-- Both providers have loaded.
pub record IsLoaded (p : Portal) (c : Console) : Type 0 where
  pub portal : p.is_loading ≡ false
  pub console : c.is_loading ≡ false

abbrev pub is_page : Outcome → Bool
is_page (shows name) = true
is_page _ = false

abbrev pub target_is_page : Portal → Console → Outcome → Bool
target_is_page p c (goes path) = is_page (visit p c path)
target_is_page p c _ = true

role_eq_refl : (r : UserRole) → role_eq r r ≡ true
role_eq_refl admin = refl
role_eq_refl reseller = refl
role_eq_refl customer = refl

pub role_eq_sound : (r s : UserRole) → (role_eq r s || false) ≡ true → r ≡ s
role_eq_sound r s h = ground arith

-- The shapes of the table's entries: a page behind any guard, and an index route to the start page
-- of its guard.
is_regular_entry : Guard → Element → Bool
is_regular_entry guard (page name) = true
is_regular_entry open_to_all (go path) = false
is_regular_entry (for_roles []) (go path) = false
is_regular_entry (for_roles (r ∷ [])) (go path) = path === home r
is_regular_entry (for_roles (r ∷ _ ∷ _)) (go path) = false
is_regular_entry for_super_admin (go path) = path === "/super-admin/dashboard"

is_regular : Route → Bool
unfolding is_regular_entry
is_regular r = is_regular_entry r.guard r.element

routes_regular : all is_regular routes ≡ true
unfolding is_regular routes home
routes_regular = refl

module _ (p : Portal) (c : Console) (loaded : IsLoaded p c) where
  login_lands : is_page (visit p c "/login") ≡ true
  unfolding visit
  login_lands = refl

  admin_login_lands : is_page (visit p c "/super-admin/login") ≡ true
  unfolding visit
  admin_login_lands = refl

  home_route :
      (r : UserRole)
      → (name : String) × (visit p c (home r) ≡ render (page name) (protected_route (r ∷ []) p))
  unfolding visit home
  home_route admin = ("AdminDashboard", refl)
  home_route reseller = ("ResellerDashboard", refl)
  home_route customer = ("CustomerDashboard", refl)

  protected_route_own : (u : AuthUser) → p.user ≡ some u → protected_route (u.role ∷ []) p ≡ outlet
  unfolding protected_route
  protected_route_own u e = ground (arith, loaded.portal, role_eq_refl u.role)

  home_lands : (u : AuthUser) → p.user ≡ some u → is_page (visit p c (home u.role)) ≡ true
  home_lands u e = let (name, shown) = home_route u.role in rw (shown, protected_route_own u e) refl

  dashboard_lands :
      super_admin_route c ≡ outlet → is_page (visit p c "/super-admin/dashboard") ≡ true
  unfolding visit
  dashboard_lands e = rw (e, visit) refl

  -- What a guard of roles answers: the page, the login page, or the start page of the user.
  protected_route_cases :
      (allowed : List UserRole)
      → (protected_route allowed p ≡ redirect "/login")
        ⊎ ((u : AuthUser) × (p.user ≡ some u)
            × ((protected_route allowed p ≡ redirect (home u.role))
                ⊎ ((protected_route allowed p ≡ outlet) × (any (role_eq u.role) allowed ≡ true))))
  unfolding protected_route
  protected_route_cases allowed = elim (Option-cases p.user) [
    | inl e ↦ inl (ground (arith, loaded.portal))
    | inr (u, e) ↦ inr (u, e, ground (arith, loaded.portal))
  ]

  super_admin_route_cases :
      (super_admin_route c ≡ outlet) ⊎ (super_admin_route c ≡ redirect "/super-admin/login")
  unfolding super_admin_route
  super_admin_route_cases = ground (arith, loaded.console)

  -- A guard of roles in front of a page, and in front of an index route to the start page.
  roles_page_lands :
      (allowed : List UserRole) (name : String)
      → target_is_page p c (render (page name) (protected_route allowed p)) ≡ true
  roles_page_lands allowed name = elim (protected_route_cases allowed) [
    | inl e ↦ rw e login_lands
    | inr (u, e, inl f) ↦ rw f (home_lands u e)
    | inr (u, e, inr (f, _)) ↦ rw f refl
  ]

  roles_index_lands :
      (r : UserRole) → target_is_page p c (render (go (home r)) (protected_route (r ∷ []) p)) ≡ true
  roles_index_lands r = elim (protected_route_cases (r ∷ [])) [
    | inl e ↦ rw e login_lands
    | inr (u, e, inl f) ↦ rw f (home_lands u e)
    | inr (u, e, inr (f, own)) ↦ rw (f, ← role_eq_sound u.role r own) (home_lands u e)
  ]

  super_page_lands :
      (name : String) → target_is_page p c (render (page name) (super_admin_route c)) ≡ true
  super_page_lands name = elim super_admin_route_cases [
    | inl e ↦ rw e refl
    | inr e ↦ rw e admin_login_lands
  ]

  super_index_lands :
      target_is_page p c (render (go "/super-admin/dashboard") (super_admin_route c)) ≡ true
  super_index_lands = elim super_admin_route_cases [
    | inl e ↦ rw e (dashboard_lands e)
    | inr e ↦ rw e admin_login_lands
  ]

  entry_lands :
      (g : Guard) (e : Element)
      → is_regular_entry g e ≡ true
      → target_is_page p c (render e (guard_view p c g)) ≡ true
  unfolding is_regular_entry guard_view
  entry_lands open_to_all (page name) h = refl
  entry_lands open_to_all (go path) h = cc
  entry_lands (for_roles allowed) (page name) h = roles_page_lands allowed name
  entry_lands (for_roles []) (go path) h = cc
  entry_lands (for_roles (r ∷ [])) (go path) h =
      rw ((eq_iff path (home r)).0 h) (roles_index_lands r)
  entry_lands (for_roles (r ∷ q ∷ rs)) (go path) h = cc
  entry_lands for_super_admin (page name) h = super_page_lands name
  entry_lands for_super_admin (go path) h =
      rw ((eq_iff path "/super-admin/dashboard").0 h) super_index_lands

  visit_route_lands :
      (r : Route) → is_regular r ≡ true → target_is_page p c (visit_route p c (some r)) ≡ true
  unfolding visit_route is_regular
  visit_route_lands r h = entry_lands r.guard r.element h

  -- No redirect leads to another: whatever the address and whoever is signed in, once the
  -- providers have loaded, an address shows a page, or leads to one that does.
  pub visit_lands : (path : String) → target_is_page p c (visit p c path) ≡ true
  unfolding visit
  visit_lands path = elim (Option-cases (find (λ r. r.path === path) routes)) [
    | inl e ↦ rw (e, visit) refl
    | inr (r, e) ↦
        rw (e, visit)
          (visit_route_lands r
            (find-all is_regular (λ r. r.path === path) routes r routes_regular e))
  ]
