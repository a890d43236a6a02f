-- ===== src/Routing/Access.antt =====
-- Who sees the pages of each portal.
use frixel_connect.Base.{
  ◌≡◌, refl, sym, ap, ◌∙◌, ◌≢◌, Bool-cases, Bool, true, false, String, List, [], ◌∷◌, none, some,
  arith, find, all, find-all, ◌===◌, eq_iff, inl, inr, Option-cases, ◌||◌, starts_with, not,
}
use frixel_connect.Auth.{UserRole, admin, reseller, customer}
use frixel_connect.Portal.{Portal, AuthUser}
use frixel_connect.SuperAdmin.{Console, View, spinner, outlet, redirect, super_admin_route}
use frixel_connect.Routing.{
  role_eq, protected_route, Guard, for_roles, for_super_admin, Element, Route, routes, Outcome,
  shows, render, guard_view, visit_route, visit,
}
use frixel_connect.Routing.Redirects.{role_eq_sound}

-- The part of the address space that belongs to a role.
abbrev pub area : UserRole → String
area admin = "/admin"
area reseller = "/reseller"
area customer = "/customer"

abbrev is_for : UserRole → Guard → Bool
is_for r (for_roles (s ∷ [])) = role_eq s r || false
is_for r _ = false

-- Every route in the area of a role is guarded for this role alone.
is_fenced : UserRole → Route → Bool
is_fenced r e = not (starts_with e.path (area r)) || is_for r e.guard

routes_fenced : (r : UserRole) → all (is_fenced r) routes ≡ true
unfolding routes is_fenced
routes_fenced admin = refl
routes_fenced reseller = refl
routes_fenced customer = refl

find-path :
    (path : String) (rs : List Route) (r : Route)
    → find (λ r. r.path === path) rs ≡ some r
    → r.path ≡ path
find-path path [] r e = cc
find-path path (q ∷ rs) r e = elim (Bool-cases (q.path === path)) [
  | inl hit ↦ ground (arith, eq_iff q.path path)
  | inr miss ↦ find-path path rs r (ground arith)
]

abbrev is_for_super : Guard → Bool
is_for_super for_super_admin = true
is_for_super _ = false

is_walled : Route → Bool
is_walled e =
    not (starts_with e.path "/super-admin")
    || (e.path === "/super-admin/login" || is_for_super e.guard)

routes_walled : all is_walled routes ≡ true
unfolding routes is_walled
routes_walled = refl

walled_guard :
    (q : Route)
    → is_walled q ≡ true
    → starts_with q.path "/super-admin" ≡ true
    → q.path ≢ "/super-admin/login"
    → is_for_super q.guard ≡ true
unfolding is_walled
walled_guard q h k ne = ground (arith, eq_iff q.path "/super-admin/login")

render-shows : (e : Element) (v : View) (name : String) → render e v ≡ shows name → v ≡ outlet
render-shows e spinner name h = cc
render-shows e (redirect path) name h = cc
render-shows e outlet name h = refl

protected_route-outlet :
    (p : Portal) (s : UserRole)
    → protected_route (s ∷ []) p ≡ outlet
    → (u : AuthUser) × (p.user ≡ some u) × ((role_eq u.role s || false) ≡ true)
unfolding protected_route
protected_route-outlet p s h = elim (Option-cases p.user) [
  | inl e ↦ absurd (ground arith)
  | inr (u, e) ↦ (u, e, ground arith)
]

fenced_user :
    (p : Portal) (c : Console) (r : UserRole) (g : Guard) (e : Element) (name : String)
    → is_for r g ≡ true
    → render e (guard_view p c g) ≡ shows name
    → (u : AuthUser) × (p.user ≡ some u) × (u.role ≡ r)
unfolding guard_view
fenced_user p c r (for_roles (s ∷ [])) e name h shown =
    let (u, found, own) = protected_route-outlet p s (render-shows e _ name shown) in
    (u, found, role_eq_sound u.role s own ∙ role_eq_sound s r h)
fenced_user p c r g e name h shown = cc

abbrev page_name : Outcome → String
page_name (shows name) = name
page_name _ = ""

visit_unknown :
    (p : Portal) (c : Console) (path : String)
    → find (λ r. r.path === path) routes ≡ none
    → visit p c path ≡ shows "NotFound"
unfolding visit
visit_unknown p c path e = rw (e, visit) refl

visit_known :
    (p : Portal) (c : Console) (path : String) (q : Route)
    → find (λ r. r.path === path) routes ≡ some q
    → visit p c path ≡ render q.element (guard_view p c q.guard)
unfolding visit visit_route
visit_known p c path q e = rw (e, visit) refl

fenced_guard :
    (r : UserRole) (q : Route)
    → is_fenced r q ≡ true
    → starts_with q.path (area r) ≡ true
    → is_for r q.guard ≡ true
unfolding is_fenced
fenced_guard r q h k = ground arith

walled_session :
    (p : Portal) (c : Console) (g : Guard) (e : Element) (name : String)
    → is_for_super g ≡ true
    → render e (guard_view p c g) ≡ shows name
    → super_admin_route c ≡ outlet
unfolding guard_view
walled_session p c for_super_admin e name h shown = render-shows e _ name shown
walled_session p c g e name h shown = cc

-- A page of an area is shown only to a signed-in user of its role.
pub visit-area :
    (p : Portal) (c : Console) (r : UserRole) (path name : String)
    → starts_with path (area r) ≡ true
    → name ≢ "NotFound"
    → visit p c path ≡ shows name
    → (u : AuthUser) × (p.user ≡ some u) × (u.role ≡ r)
visit-area p c r path name h ne shown = elim (Option-cases (find (λ r. r.path === path) routes)) [
  | inl e ↦ absurd (ne (ap page_name (sym shown ∙ visit_unknown p c path e)))
  | inr (q, e) ↦
      let own = find-path path routes q e in
      let fenced = find-all (is_fenced r) (λ r. r.path === path) routes q (routes_fenced r) e in
      fenced_user p c r q.guard q.element name (fenced_guard r q fenced (rw own h))
        (sym (visit_known p c path q e) ∙ shown)
]

-- The super admin's pages, all but the login page, are shown only in an open session.
pub visit_super_area :
    (p : Portal) (c : Console) (path name : String)
    → starts_with path "/super-admin" ≡ true
    → path ≢ "/super-admin/login"
    → name ≢ "NotFound"
    → visit p c path ≡ shows name
    → super_admin_route c ≡ outlet
visit_super_area p c path name h nl ne shown =
    elim (Option-cases (find (λ r. r.path === path) routes)) [
      | inl e ↦ absurd (ne (ap page_name (sym shown ∙ visit_unknown p c path e)))
      | inr (q, e) ↦
          let own = find-path path routes q e in
          let fenced = find-all is_walled (λ r. r.path === path) routes q routes_walled e in
          walled_session p c q.guard q.element name (walled_guard q fenced (rw own h) (rw own nl))
            (sym (visit_known p c path q e) ∙ shown)
    ]
