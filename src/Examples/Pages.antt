-- ===== src/Examples/Pages.antt =====
-- Addresses visited by an admin and by a super admin.
use frixel_connect.Auth.{UserRole}
use frixel_connect.Base.{
  Option, String, ◌≢◌, ◌++◌, ◌∷◌, Bool, String, [], ap, false, none, refl, some, true, ◌===◌, ◌≡◌,
}
use frixel_connect.Api.{Page, Config, attach_token, on_error, to_login, reject, original}
use frixel_connect.Routing.SignedOut.{signed_out, MergesDefaults}
use frixel_connect.Storage.{get_item}
use frixel_connect.Examples.{browser, claims, portal}
use frixel_connect.Portal.{AuthUser, Portal, user_of, logout}
use frixel_connect.Routing.{visit, shows}
use frixel_connect.Routing.Access.{visit-area}
use frixel_connect.Routing.Redirects.{target_is_page, visit_lands}
use frixel_connect.SuperAdmin.{Console, LoginStep, SuperAdminUser}

abbrev starts_with_n : String → Bool
starts_with_n s = s === "NotFound"

abbrev signed_in : Portal
signed_in = record portal { user = some (user_of claims) }

abbrev profile : SuperAdminUser
profile = record { id = "a1"; full_name = "Ann" }

abbrev closed_console : Console
closed_console = record {
  local = [];
  super_admin = none;
  login_step = LoginStep.idle;
  pre_auth_token = none;
  is_loading = false;
  location = "/super-admin/login";
  totp_code = "";
}

abbrev pub open_console : Console
open_console = record closed_console { super_admin = some profile; login_step = LoginStep.done }

visit_lands_example :
    target_is_page signed_in open_console (visit signed_in open_console ("/customer/dashboard"))
    ≡ true
visit_lands_example =
    visit_lands signed_in open_console (record { portal = refl; console = refl })
      ("/customer/dashboard")

visit-area_example : (u : AuthUser) × (signed_in.user ≡ some u) × (u.role ≡ UserRole.admin)
unfolding visit frixel_connect.Routing.protected_route
visit-area_example =
    visit-area signed_in open_console UserRole.admin ("/admin/dashboard") "AdminDashboard" refl
      (λ e. cc (ap starts_with_n e)) refl

abbrev left_page : Page
left_page = record {
  local = (logout signed_in).local;
  session = [];
  is_refreshing = false;
  failed_queue = [];
  default_authorization = none;
  pathname = "/login";
}

abbrev request : Config
request = record { id = 3; retry = false; authorization = none }

abbrev with_default : Option String → Config → Config
with_default default_header config = elim config.authorization [
  | none ↦ record config { authorization = default_header }
  | some _ ↦ config
]

with_default-MergesDefaults : MergesDefaults with_default
with_default-MergesDefaults default_header config e = rw e refl

signed_out_example :
    ((attach_token browser left_page (with_default none request)).authorization ≡ none)
    × ((on_error left_page (record { status = some 401; config = request })).1
        ≡ to_login left_page ++ reject 3 original ∷ [])
    × (visit (logout signed_in) open_console ("/admin/routers") ≢ shows "AdminRouters")
unfolding get_item
signed_out_example =
    signed_out browser with_default with_default-MergesDefaults signed_in left_page request
      open_console UserRole.admin ("/admin/routers") "AdminRouters" refl refl refl refl refl refl
      (λ e. cc (ap starts_with_n e))
