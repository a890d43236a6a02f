-- ===== src/Examples/Consoles.antt =====
-- The super admin: a password, a code, and the storage that the tenant portal shares.
use frixel_connect.Auth.{
  clear_all_tenant_tokens, clear_refresh_token, clear_token, save_refresh_token, save_token,
}
use frixel_connect.Base.{[], false, none, refl, some, ◌∷◌, ◌≡◌, ◌≢◌}
use frixel_connect.Examples.{browser, local}
use frixel_connect.SuperAdmin.{
  Console, LoginStep, Reader, SuperAdminClaims, SuperAdminUser, View, accepts_password,
  decode_super_admin_token, get_super_admin_token, init_super_admin, is_super_admin_token_expired,
  mount, rejects, run, super_admin_route, types,
}
use frixel_connect.SuperAdmin.Access.{IsSignedOut, no_access_without_code}
use frixel_connect.SuperAdmin.Isolation.{tenant_keeps_super}

abbrev profile : SuperAdminUser
profile = record { id = "a1"; full_name = "Ann" }

abbrev admin_claims : SuperAdminClaims
admin_claims = record { sub = "a1"; full_name = none; exp = 5 }

abbrev reader : Reader
reader = λ bs. some admin_claims

abbrev closed_console : Console
closed_console = record {
  local = [];
  super_admin = none;
  login_step = LoginStep.idle;
  pre_auth_token = none;
  is_loading = false;
  location = "/super-admin/login";
  totp_code = "";
}

closed-IsSignedOut : IsSignedOut closed_console
unfolding get_super_admin_token frixel_connect.Storage.get_item
closed-IsSignedOut = record { nobody = refl; tokenless = refl }

reader-decodes : decode_super_admin_token browser reader "h.p.s" ≡ some admin_claims
unfolding decode_super_admin_token
reader-decodes = refl

reader-lasts : is_super_admin_token_expired browser reader "h.p.s" ≡ false
unfolding is_super_admin_token_expired decode_super_admin_token
reader-lasts = refl

no_access_without_code_example :
    (super_admin_route
        (run closed_console (accepts_password "pre" false ∷ types "123456" ∷ rejects ∷ []))
      ≢ View.outlet)
    × (super_admin_route (
          init_super_admin browser reader (
            mount
              (run closed_console
                (accepts_password "pre" false ∷ types "123456" ∷ rejects ∷ [])).local
              ("/super-admin/dashboard")))
        ≡ View.redirect "/super-admin/login")
no_access_without_code_example =
    no_access_without_code browser reader closed_console
      (accepts_password "pre" false ∷ types "123456" ∷ rejects ∷ []) ("/super-admin/dashboard")
      closed-IsSignedOut (tt, (tt, (tt, tt)))

tenant_keeps_super_example :
    (get_super_admin_token (save_token "h.p.s" "t1" local) ≡ get_super_admin_token local)
    × (get_super_admin_token (save_refresh_token "h.p.s" "t1" local) ≡ get_super_admin_token local)
    × (get_super_admin_token (clear_token local) ≡ get_super_admin_token local)
    × (get_super_admin_token (clear_refresh_token local) ≡ get_super_admin_token local)
    × (get_super_admin_token (clear_all_tenant_tokens local) ≡ get_super_admin_token local)
tenant_keeps_super_example = tenant_keeps_super "h.p.s" "t1" local
