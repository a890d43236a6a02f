-- ===== src/Routing/SignedOut.antt =====
-- What is left to someone who has signed out: the requests, their errors, and the pages.
use frixel_connect.Base.{
  ◌≡◌, ◌≢◌, ap, ◌∙◌, true, false, String, Option, none, some, [], ◌∷◌, ◌++◌, arith, starts_with,
}
use frixel_connect.Storage.{get_item}
use frixel_connect.Auth.{Browser, UserRole, active_tenant_key}
use frixel_connect.Auth.Sessions.{
  get_token_of_none, get_refresh_token_of_none, active-clear_all_tenant_tokens,
}
use frixel_connect.Api.{
  Page, Config, reject, original, impersonation_token_key, get_request_token, attach_token,
  to_login, on_error, begin_refresh,
}
use frixel_connect.Portal.{Portal, logout}
use frixel_connect.Portal.Laws.{logout-local, logout-user}
use frixel_connect.SuperAdmin.{Console}
use frixel_connect.Routing.{shows, visit}
use frixel_connect.Routing.Access.{area, visit-area}

-- What axios documents of its defaults: a request without a header of its own has the default one, before the interceptors see it.
abbrev pub MergesDefaults : (Option String → Config → Config) → Type 0
MergesDefaults axios =
    (default_header : Option String) (config : Config)
    → config.authorization ≡ none
    → (axios default_header config).authorization ≡ default_header

module _ (b : Browser) (g : Page) (tenant : get_item active_tenant_key g.local ≡ none)
    (tab : get_item impersonation_token_key g.session ≡ none) where
  attach_token-none : (config : Config) → attach_token b g config ≡ config
  unfolding attach_token get_request_token
  attach_token-none config = ground (arith, tab, get_token_of_none g.local tenant)

  on_error-none :
      (config : Config)
      → config.retry ≡ false
      → g.is_refreshing ≡ false
      → (on_error g (record { status = some 401; config = config })).1
        ≡ to_login g ++ reject config.id original ∷ []
  unfolding on_error begin_refresh
  on_error-none config h k = ground (arith, tab, h, k, get_refresh_token_of_none g.local tenant)

-- Once a user has signed out, in a tab that impersonates nobody and refreshes nothing: a request that brings no header of its own
-- carries just the one that the defaults of axios hold, if they hold one; a first request that the server refuses leads to the
-- login page without a refresh; and no page of the areas of the three roles is shown.
pub signed_out :
    (b : Browser) (axios : Option String → Config → Config) (law : MergesDefaults axios)
    (p : Portal) (g : Page) (config : Config) (c : Console) (r : UserRole) (path name : String)
    → g.local ≡ (logout p).local
    → get_item impersonation_token_key g.session ≡ none
    → g.is_refreshing ≡ false
    → config.retry ≡ false
    → config.authorization ≡ none
    → starts_with path (area r) ≡ true
    → name ≢ "NotFound"
    → ((attach_token b g (axios g.default_authorization config)).authorization
        ≡ g.default_authorization)
      × ((on_error g (record { status = some 401; config = config })).1
          ≡ to_login g ++ reject config.id original ∷ [])
      × (visit (logout p) c path ≢ shows name)
signed_out b axios law p g config c r path name local tab idle fresh bare inside ne =
    let tenant : get_item active_tenant_key g.local ≡ none =
      ap (get_item active_tenant_key) (local ∙ logout-local p)
      ∙ active-clear_all_tenant_tokens p.local in
    (
      ap (λ k. k.authorization)
            (attach_token-none b g tenant tab (axios g.default_authorization config))
          ∙ law g.default_authorization config bare,
      on_error-none b g tenant tab config fresh idle,
      λ shown.
          let (u, found, own) = visit-area (logout p) c r path name inside ne shown in
          cc (found, logout-user p),
    )
