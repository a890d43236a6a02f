-- ===== src/Impersonation/Handover.antt =====
-- How the token reaches the new tab, and what the tab does with it.
use frixel_connect.Base.{
  ℕ, ◌≡◌, refl, ◌≢◌, true, false, String, List, [], ◌∷◌, none, some, arith, eq_refl, eq_iff, truthy,
}
use frixel_connect.Storage.{get_item}
use frixel_connect.Storage.Laws.{get_item-set_item}
use frixel_connect.Auth.{Browser, UserRole, get_token}
use frixel_connect.Auth.Sessions.{truthy_of_ne}
use frixel_connect.Portal.{Portal}
use frixel_connect.Portal
use frixel_connect.Portal.Laws.{init_auth_signed_out}
use frixel_connect.SuperAdmin.{redirect}
use frixel_connect.Routing.{protected_route}
use frixel_connect.Api.{Page, Config, impersonation_token_key, attach_token, bearer}
use frixel_connect.Api.Headers.{truthy_idem}
use frixel_connect.Impersonation.{
  Message, ready, token, Opener, start_impersonation, on_opener_message, Tab, start_tab,
  on_tab_message,
}

handover_kept :
    (o : Opener) (t : Tab) (s : String)
    → t.origin ≡ o.origin
    → truthy (get_item impersonation_token_key t.session) ≡ none
    → get_item impersonation_token_key
        (on_tab_message o.origin (token s) (start_tab true t).0).session
      ≡ some s
unfolding start_tab on_tab_message
handover_kept o t s same absent = ground (
  arith,
  eq_iff o.origin t.origin,
  get_item-set_item impersonation_token_key impersonation_token_key s t.session,
)

-- The whole handover, between windows of one origin: the first tab that the super admin opens
-- reports itself, is posted the token made for it, and keeps it over its reload. It then listens
-- to no further message, and the opener keeps no token.
pub handover :
    (o : Opener) (t : Tab) (tab : ℕ) (s : String)
    → o.listeners ≡ []
    → t.origin ≡ o.origin
    → truthy (get_item impersonation_token_key t.session) ≡ none
    → s ≢ ""
    → let opened = start_impersonation (some tab) s o in
      let told = on_opener_message t.origin ready opened in
      let arrived = on_tab_message o.origin (token s) (start_tab true t).0 in
      ((start_tab true t).1 ≡ true)
      × (told.1 ≡ (tab, s) ∷ [])
      × (told.0.listeners ≡ [])
      × (get_item impersonation_token_key arrived.session ≡ some s)
      × (arrived.listening ≡ false)
unfolding start_impersonation on_opener_message start_tab on_tab_message
handover o t tab s e same absent ne = (
  ground arith,
  ground (arith, eq_iff t.origin o.origin),
  ground (arith, eq_iff t.origin o.origin),
  handover_kept o t s same absent,
  ground (
    arith,
    eq_iff o.origin t.origin,
    get_item-set_item impersonation_token_key impersonation_token_key s t.session,
    truthy_of_ne s ne,
  ),
)

-- A message from another origin changes nothing in either window.
pub foreign_message :
    (o : Opener) (t : Tab) (origin : String) (m : Message)
    → origin ≢ o.origin
    → origin ≢ t.origin
    → (on_opener_message origin m o ≡ (o, [])) × (on_tab_message origin m t ≡ t)
unfolding on_opener_message on_tab_message
foreign_message o t origin ready f g = ground (arith, eq_iff origin o.origin)
foreign_message o t origin (token s) f g = ground (arith, eq_iff origin t.origin)

-- The listeners do not look at the sender. Where two tabs are opened before the first reports
-- itself, its report makes the opener post both tokens and drop both listeners: when the second
-- tab reports itself, nothing is posted to it any more.
pub second_tab_unanswered :
    (o : Opener) (first second : ℕ) (s r : String)
    → o.listeners ≡ []
    → let opened = start_impersonation (some second) r (start_impersonation (some first) s o) in
      let told = on_opener_message o.origin ready opened in
      (told.1 ≡ (first, s) ∷ (second, r) ∷ []) × ((on_opener_message o.origin ready told.0).1 ≡ [])
unfolding start_impersonation on_opener_message
second_tab_unanswered o first second s r e = ground (arith, eq_refl o.origin)

-- In a browser without a tenant's session the new tab never reaches the pages of the tenant: its
-- requests carry the impersonation token, but the provider, which reads the local storage alone,
-- finds nobody signed in, and every guard of roles leads to the login page.
pub impersonation_needs_session :
    (b : Browser) (p : Page) (config : Config) (s location : String) (allowed : List UserRole)
    → truthy (get_item impersonation_token_key p.session) ≡ some s
    → get_token p.local ≡ none
    → ((attach_token b p config).authorization ≡ some (bearer s))
      × (protected_route allowed (Portal.init_auth b (Portal.mount p.local location))
          ≡ redirect "/login")
unfolding attach_token protected_route Portal.mount
impersonation_needs_session b p config s location allowed h e = (
  ground (arith, truthy_idem (get_item impersonation_token_key p.session) s h),
  rw (init_auth_signed_out b (Portal.mount p.local location) e) refl,
)
