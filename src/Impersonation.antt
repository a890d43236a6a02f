-- ===== src/Impersonation.antt =====
-- Impersonation of a tenant in a tab of its own: `handleStartImpersonation` of
-- frontend/src/pages/super-admin/TenantsPage.tsx and TenantDetailPage.tsx, and the listener in
-- frontend/src/main.tsx. The tabs talk by messages, each with the origin of its sender.
pub mod Handover
use frixel_connect.Base.{
  ℕ, Bool, true, false, String, List, [], ◌∷◌, ◌++◌, Option, none, some, if◌then◌else◌, ◌==◌, ◌===◌,
  ◌&&◌, not, is_some, truthy,
}
use frixel_connect.Storage.{Storage, get_item, set_item}
use frixel_connect.Api.{impersonation_token_key}

pub data Message : Type 0 where
  ready : Message
  token : String → Message

-- The super admin's window: a listener for each opened tab, with the token that it will post.
pub record Opener : Type 0 where
  pub origin : String
  pub listeners : List (ℕ × String)

-- The server's token has come, and `window.open` gave a tab, or none where it was blocked.
unfoldable pub start_impersonation : Option ℕ → String → Opener → Opener
start_impersonation none t o = o
start_impersonation (some tab) t o = record o { listeners = o.listeners ++ (tab, t) ∷ [] }

-- `handleReady` of every listener: each posts its token to its own tab and is removed.
unfoldable pub on_opener_message : String → Message → Opener → Opener × List (ℕ × String)
on_opener_message origin (token t) o = (o, [])
on_opener_message origin ready o =
    if origin === o.origin then (record o { listeners = [] }, o.listeners) else (o, [])

-- The new tab.
pub record Tab : Type 0 where
  pub origin : String
  pub session : Storage
  pub listening : Bool

-- The start of main.tsx: the tab, and whether it tells its opener that it is ready.
unfoldable pub start_tab : Bool → Tab → Tab × Bool
start_tab has_opener t =
    if has_opener && not (is_some (truthy (get_item impersonation_token_key t.session)))
    then (record t { listening = true }, true)
    else (record t { listening = false }, false)

-- `handleImpersonationToken`; the reload starts main.tsx again.
unfoldable pub on_tab_message : String → Message → Tab → Tab
unfolding start_tab
on_tab_message origin ready t = t
on_tab_message origin (token s) t =
    if t.listening && origin === t.origin
    then (start_tab true (record t { session = set_item impersonation_token_key s t.session })).0
    else t
