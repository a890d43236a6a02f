-- ===== src/Examples/Tabs.antt =====
-- An impersonation: the super admin window and the tab that it opens.
use frixel_connect.Api.{Config, Page, impersonation_token_key}
use frixel_connect.Base.{[], false, none, refl, some, true, ◌∷◌, ◌≡◌}
use frixel_connect.Examples.{text_ne}
use frixel_connect.Impersonation.{
  Opener, Tab, on_opener_message, on_tab_message, ready, start_impersonation, start_tab, token,
}
use frixel_connect.Impersonation.Handover.{handover}
use frixel_connect.Storage.{get_item}

abbrev opener : Opener
opener = record { origin = "https://x"; listeners = [] }

abbrev tab : Tab
tab = record { origin = "https://x"; session = []; listening = false }

abbrev config : Config
config = record { id = 7; retry = false; authorization = none }

abbrev page : Page
page = record {
  local = [];
  session = ("Frixel Connect_impersonation_token", "i.j.k") ∷ [];
  is_refreshing = false;
  failed_queue = [];
  default_authorization = none;
  pathname = "/";
}

handover_example :
    let opened = start_impersonation (some 1) "i.j.k" opener in
    let told = on_opener_message tab.origin ready opened in
    let arrived = on_tab_message opener.origin (token "i.j.k") (start_tab true tab).0 in
    ((start_tab true tab).1 ≡ true)
    × (told.1 ≡ (1, "i.j.k") ∷ [])
    × (told.0.listeners ≡ [])
    × (get_item impersonation_token_key arrived.session ≡ some "i.j.k")
    × (arrived.listening ≡ false)
unfolding get_item
handover_example = handover opener tab 1 "i.j.k" refl refl refl (text_ne "i.j.k" refl)
