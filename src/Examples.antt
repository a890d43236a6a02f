-- ===== src/Examples.antt =====
-- Concrete inputs, and each property at one of them: a browser whose storage holds the session of
-- one tenant, requests that fail, pages that are opened, forms that are filled in.
mod Requests
mod Sessions
mod Pages
mod Consoles
mod Tabs
mod Texts
mod Setup
mod Portals
mod Signups
mod Tables
mod Purchases
mod Caches
mod Logs
mod Details
mod Lists
mod Sales
use frixel_connect.Base.{
  ◌≡◌, refl, inl, String, List, [], ◌∷◌, some, none, true, false, ◌≢◌, is_empty, of_not_empty,
}
use frixel_connect.Storage.{Storage}
use frixel_connect.Auth.{
  Browser, DecodedToken, UserRole, TenantStatus, decode_token, is_token_expired, token_key,
  get_token,
}
use frixel_connect.Portal.{Portal, mount}
use frixel_connect.Portal.Laws.{IsUsable}
use frixel_connect.SuperAdmin as Admin

pub text_ne : (s : String) → is_empty s ≡ false → s ≢ ""
text_ne s e = of_not_empty s s refl e

abbrev pub claims : DecodedToken
claims = record {
  sub = "u1";
  role = UserRole.admin;
  reseller_id = none;
  tenant_id = some "t1";
  tenant_status = some TenantStatus.suspended;
  exp = 5;
  iat = 1;
}

-- A browser in which every text decodes to these claims, before and after their end.
abbrev pub browser : Browser
browser = record {
  atob = λ s. some (104 ∷ []);
  decode_uri_component = λ bs. some bs;
  json_parse = λ bs. some claims;
  now_ms = 1000;
}

abbrev pub late_browser : Browser
late_browser = record browser { now_ms = 9000 }

abbrev pub local : Storage
local =
    ("Frixel Connect_active_tenant", "t1")
    ∷ ("Frixel Connect_token_t1", "h.p.s")
    ∷ ("Frixel Connect_refresh_t1", "r1")
    ∷ ("theme", "dark")
    ∷ []

pub decoded : decode_token browser "h.p.s" ≡ some claims
unfolding decode_token
decoded = refl

pub unexpired : is_token_expired browser "h.p.s" ≡ false
unfolding is_token_expired decode_token
unexpired = refl

pub expired : is_token_expired late_browser "h.p.s" ≡ true
unfolding is_token_expired decode_token
expired = refl

pub stored : get_token local ≡ some "h.p.s"
unfolding get_token frixel_connect.Storage.get_item token_key
stored = refl

pub usable : IsUsable browser "h.p.s" claims "t1"
usable = record {
  decodes = decoded;
  present = text_ne "h.p.s" refl;
  tenant = refl;
  named = text_ne "t1" refl;
  lasts = unexpired;
}

abbrev pub portal : Portal
portal = record {
  local = local;
  user = none;
  is_loading = false;
  cache = ("packages" ∷ []) ∷ [];
  location = "/login";
}
