-- ===== src/Examples/Sessions.antt =====
-- The session of one tenant: signed in, reloaded, expired, signed out; and its token, read.
use frixel_connect.Auth.{
  UserRole, decode_token, get_refresh_token, get_token, get_token_for_tenant, percent_encode,
  refresh_key, ◌>>=◌,
}
use frixel_connect.Auth.Decode.{IsStandard, NoDot, decode_token_lem, url_base64}
use frixel_connect.Base.{
  Bool, String, [], ap, arith, false, if◌then◌else◌, none, prepend, refl, some, ◌===◌, ◌≡◌,
}
use frixel_connect.Examples.{
  browser, claims, expired, late_browser, local, portal, stored, text_ne, usable,
}
use frixel_connect.Portal.{home, init_auth, logout, mount, sign_in, user_of}
use frixel_connect.Portal.Laws.{init_auth_expired, mount-logout, mount-sign_in}
use frixel_connect.Storage.{get_item}

abbrev is_theme : String → Bool
is_theme s = s === "theme"

header-NoDot : NoDot "h"
header-NoDot = (omega arith, tt)

payload-IsStandard : IsStandard "a+b/"
payload-IsStandard = (
  omega arith,
  omega arith,
  omega arith,
  (
    omega arith,
    omega arith,
    omega arith,
    (omega arith, omega arith, omega arith, (omega arith, omega arith, omega arith, tt)),
  ),
)

mount-sign_in_example :
    let q = sign_in browser "h.p.s" "r1" UserRole.reseller portal in
    (q.user ≡ some (user_of claims))
    × (q.cache ≡ [])
    × (q.location ≡ home UserRole.reseller)
    × ((init_auth browser (mount q.local ("/reseller/wallet"))).user ≡ some (user_of claims))
    × ((init_auth browser (mount q.local ("/reseller/wallet"))).is_loading ≡ false)
    × ((init_auth browser (mount q.local ("/reseller/wallet"))).local ≡ q.local)
mount-sign_in_example =
    mount-sign_in browser "h.p.s" "r1" "t1" claims usable portal UserRole.reseller
      ("/reseller/wallet")

mount-logout_example :
    ((init_auth browser (mount (logout portal).local ("/admin/users"))).user ≡ none)
    × ((logout portal).user ≡ none)
    × ((logout portal).cache ≡ [])
    × (get_token_for_tenant "t1" (logout portal).local ≡ none)
    × (get_item (refresh_key "t1") (logout portal).local ≡ none)
    × (get_item "theme" (logout portal).local ≡ get_item "theme" portal.local)
mount-logout_example =
    mount-logout browser portal ("/admin/users") "t1" "theme" refl refl (λ e. cc (ap is_theme e))

init_auth_expired_example :
    let q = init_auth late_browser (mount local ("/admin/users")) in
    (q.user ≡ none)
    × (q.is_loading ≡ false)
    × (get_token q.local ≡ none)
    × (get_refresh_token q.local ≡ none)
    × (get_token_for_tenant "t2" q.local
        ≡ (if "t1" === "t2" then none else get_token_for_tenant "t2" local))
    × (get_item (refresh_key "t2") q.local
        ≡ (if "t1" === "t2" then none else get_item (refresh_key "t2") local))
unfolding get_item
init_auth_expired_example =
    init_auth_expired late_browser local ("/admin/users") "h.p.s" "t1" "t2" refl (text_ne "t1" refl)
      stored (text_ne "h.p.s" refl) expired

decode_token_lem_example :
    decode_token browser
      (prepend "h" (String.◌∷◌ "." (prepend (url_base64 ("a+b/")) (String.◌∷◌ "." "s"))))
    ≡ (browser.atob ("a+b/") >>= λ binary.
        browser.decode_uri_component (percent_encode binary) >>= browser.json_parse)
decode_token_lem_example =
    decode_token_lem browser "h" ("a+b/") "s" header-NoDot payload-IsStandard (text_ne "a+b/" refl)
