-- ===== src/Examples/Signups.antt =====
-- A sign-up, and the sidebar of who signed up.
use frixel_connect.Base.{◌≡◌, refl, true, none, some, truthy}
use frixel_connect.Auth.{get_refresh_token}
use frixel_connect.Portal.{init_auth, mount, user_of}
use frixel_connect.Onboarding.{pppoe, open_shell, initial_state, is_onboarding_incomplete}
use frixel_connect.Phone.{is_kenyan_phone, format_phone}
use frixel_connect.Signup.{Tier, SignupForm, accepts_phone, register_body, on_registered}
use frixel_connect.Signup.Start.{on_registered_lem}
use frixel_connect.Signup.Fields.{accepts_phone_lem}
use frixel_connect.Routers.{MikrotikRouter, RouterStatus}
use frixel_connect.Examples.{browser, claims, portal, usable}
use frixel_connect.Examples.Texts.{codec, codec-IsFaithful}

abbrev form : SignupForm
form = record {
  business_name = "Hill Net";
  owner_name = "Ann";
  owner_email = "ann@hill.net";
  owner_phone = "0712 345 678";
  password = "secret-8";
  subscription_tier = Tier.growth;
  service_type = pppoe;
}

abbrev router : MikrotikRouter
router = record { id = "r1"; name = "North"; status = RouterStatus.online; service_type = none }

on_registered_lem_example :
    let q = on_registered browser codec "h.p.s" "now" form portal in
    (q.user ≡ some (user_of claims))
    × (q.location ≡ "/admin/onboarding")
    × ((open_shell codec "later" q.local).state ≡ initial_state pppoe "now")
    × (is_onboarding_incomplete codec q.local ≡ true)
    × ((init_auth browser (mount q.local ("/admin/packages"))).user ≡ some (user_of claims))
    × (truthy (get_refresh_token q.local) ≡ none)
on_registered_lem_example =
    on_registered_lem browser codec "h.p.s" "now" "later" "t1" ("/admin/packages") claims form
      portal usable codec-IsFaithful

accepts_phone_lem_example :
    (accepts_phone "0712 345 678" ≡ is_kenyan_phone (register_body form).owner_phone)
    × (accepts_phone (format_phone "0712345678") ≡ true)
accepts_phone_lem_example = accepts_phone_lem form "712345678" refl
