-- ===== src/Routing/Suspension.antt =====
-- The lock of a suspended tenant.
use frixel_connect.Base.{◌≡◌, refl, ap, ◌∙◌, true, false, String, Option, none, some, arith, truthy}
use frixel_connect.Auth.{Browser, DecodedToken, UserRole, suspended, get_token}
use frixel_connect.Auth.Sessions.{truthy_of_ne}
use frixel_connect.Portal.{Portal, mount, init_auth, sign_in, logout, user_of, is_authenticated}
use frixel_connect.Portal.Laws.{IsUsable, mount-sign_in, get_token-sign_in, logout-user}
use frixel_connect.Routing.{Tenant, is_locked, token_suspended}

is_locked_of_token :
    (b : Browser) (p : Portal) (tenant : Option Tenant) (d : DecodedToken)
    → p.user ≡ some (user_of d)
    → token_suspended b p.local ≡ true
    → is_locked b p tenant ≡ true
unfolding is_locked is_authenticated
is_locked_of_token b p tenant d e h = ground (arith, e, h)

is_locked_of_nobody :
    (b : Browser) (p : Portal) (tenant : Option Tenant)
    → p.user ≡ none
    → is_locked b p tenant ≡ false
unfolding is_locked is_authenticated
is_locked_of_nobody b p tenant e = ground (arith, e)

module _ (b : Browser) (access refresh t : String) (d : DecodedToken) (u : IsUsable b access d t)
    (s : d.tenant_status ≡ some suspended) where
  suspended_of_stored :
      (p : Portal) → get_token p.local ≡ some access → token_suspended b p.local ≡ true
  unfolding token_suspended
  suspended_of_stored p e =
      rw (ap truthy e ∙ truthy_of_ne access u.present, token_suspended)
        (rw (u.decodes, token_suspended) (rw (s, token_suspended) refl))

  -- Whoever signs in with a token that says that the tenant is suspended sees the page of a suspended
  -- tenant, whatever the role and whatever the server says of the tenant, also after a reload; a
  -- logout takes it away.
  pub suspended_sign_in :
      (p : Portal) (role : UserRole) (location : String) (tenant : Option Tenant)
      → let q = sign_in b access refresh role p in
        (is_locked b q tenant ≡ true)
        × (is_locked b (init_auth b (mount q.local location)) tenant ≡ true)
        × (is_locked b (logout q) tenant ≡ false)
  suspended_sign_in p role location tenant =
      let q = sign_in b access refresh role p in
      let (now, cache, place, later, loaded, kept) =
        mount-sign_in b access refresh t d u p role location in
      let stored = get_token-sign_in b access refresh t d u p role in
      (
        is_locked_of_token b q tenant d now (suspended_of_stored q stored),
        is_locked_of_token b (init_auth b (mount q.local location)) tenant d later (
            suspended_of_stored (init_auth b (mount q.local location))
              (ap get_token kept ∙ stored)),
        is_locked_of_nobody b (logout q) tenant (logout-user q),
      )
