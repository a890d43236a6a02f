-- ===== src/Hotspot/Login.antt =====
-- The login at the router: frontend/src/components/hotspot/HotspotLoginRedirect.tsx, its state and the
-- request of a login. `encodeURIComponent` is the parameter `encode`.
use Prim.Native.Char.{code}
use frixel_connect.Base.{
  Bool, true, false, String, Option, none, some, if◌then◌else◌, ◌==◌, ◌||◌, is_empty, prepend,
  starts_with,
}

-- `HotspotLoginRedirect`: its state, and the request of a login.
pub record Redirect : Type 0 where
  pub is_logging_in : Bool
  pub is_online : Bool

pub record LoginPost : Type 0 where
  pub url : String
  pub body : String

-- `linkLogin.split('?')[0]`.
pub before_query : String → String
before_query String.[] = String.[]
before_query (String.◌∷◌ c s) =
    let rest = before_query s in if code c == b'?' then String.[] else String.◌∷◌ c rest

module _ (encode : String → String) (voucher_code link_login : String) where
  abbrev pub login_post : LoginPost
  login_post =
      let base_url = before_query link_login in
      record {
        url = if starts_with base_url "http" then base_url else prepend "http://" base_url;
        body =
            prepend "username="
              (prepend (encode voucher_code) (prepend "&password=" (encode voucher_code)));
      }

  -- `performLogin`, up to its request. It reads the state of the render that made it, `seen`.
  unfoldable pub perform_login : Redirect → Redirect → Redirect × Option LoginPost
  unfolding before_query
  perform_login seen r =
      if is_empty link_login || (seen.is_logging_in || seen.is_online)
      then (r, none)
      else (record r { is_logging_in = true }, some login_post)

unfoldable pub on_login_posted : Redirect → Redirect
on_login_posted r = record r { is_logging_in = false; is_online = true }

abbrev pub fresh_redirect : Redirect
fresh_redirect = record { is_logging_in = false; is_online = false }
