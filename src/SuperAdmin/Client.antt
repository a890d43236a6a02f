-- ===== src/SuperAdmin/Client.antt =====
-- The token of a super admin and the interceptors of frontend/src/lib/superAdminApi.ts.
use frixel_connect.Base.{ℕ, String, Option, none, some, if◌then◌else◌, ◌===◌, ◌||◌, truthy, get_or}
use frixel_connect.Storage.{Storage, get_item, set_item, remove_item}
use frixel_connect.Api.{bearer, has_status}

abbrev pub super_admin_token_key : String
super_admin_token_key = "Frixel Connect_super_admin_token"

unfoldable pub get_super_admin_token : Storage → Option String
get_super_admin_token s = get_item super_admin_token_key s

unfoldable pub save_super_admin_token : String → Storage → Storage
save_super_admin_token token s = set_item super_admin_token_key token s

unfoldable pub clear_super_admin_token : Storage → Storage
clear_super_admin_token s = remove_item super_admin_token_key s

-- `url.replace(/\/api\/v1\/?$/, '')`.
pub strip_api : String → String
strip_api String.[] = String.[]
strip_api (String.◌∷◌ c s) =
    let rest = strip_api s in
    if String.◌∷◌ c s === "/api/v1" || String.◌∷◌ c s === "/api/v1/"
    then String.[]
    else String.◌∷◌ c rest

-- `url` is `import.meta.env.VITE_API_BASE_URL`.
pub get_base_url : Option String → String
unfolding strip_api
get_base_url url = strip_api (get_or (truthy url) "http://localhost:8000/api/v1")

-- The Authorization header that the request interceptor sets, if any.
unfoldable pub super_admin_header : Storage → Option String
unfolding get_super_admin_token
super_admin_header s = elim (truthy (get_super_admin_token s)) [
  | none ↦ none
  | some token ↦ some (bearer token)
]

-- The error handler of the response interceptor: the storage, and the address that it goes to.
unfoldable pub on_super_admin_error : Option ℕ → String → Storage → Storage × Option String
unfolding clear_super_admin_token
on_super_admin_error status pathname s =
    if has_status 401 status
    then (
      clear_super_admin_token s,
      if pathname === "/super-admin/login" then none else some "/super-admin/login",
    )
    else (s, none)
