-- ===== src/Cache.antt =====
-- The hooks of frontend/src/hooks that ask the server and that change something there, and the query
-- client that keeps the answers: what a hook gives it, and what a change makes stale.
pub mod Client
pub mod Reads
pub mod Writes
pub mod Collections
pub mod Isolation
pub mod Addresses
pub mod Freshness
pub mod Wallet
pub mod Sessions
pub mod Console
pub mod Changes
use frixel_connect.Base.{
  ℕ, Bool, true, String, Option, none, some, List, is_empty, not, if◌then◌else◌, [],
}
use frixel_connect.Portal.{AuthUser}

-- What a hook gives `useQuery`. `K` holds the parts of a key, `params` the parameters of the address; the times are in
-- milliseconds, and `none` where the hook gives none.
pub record QueryOptions {ℓ} (K : Type ℓ) : Type ℓ where
  pub query_key : List K
  pub url : String
  pub params : List (String × K)
  pub enabled : Bool
  pub stale_time : Option ℕ
  pub refetch_interval : Option ℕ

pub data Method : Type 0 where
  post put delete : Method

-- One call of what a hook gives `useMutation`: the request, and the keys that its `onSuccess` gives
-- `invalidateQueries`. `D` holds the bodies.
pub record Mutation {ℓ κ} (K : Type ℓ) (D : Type κ) : Type (ℓ ⊔ κ) where
  pub method : Method
  pub url : String
  pub body : Option D
  pub on_success : List (List K)

-- `user?.tenant_id ?? ''` and `user?.user_id ?? ''`.
unfoldable pub tenant_id_of : Option AuthUser → String
tenant_id_of none = ""
tenant_id_of (some user) = elim user.tenant_id [ none ↦ "" | some tenant_id ↦ tenant_id ]

unfoldable pub user_id_of : Option AuthUser → String
user_id_of none = ""
user_id_of (some user) = user.user_id

-- `!!tenantId`.
abbrev pub is_set : String → Bool
is_set s = not (is_empty s)

-- `if (tenantId)` in front of what `onSuccess` does.
unfoldable pub if_tenant {ℓ} : {K : Type ℓ} → String → List (List K) → List (List K)
if_tenant tenant_id keys = if is_empty tenant_id then [] else keys
