-- ===== src/Examples/Caches.antt =====
-- A query client that notes the keys it is given, and what changes make stale there.
use frixel_connect.Base.{
  ◌≡◌, refl, ap, ◌∙◌, ◌⊎◌, inl, inr, Bool, true, false, ◌&&◌, String, Option, none, some, List, [],
  ◌∷◌, ◌++◌, any, arith, ◌===◌, ◌==◌, eq_iff, Bool-cases, is_empty,
}
use frixel_connect.Auth.{UserRole}
use frixel_connect.Portal.{AuthUser, login, logout, tenant_of}
use frixel_connect.Queries.{Part, text, number, key_of}
use frixel_connect.Cache.Client.{QueryClient, MatchesPrefixes, invalidate_all}
use frixel_connect.Cache.Console.{
  ConsolePart, tenants_params, audit_log_params, GetTenantsParams, GetAuditLogParams, use_tenants,
  use_tenant_detail, use_platform_stats, use_super_admins, use_super_admin_audit_log,
  use_suspend_tenant, use_reactivate_tenant,
}
use frixel_connect.Cache.Isolation.{mutation-own_tenant}
use frixel_connect.Cache.Freshness.{mutation-query_options, IsStale}
use frixel_connect.Cache.{tenant_id_of, user_id_of, if_tenant}
use frixel_connect.Cache.Reads.{use_admin_vouchers, use_admin_subscriptions}
use frixel_connect.Cache.Writes.{use_suspend_subscription, use_generate_wallet_voucher}
use frixel_connect.Cache.Collections.{
  Write, Filter, query_options, mutation, suspend_subscription, generate_wallet_voucher,
  admin_vouchers, admin_subscriptions,
}
use frixel_connect.Queries.{vouchers_reseller, vouchers_admin}
use frixel_connect.Cache.Sessions.{logout-login}
use frixel_connect.Examples.{browser, portal, decoded}
use frixel_connect.Queries.Keys.{scope_of}
use frixel_connect.Cache.Console

-- A test for equality.
record IsEquality {ℓ} {K : Type ℓ} (eq : K → K → Bool) : Type ℓ where
  reflexive : (a : K) → eq a a ≡ true
  sound : (a b : K) → eq a b ≡ true → a ≡ b

module _ {ℓ} {K : Type ℓ} (eq : K → K → Bool) where
  abbrev is_prefix : List K → List K → Bool
  is_prefix [] k = true
  is_prefix (a ∷ f) [] = false
  is_prefix (a ∷ f) (b ∷ k) = eq a b && is_prefix f k

  -- The keys that were invalidated are kept; what begins with one of them is stale.
  abbrev noting : QueryClient K (List (List K))
  noting = record {
    invalidate_queries = λ key c. key ∷ c;
    is_stale = λ k c. any (λ key. is_prefix key k) c;
  }

module _ {ℓ} {K : Type ℓ} (eq : K → K → Bool) (v : IsEquality eq) where
  is_prefix-append : (f rest : List K) → is_prefix eq f (f ++ rest) ≡ true
  is_prefix-append [] rest = refl
  is_prefix-append (a ∷ f) rest = rw (v.reflexive a) (is_prefix-append f rest)

  prefix-rest : (f k : List K) → is_prefix eq f k ≡ true → (rest : List K) × (f ++ rest ≡ k)
  prefix-rest [] k h = (k, refl)
  prefix-rest (a ∷ f) [] h = cc
  prefix-rest (a ∷ f) (b ∷ k) h = elim (Bool-cases (eq a b)) [
    | inl e ↦
        let (rest, p) = prefix-rest f k (ground (arith, e, h)) in
        (rest, ap (λ j. a ∷ j) p ∙ ap (λ j. j ∷ k) (v.sound a b e))
    | inr e ↦ cc (e, h)
  ]

  noting-MatchesPrefixes : MatchesPrefixes (noting eq)
  noting-MatchesPrefixes = record {
    marks = λ key rest c. ground (arith, is_prefix-append key rest);
    keeps = λ key k c h. ground (arith, h);
    only = λ key k c h. elim (Bool-cases (is_prefix eq key k)) [
      | inl e ↦ inr (prefix-rest key k e)
      | inr e ↦ inl (ground (arith, e, h))
    ];
  }

abbrev part_eq : Part → Part → Bool
part_eq (text s) (text t) = s === t
part_eq (number n) (number m) = n == m
part_eq _ _ = false

part_eq_refl : (a : Part) → part_eq a a ≡ true
part_eq_refl (text s) = ground (arith, eq_iff s s)
part_eq_refl (number n) = ground arith

part_eq_sound : (a b : Part) → part_eq a b ≡ true → a ≡ b
part_eq_sound (text s) (text t) h = ground (arith, eq_iff s t)
part_eq_sound (text s) (number m) h = cc
part_eq_sound (number n) (text t) h = cc
part_eq_sound (number n) (number m) h = ground arith

part_eq-IsEquality : IsEquality part_eq
part_eq-IsEquality = record { reflexive = part_eq_refl; sound = part_eq_sound }

abbrev option_eq : Option String → Option String → Bool
option_eq none none = true
option_eq (some s) (some t) = s === t
option_eq _ _ = false

option_eq_refl : (a : Option String) → option_eq a a ≡ true
option_eq_refl none = refl
option_eq_refl (some s) = ground (arith, eq_iff s s)

option_eq_sound : (a b : Option String) → option_eq a b ≡ true → a ≡ b
option_eq_sound none none h = refl
option_eq_sound none (some t) h = cc
option_eq_sound (some s) none h = cc
option_eq_sound (some s) (some t) h = ground (arith, eq_iff s t)

abbrev console_eq : ConsolePart → ConsolePart → Bool
console_eq (Console.text s) (Console.text t) = s === t
console_eq (Console.number n) (Console.number m) = n == m
console_eq (tenants_params p) (tenants_params q) =
    p.page == q.page
    && (p.limit == q.limit && (option_eq p.status q.status && option_eq p.search q.search))
console_eq (audit_log_params p) (audit_log_params q) =
    p.page == q.page && (p.limit == q.limit && option_eq p.action q.action)
console_eq _ _ = false

console_eq_refl : (a : ConsolePart) → console_eq a a ≡ true
console_eq_refl (Console.text s) = ground (arith, eq_iff s s)
console_eq_refl (Console.number n) = ground arith
console_eq_refl (tenants_params p) =
    ground (arith, option_eq_refl p.status, option_eq_refl p.search)
console_eq_refl (audit_log_params p) = ground (arith, option_eq_refl p.action)

console_eq_sound : (a b : ConsolePart) → console_eq a b ≡ true → a ≡ b
console_eq_sound (Console.text s) (Console.text t) h = ground (arith, eq_iff s t)
console_eq_sound (Console.text s) (Console.number m) h = cc
console_eq_sound (Console.text s) (tenants_params q) h = cc
console_eq_sound (Console.text s) (audit_log_params q) h = cc
console_eq_sound (Console.number n) (Console.text t) h = cc
console_eq_sound (Console.number n) (Console.number m) h = ground arith
console_eq_sound (Console.number n) (tenants_params q) h = cc
console_eq_sound (Console.number n) (audit_log_params q) h = cc
console_eq_sound (tenants_params p) (Console.text t) h = cc
console_eq_sound (tenants_params p) (Console.number m) h = cc
console_eq_sound (tenants_params p) (tenants_params q) h =
    ground (arith, option_eq_sound p.status q.status, option_eq_sound p.search q.search)
console_eq_sound (tenants_params p) (audit_log_params q) h = cc
console_eq_sound (audit_log_params p) (Console.text t) h = cc
console_eq_sound (audit_log_params p) (Console.number m) h = cc
console_eq_sound (audit_log_params p) (tenants_params q) h = cc
console_eq_sound (audit_log_params p) (audit_log_params q) h =
    ground (arith, option_eq_sound p.action q.action)

console_eq-IsEquality : IsEquality console_eq
console_eq-IsEquality = record { reflexive = console_eq_refl; sound = console_eq_sound }

abbrev body : String
body = "{}"

abbrev reseller : Option AuthUser
reseller = some (record { user_id = "u2"; role = UserRole.reseller; tenant_id = some "t1" })

abbrev client : QueryClient Part (List (List Part))
client = noting part_eq

abbrev law : MatchesPrefixes client
law = noting-MatchesPrefixes part_eq part_eq-IsEquality

mutation-own_tenant_example :
    (client.is_stale (key_of vouchers_reseller "t1") [] ≡ true)
    ⊎ ((scope_of vouchers_reseller "t1" ≡ some "t1") × (is_empty "t1" ≡ false))
unfolding mutation use_generate_wallet_voucher invalidate_all if_tenant tenant_id_of user_id_of
    key_of
mutation-own_tenant_example =
    mutation-own_tenant client law (generate_wallet_voucher body) reseller vouchers_reseller "t1" []
      refl

abbrev suspension : Write String
suspension = suspend_subscription "s1"

abbrev filter : Filter
filter = record { status = some "Active"; action = none; limit = 20; offset = 0 }

mutation-query_options_example :
    IsStale client law (λ s. s) reseller filter [] suspension admin_subscriptions
unfolding query_options mutation use_suspend_subscription use_admin_subscriptions tenant_id_of
mutation-query_options_example =
    mutation-query_options client law (λ s. s) reseller filter [] suspension admin_subscriptions
      refl refl refl

abbrev page : GetTenantsParams
page = record { page = 2; limit = 10; status = some "active"; search = none }

abbrev log : GetAuditLogParams
log = record { page = 1; limit = 25; action = none }

abbrev console : QueryClient ConsolePart (List (List ConsolePart))
console = noting console_eq

asked_again :
    (query_options
      (λ s. s)
      admin_vouchers
      filter
      (login browser "h.p.s" "r1" (logout portal)).user).query_key
    ≡ key_of vouchers_admin "t1"
unfolding query_options use_admin_vouchers login tenant_id_of
asked_again = rw (decoded, login) (rw decoded refl)

logout-login_example :
    let next = login browser "h.p.s" "r1" (logout portal) in
    ((query_options (λ s. s) admin_vouchers filter (logout portal).user).enabled ≡ false)
    × (next.cache ≡ [])
    × (scope_of vouchers_admin "t1" ≡ some "t1")
logout-login_example =
    logout-login (λ s. s) browser "h.p.s" "r1" "t1" portal admin_vouchers filter vouchers_admin "t1"
      (ap tenant_of decoded) asked_again
