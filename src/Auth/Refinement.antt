-- ===== src/Auth/Refinement.antt =====
-- What auth.ts promises, without keys and texts: the active tenant, and for each tenant an access
-- token and a refresh token. The functions on the storage implement it.
use frixel_connect.Base.{
  ◌≡◌, refl, String, List, [], ◌∷◌, Option, none, some, ◌===◌, truthy, if◌then◌else◌, Option-cases,
  inl, inr,
}
use frixel_connect.Storage.{Storage, get_item}
use frixel_connect.Auth.{
  token_key, refresh_key, active_tenant_key, save_token, get_token, get_token_for_tenant,
  clear_token, clear_all_tenant_tokens, save_refresh_token, get_refresh_token, clear_refresh_token,
}
use frixel_connect.Auth.Sessions.{storage_laws}

pub record Sessions : Type 0 where
  pub active : Option String
  pub access : String → Option String
  pub refresh : String → Option String

pub data Operation : Type 0 where
  save_access : String → String → Operation
  save_refresh : String → String → Operation
  end_active : Operation
  drop_refresh : Operation
  end_all : Operation

abbrev pub perform : Operation → Storage → Storage
perform (save_access token tenant) s = save_token token tenant s
perform (save_refresh token tenant) s = save_refresh_token token tenant s
perform end_active s = clear_token s
perform drop_refresh s = clear_refresh_token s
perform end_all s = clear_all_tenant_tokens s

abbrev pub perform_all : List Operation → Storage → Storage
perform_all [] s = s
perform_all (o ∷ os) s = perform_all os (perform o s)

abbrev put : String → Option String → (String → Option String) → String → Option String
put t v f u = if t === u then v else f u

-- A tenant with an empty id is never the current one.
abbrev pub current : Sessions → Option String
current m = truthy m.active

abbrev pub intend : Operation → Sessions → Sessions
intend (save_access token tenant) m = record m {
  active = some tenant;
  access = put tenant (some token) m.access;
}
intend (save_refresh token tenant) m = record m { refresh = put tenant (some token) m.refresh }
intend end_active m = elim (current m) [
  | none ↦ record m { active = none }
  | some t ↦ record { active = none; access = put t none m.access; refresh = put t none m.refresh }
]
intend drop_refresh m = elim (current m) [
  | none ↦ m
  | some t ↦ record m { refresh = put t none m.refresh }
]
intend end_all m = record { active = none; access = λ t. none; refresh = λ t. none }

abbrev pub intend_all : List Operation → Sessions → Sessions
intend_all [] m = m
intend_all (o ∷ os) m = intend_all os (intend o m)

-- The storage holds these sessions.
pub record Implements (s : Storage) (m : Sessions) : Type 0 where
  pub active : get_item active_tenant_key s ≡ m.active
  pub access : (t : String) → get_item (token_key t) s ≡ m.access t
  pub refresh : (t : String) → get_item (refresh_key t) s ≡ m.refresh t

perform-save_access :
    (token tenant : String) (s : Storage) (m : Sessions)
    → Implements s m
    → Implements (save_token token tenant s) (intend (save_access token tenant) m)
unfolding save_token
perform-save_access token tenant s m v = record {
  active = simp storage_laws;
  access = λ t. simp storage_laws (rw (v.access t) refl);
  refresh = λ t. simp storage_laws (v.refresh t);
}

perform-save_refresh :
    (token tenant : String) (s : Storage) (m : Sessions)
    → Implements s m
    → Implements (save_refresh_token token tenant s) (intend (save_refresh token tenant) m)
unfolding save_refresh_token
perform-save_refresh token tenant s m v = record {
  active = simp storage_laws v.active;
  access = λ t. simp storage_laws (v.access t);
  refresh = λ t. simp storage_laws (rw (v.refresh t) refl);
}

perform-end_all :
    (s : Storage) (m : Sessions) → Implements (clear_all_tenant_tokens s) (intend end_all m)
unfolding clear_all_tenant_tokens
perform-end_all s m = record {
  active = simp storage_laws;
  access = λ t. simp storage_laws;
  refresh = λ t. simp storage_laws;
}

perform-drop_refresh :
    (s : Storage) (m : Sessions)
    → Implements s m
    → Implements (clear_refresh_token s) (intend drop_refresh m)
unfolding clear_refresh_token
perform-drop_refresh s m v = elim (Option-cases (current m)) [
  | inl e ↦ rw (v.active, clear_refresh_token) (rw (e, clear_refresh_token, intend) v)
  | inr (u, e) ↦
      rw (v.active, clear_refresh_token)
        (rw (e, clear_refresh_token, intend)
          (record {
            active = simp storage_laws v.active;
            access = λ t. simp storage_laws (v.access t);
            refresh = λ t. simp storage_laws (rw (v.refresh t) refl);
          }))
]

perform-end_active :
    (s : Storage) (m : Sessions) → Implements s m → Implements (clear_token s) (intend end_active m)
unfolding clear_token
perform-end_active s m v = elim (Option-cases (current m)) [
  | inl e ↦
      rw (v.active, clear_token)
        (rw (e, clear_token, intend)
          (record {
            active = simp storage_laws;
            access = λ t. simp storage_laws (v.access t);
            refresh = λ t. simp storage_laws (v.refresh t);
          }))
  | inr (u, e) ↦
      rw (v.active, clear_token)
        (rw (e, clear_token, intend)
          (record {
            active = simp storage_laws;
            access = λ t. simp storage_laws (rw (v.access t) refl);
            refresh = λ t. simp storage_laws (rw (v.refresh t) refl);
          }))
]

perform-Implements :
    (o : Operation) (s : Storage) (m : Sessions)
    → Implements s m
    → Implements (perform o s) (intend o m)
perform-Implements (save_access token tenant) s m v = perform-save_access token tenant s m v
perform-Implements (save_refresh token tenant) s m v = perform-save_refresh token tenant s m v
perform-Implements end_active s m v = perform-end_active s m v
perform-Implements drop_refresh s m v = perform-drop_refresh s m v
perform-Implements end_all s m v = perform-end_all s m

perform_all-Implements :
    (os : List Operation) (s : Storage) (m : Sessions)
    → Implements s m
    → Implements (perform_all os s) (intend_all os m)
perform_all-Implements [] s m v = v
perform_all-Implements (o ∷ os) s m v =
    perform_all-Implements os (perform o s) (intend o m) (perform-Implements o s m v)

abbrev pub of_current : (String → Option String) → Sessions → Option String
of_current f m = elim (current m) [ none ↦ none | some t ↦ f t ]

get_token-Implements :
    (s : Storage) (m : Sessions)
    → Implements s m
    → (get_token s ≡ of_current m.access m) × (get_refresh_token s ≡ of_current m.refresh m)
unfolding get_token get_refresh_token
get_token-Implements s m v = elim (Option-cases (current m)) [
  | inl e ↦ (
    rw (v.active, get_token) (rw (e, get_token, of_current) refl),
    rw (v.active, get_refresh_token) (rw (e, get_refresh_token, of_current) refl),
  )
  | inr (t, e) ↦ (
    rw (v.active, get_token) (rw (e, get_token, of_current) (v.access t)),
    rw (v.active, get_refresh_token) (rw (e, get_refresh_token, of_current) (v.refresh t)),
  )
]

-- The session functions, in any sequence on a storage that holds given sessions, read and write what
-- the sessions without keys say: the tokens of the current tenant, and each tenant's own access token.
pub sessions_are_implemented :
    (os : List Operation) (s : Storage) (m : Sessions) (t : String)
    → Implements s m
    → let s' = perform_all os s in
      let m' = intend_all os m in
      (get_token s' ≡ of_current m'.access m')
      × (get_refresh_token s' ≡ of_current m'.refresh m')
      × (get_token_for_tenant t s' ≡ m'.access t)
unfolding get_token_for_tenant
sessions_are_implemented os s m t v =
    let w = perform_all-Implements os s m v in
    let read = get_token-Implements (perform_all os s) (intend_all os m) w in
    (read.0, read.1, w.access t)
