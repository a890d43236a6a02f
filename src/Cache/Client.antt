-- ===== src/Cache/Client.antt =====
-- The query client as the hooks use it: a library, of which the calls are parameters.
use frixel_connect.Base.{
  ◌≡◌, ◌⊎◌, inl, inr, Bool, true, List, [], ◌∷◌, ◌++◌, All, Bool-cases, false, sym, ◌∙◌, arith,
}

-- `invalidateQueries({ queryKey })`, and whether what is asked for under a key is fetched anew.
pub record QueryClient {ℓ κ} (K : Type ℓ) (C : Type κ) : Type (ℓ ⊔ κ) where
  pub invalidate_queries : List K → C → C
  pub is_stale : List K → C → Bool

-- As documented, a key of `invalidateQueries` marks the queries whose keys begin with it, and no others.
pub record MatchesPrefixes {ℓ κ} {K : Type ℓ} {C : Type κ} (client : QueryClient K C)
    : Type (ℓ ⊔ κ) where
  pub marks :
      (key rest : List K) (c : C)
      → client.is_stale (key ++ rest) (client.invalidate_queries key c) ≡ true
  pub keeps :
      (key k : List K) (c : C)
      → client.is_stale k c ≡ true
      → client.is_stale k (client.invalidate_queries key c) ≡ true
  pub only :
      (key k : List K) (c : C)
      → client.is_stale k (client.invalidate_queries key c) ≡ true
      → (client.is_stale k c ≡ true) ⊎ ((rest : List K) × (key ++ rest ≡ k))

module _ {ℓ κ} {K : Type ℓ} {C : Type κ} (client : QueryClient K C) where
  -- The calls of `invalidateQueries` in an `onSuccess`, in their order.
  unfoldable pub invalidate_all : List (List K) → C → C
  invalidate_all [] c = c
  invalidate_all (key ∷ keys) c = invalidate_all keys (client.invalidate_queries key c)

module _ {ℓ κ} {K : Type ℓ} {C : Type κ} (client : QueryClient K C)
    (law : MatchesPrefixes client) where
  pub invalidate_all-keeps :
      (keys : List (List K)) (k : List K) (c : C)
      → client.is_stale k c ≡ true
      → client.is_stale k (invalidate_all client keys c) ≡ true
  unfolding invalidate_all
  invalidate_all-keeps [] k c h = h
  invalidate_all-keeps (key ∷ keys) k c h =
      invalidate_all-keeps keys k (client.invalidate_queries key c) (law.keeps key k c h)

  -- A key in the list marks what begins with it, whatever stands before and after it.
  pub invalidate_all-marks :
      (pre post : List (List K)) (key rest : List K) (c : C)
      → client.is_stale (key ++ rest) (invalidate_all client (pre ++ key ∷ post) c) ≡ true
  unfolding invalidate_all
  invalidate_all-marks [] post key rest c =
      invalidate_all-keeps post (key ++ rest) (client.invalidate_queries key c)
        (law.marks key rest c)
  invalidate_all-marks (k ∷ pre) post key rest c =
      invalidate_all-marks pre post key rest (client.invalidate_queries k c)

  -- What is stale afterwards was stale before, or is what every key of the list says of what begins with it.
  pub invalidate_all-only {μ} :
      (P : Type μ) (keys : List (List K)) (k : List K) (c : C)
      → All (λ key. (rest : List K) → key ++ rest ≡ k → P) keys
      → client.is_stale k (invalidate_all client keys c) ≡ true
      → (client.is_stale k c ≡ true) ⊎ P
  unfolding invalidate_all
  invalidate_all-only P [] k c ps h = inl h
  invalidate_all-only P (key ∷ keys) k c (p, ps) h =
      elim (invalidate_all-only P keys k (client.invalidate_queries key c) ps h) [
        | inl before ↦ elim (law.only key k c before) [
          | inl old ↦ inl old
          | inr (rest, e) ↦ inr (p rest e)
        ]
        | inr p' ↦ inr p'
      ]

  -- A key that begins with none of the list is as stale as before.
  pub invalidate_all-others :
      (keys : List (List K)) (k : List K) (c : C)
      → All (λ key. (rest : List K) → key ++ rest ≡ k → true ≡ false) keys
      → client.is_stale k (invalidate_all client keys c) ≡ client.is_stale k c
  invalidate_all-others keys k c never =
      elim (Bool-cases (client.is_stale k (invalidate_all client keys c))) [
        | inl after ↦ elim (invalidate_all-only (true ≡ false) keys k c never after) [
          | inl before ↦ after ∙ sym before
          | inr other ↦ cc
        ]
        | inr kept ↦ elim (Bool-cases (client.is_stale k c)) [
          | inl before ↦ ground (arith, invalidate_all-keeps keys k c before, kept)
          | inr fresh ↦ kept ∙ sym fresh
        ]
      ]
