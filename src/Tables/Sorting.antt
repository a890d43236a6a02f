-- ===== src/Tables/Sorting.antt =====
-- Sorting by time keeps every record, puts the newest first, and keeps the order of equal times.
use mathlib.Core.List.{Perm, Pairwise, Pairwise-singleton, Mem, forall_mem-cons}
use mathlib.Core.List.Perm
use Prim.Native.Nat.{min}
use native.Mathlib.Bridge.{le_prop}
use frixel_connect.Base.{
  ℕ, ◌+◌, length, ◌≤◌, ◌++◌, ap, take, drop, length-take, take-append-drop, ◌≡◌, refl, ◌∙◌,
  Bool-cases, inl, inr, List, [], ◌∷◌, arith, keep, ltb, ◌==◌,
}
use frixel_connect.Tables.{insert_newest, newest_first}

module _ {ℓ} {A : Type ℓ} (time : A → ℕ) where
  -- No record is newer than one before it.
  abbrev pub IsNewestFirst : List A → Type ℓ
  IsNewestFirst = Pairwise (λ x y. time y ≤ time x)

  insert_newest-perm : (x : A) (l : List A) → Perm (insert_newest time x l) (x ∷ l)
  unfolding insert_newest
  insert_newest-perm x [] = Perm.rfl
  insert_newest-perm x (y ∷ ys) = elim (Bool-cases (ltb (time x) (time y))) [
    | inl e ↦
        rw (e, insert_newest)
          (Perm.trans (Perm.cons y (insert_newest-perm x ys)) (Perm.swap x y ys))
    | inr e ↦ rw (e, insert_newest) Perm.rfl
  ]

  abbrev IsOlder : A → List A → Type ℓ
  IsOlder x l = (y : A) → Mem y l → time y ≤ time x

  IsOlder-perm : {x : A} {l r : List A} → Perm l r → IsOlder x r → IsOlder x l
  IsOlder-perm p h y m = h y ((Perm.mem_iff p).0 m)

  IsOlder-cons : {x y : A} {l : List A} → time y ≤ time x → IsOlder x l → IsOlder x (y ∷ l)
  IsOlder-cons p h = (forall_mem-cons (λ z. le_prop)).1 (p, h)

  IsNewestFirst-insert_newest :
      (x : A) {l : List A} → IsNewestFirst l → IsNewestFirst (insert_newest time x l)
  unfolding insert_newest
  IsNewestFirst-insert_newest x Pairwise.nil = Pairwise-singleton _ x
  IsNewestFirst-insert_newest x (Pairwise.cons {a = y} {l = ys} older s) =
      elim (Bool-cases (ltb (time x) (time y))) [
        | inl e ↦
            rw (e, insert_newest)
              (Pairwise.cons
                (IsOlder-perm (insert_newest-perm x ys) (IsOlder-cons (ground arith) older))
                (IsNewestFirst-insert_newest x s))
        | inr e ↦
            let whole = Pairwise.cons older s in
            rw (e, insert_newest)
              (Pairwise.cons (IsOlder-cons (ground arith) (λ z m. ground (arith, older z m))) whole)
      ]

  keep-insert_newest :
      (t : ℕ) (x : A) (l : List A)
      → keep (λ y. time y == t) (insert_newest time x l) ≡ keep (λ y. time y == t) (x ∷ l)
  unfolding insert_newest
  keep-insert_newest t x [] = refl
  keep-insert_newest t x (y ∷ ys) = ground (arith, keep-insert_newest t x ys)

  length-insert_newest : (x : A) (l : List A) → length (insert_newest time x l) ≡ length l + 1
  unfolding insert_newest
  length-insert_newest x [] = omega arith
  length-insert_newest x (y ∷ ys) = ground (arith, length-insert_newest x ys)

  pub length-newest_first : (l : List A) → length (newest_first time l) ≡ length l
  unfolding newest_first
  length-newest_first [] = refl
  length-newest_first (x ∷ xs) =
      ground (arith, length-insert_newest x (newest_first time xs), length-newest_first xs)

  newest_first-perm : (l : List A) → Perm (newest_first time l) l
  unfolding newest_first
  newest_first-perm [] = Perm.rfl
  newest_first-perm (x ∷ xs) =
      Perm.trans (insert_newest-perm x (newest_first time xs)) (Perm.cons x (newest_first-perm xs))

  newest_first-IsNewestFirst : (l : List A) → IsNewestFirst (newest_first time l)
  unfolding newest_first
  newest_first-IsNewestFirst [] = Pairwise.nil
  newest_first-IsNewestFirst (x ∷ xs) =
      IsNewestFirst-insert_newest x (newest_first-IsNewestFirst xs)

  keep-newest_first :
      (t : ℕ) (l : List A)
      → keep (λ y. time y == t) (newest_first time l) ≡ keep (λ y. time y == t) l
  unfolding newest_first
  keep-newest_first t [] = refl
  keep-newest_first t (x ∷ xs) =
      keep-insert_newest t x (newest_first time xs) ∙ ground (arith, keep-newest_first t xs)

  -- Sorting by time gives a rearrangement of the records in which none is newer than one before it,
  -- and records of one time keep the order they came in.
  pub newest_first_lem :
      (l : List A) (t : ℕ)
      → Perm (newest_first time l) l
        × IsNewestFirst (newest_first time l)
        × (keep (λ y. time y == t) (newest_first time l) ≡ keep (λ y. time y == t) l)
  newest_first_lem l t = (newest_first-perm l, newest_first-IsNewestFirst l, keep-newest_first t l)

  -- The first n of the sorted records and the rest: no record of the rest is newer than one shown.
  pub take-newest_first :
      (n : ℕ) (l : List A)
      → let shown = take n (newest_first time l) in
        let rest = drop n (newest_first time l) in
        Perm (shown ++ rest) l × IsNewestFirst (shown ++ rest) × (length shown ≡ min n (length l))
  take-newest_first n l = (
    rw (take-append-drop n (newest_first time l)) (newest_first-perm l),
    rw (take-append-drop n (newest_first time l)) (newest_first-IsNewestFirst l),
    length-take n (newest_first time l) ∙ ap (min n) (length-newest_first l),
  )
