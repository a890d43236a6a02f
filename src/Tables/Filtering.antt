-- ===== src/Tables/Filtering.antt =====
-- Taking some records of a sorted list is sorting those records.
use frixel_connect.Base.{
  ◌&&◌, ℕ, ◌≤◌, ◌≡◌, refl, ◌∙◌, ap, Bool, true, List, [], ◌∷◌, arith, keep, all, leb, if◌then◌else◌,
}
use frixel_connect.Tables.{insert_newest, newest_first}

module _ {ℓ} {A : Type ℓ} (time : A → ℕ) where
  abbrev is_older : A → A → Bool
  is_older x y = leb (time y) (time x)

  -- Sorted, as a test.
  abbrev is_sorted : List A → Bool
  is_sorted [] = true
  is_sorted (x ∷ xs) = all (is_older x) xs && is_sorted xs

  all-is_older :
      (x y : A) (l : List A)
      → time y ≤ time x
      → all (is_older y) l ≡ true
      → all (is_older x) l ≡ true
  all-is_older x y [] h e = refl
  all-is_older x y (z ∷ l) h e = ground (arith, h, e, all-is_older x y l h)

  all-insert_newest :
      (z x : A) (l : List A)
      → is_older z x ≡ true
      → all (is_older z) l ≡ true
      → all (is_older z) (insert_newest time x l) ≡ true
  unfolding insert_newest
  all-insert_newest z x [] h e = ground (arith, h)
  all-insert_newest z x (y ∷ l) h e = ground (arith, h, e, all-insert_newest z x l h)

  insert_newest-is_sorted :
      (x : A) (l : List A) → is_sorted l ≡ true → is_sorted (insert_newest time x l) ≡ true
  unfolding insert_newest
  insert_newest-is_sorted x [] h = refl
  insert_newest-is_sorted x (y ∷ l) h =
      ground (arith, h, insert_newest-is_sorted x l, all-insert_newest y x l, all-is_older x y l)

  newest_first-is_sorted : (l : List A) → is_sorted (newest_first time l) ≡ true
  unfolding newest_first
  newest_first-is_sorted [] = refl
  newest_first-is_sorted (x ∷ l) =
      insert_newest-is_sorted x (newest_first time l) (newest_first-is_sorted l)

  module _ (q : A → Bool) where
    insert_newest-oldest :
        (x : A) (l : List A)
        → all (is_older x) l ≡ true
        → insert_newest time x (keep q l) ≡ x ∷ keep q l
    unfolding insert_newest
    insert_newest-oldest x [] h = refl
    insert_newest-oldest x (y ∷ l) h = ground (arith, h, insert_newest-oldest x l)

    keep-insert_newest :
        (x : A) (l : List A)
        → is_sorted l ≡ true
        → keep q (insert_newest time x l)
          ≡ (if q x then insert_newest time x (keep q l) else keep q l)
    unfolding insert_newest
    keep-insert_newest x [] h = ground arith
    keep-insert_newest x (y ∷ l) h =
        ground (arith, h, keep-insert_newest x l, all-is_older x y l, insert_newest-oldest x l)

    pub keep-newest_first :
        (l : List A) → keep q (newest_first time l) ≡ newest_first time (keep q l)
    unfolding newest_first
    keep-newest_first [] = refl
    keep-newest_first (x ∷ l) =
        keep-insert_newest x (newest_first time l) (newest_first-is_sorted l)
        ∙ ground (arith, keep-newest_first l)

    all-insert : (x : A) (l : List A) → all q (insert_newest time x l) ≡ (q x && all q l)
    unfolding insert_newest
    all-insert x [] = refl
    all-insert x (y ∷ l) = ground (arith, all-insert x l)

    pub all-newest_first : (l : List A) → all q (newest_first time l) ≡ all q l
    unfolding newest_first
    all-newest_first [] = refl
    all-newest_first (x ∷ l) =
        all-insert x (newest_first time l) ∙ ap (λ b. q x && b) (all-newest_first l)
