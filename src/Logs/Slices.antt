-- ===== src/Logs/Slices.antt =====
-- Slices of a list, one after the other.
use native.Mathlib.Numerals.{unary_clauses}
use frixel_connect.Base.{
  ℕ, zero, suc, ◌+◌, ◌≤◌, ◌≡◌, refl, sym, ap, Bool, true, if◌then◌else◌, List, [], ◌∷◌, ◌++◌, arith,
  length, take, drop, take-append-drop,
}

pub if_true {ℓ} : {A : Type ℓ} {b : Bool} → b ≡ true → (x y : A) → (if b then x else y) ≡ x
if_true e x y = rw e refl

module _ {ℓ} {E : Type ℓ} where
  drop_add : (m n : ℕ) (xs : List E) → drop n (drop m xs) ≡ drop (m + n) xs
  drop_add zero n xs = ap (λ k. drop k xs) (omega arith)
  drop_add (suc m) zero [] = simp unary_clauses refl
  drop_add (suc m) (suc n) [] = simp unary_clauses refl
  drop_add (suc m) n (x ∷ xs) =
      let e : suc m + n ≡ suc (m + n) = omega arith in rw e (drop_add m n xs)

  pub drop_all : (n : ℕ) (xs : List E) → length xs ≤ n → drop n xs ≡ []
  drop_all zero [] h = refl
  drop_all zero (x ∷ xs) h = absurd (omega arith)
  drop_all (suc n) [] h = refl
  drop_all (suc n) (x ∷ xs) h = drop_all n xs (omega arith)

  -- A page of a list and what follows it.
  pub take-drop : (o n : ℕ) (xs : List E) → take n (drop o xs) ++ drop (o + n) xs ≡ drop o xs
  take-drop o n xs = rw (sym (drop_add o n xs)) (take-append-drop n (drop o xs))
