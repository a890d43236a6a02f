-- ===== src/Base/Tests.antt =====
-- Boolean tests on the native numbers, the conditional, and splits that keep an equation.
use Prim.Native.Nat.{ℕ, compare, Ordering}
use mathlib.Core.Path.{◌≡◌, refl}
use mathlib.Core.Logic.{◌⊎◌, inl, inr}
use mathlib.Core.Bool.{Bool, true, false}
use mathlib.Core.Option.{Option, none, some}

abbrev pub ltb : ℕ → ℕ → Bool
ltb a b = elim (compare a b) [ Ordering.lt ↦ true | _ ↦ false ]

abbrev pub leb : ℕ → ℕ → Bool
leb a b = elim (compare a b) [ Ordering.gt ↦ false | _ ↦ true ]

infix 50 ◌==◌
abbrev pub ◌==◌ : ℕ → ℕ → Bool
a == b = elim (compare a b) [ Ordering.eq ↦ true | _ ↦ false ]

infix 1 if◌then◌else◌
abbrev pub if◌then◌else◌ {ℓ} : {A : Type ℓ} → Bool → A → A → A
if true then x else y = x
if false then x else y = y

pub Bool-cases : (b : Bool) → (b ≡ true) ⊎ (b ≡ false)
Bool-cases true = inl refl
Bool-cases false = inr refl

-- What holds of both branches, the second one with its test; and where the first needs no test.
pub if-holds {ℓ κ} :
    {A : Type ℓ} (P : A → Type κ) (b : Bool) (p q : A)
    → (b ≡ true → P p)
    → (b ≡ false → P q)
    → P (if b then p else q)
if-holds P true p q f g = f refl
if-holds P false p q f g = g refl

pub unless-holds {ℓ κ} :
    {A : Type ℓ} (P : A → Type κ) (b : Bool) (p q : A)
    → P p
    → (b ≡ false → P q)
    → P (if b then p else q)
unless-holds P b p q v f = if-holds P b p q (λ e. v) f

pub Option-cases {ℓ} : {A : Type ℓ} (o : Option A) → (o ≡ none) ⊎ ((a : A) × (o ≡ some a))
Option-cases none = inl refl
Option-cases (some a) = inr (a, refl)

abbrev pub is_some {ℓ} : {A : Type ℓ} → Option A → Bool
is_some none = false
is_some (some _) = true

-- `a ?? b`.
abbrev pub get_or {ℓ} : {A : Type ℓ} → Option A → A → A
get_or none b = b
get_or (some a) b = a
