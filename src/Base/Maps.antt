-- ===== src/Base/Maps.antt =====
-- A `Map`, or an object used as one: its entries, and what is read after a write.
use mathlib.Core.Path.{◌≡◌, refl}
use mathlib.Core.Option.{Option, none, some}
use mathlib.Core.List.{List, [], ◌∷◌}
use Prim.Native.String.{String}
use native.Mathlib.Omega.{arith}
use text.Mathlib.TextEquality.{eq_iff}
use frixel_connect.Base.Tests.{if◌then◌else◌}
use frixel_connect.Base.Text.{◌===◌}

module _ {ℓ} {A : Type ℓ} where
  abbrev pub map_get : String → List (String × A) → Option A
  map_get k [] = none
  map_get k ((j, v) ∷ m) = if j === k then some v else map_get k m

  abbrev pub map_set : String → A → List (String × A) → List (String × A)
  map_set k v [] = (k, v) ∷ []
  map_set k v ((j, w) ∷ m) = if j === k then (k, v) ∷ m else (j, w) ∷ map_set k v m

module _ {ℓ} {A : Type ℓ} where
  pub map_get-map_set :
      (k j : String) (v : A) (m : List (String × A))
      → map_get j (map_set k v m) ≡ (if k === j then some v else map_get j m)
  map_get-map_set k j v [] = refl
  map_get-map_set k j v ((i, w) ∷ m) =
      ground (arith, eq_iff k j, eq_iff i k, eq_iff i j, map_get-map_set k j v m)
