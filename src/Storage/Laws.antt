-- ===== src/Storage/Laws.antt =====
-- What a storage holds after each operation, key by key.
use frixel_connect.Base.{
  Bool, false, String, List, [], ◌∷◌, none, some, if◌then◌else◌, ◌===◌, keep, any, ◌≡◌, refl, arith,
  eq_iff,
}
use frixel_connect.Storage.{
  Storage, get_item, set_item, remove_item, keys, remove_each, remove_where,
}

pub get_item-set_item :
    (k j v : String) (s : Storage)
    → get_item j (set_item k v s) ≡ (if k === j then some v else get_item j s)
unfolding get_item set_item
get_item-set_item k j v [] = refl
get_item-set_item k j v ((i, w) ∷ s) =
    ground (arith, eq_iff k j, eq_iff i k, eq_iff i j, get_item-set_item k j v s)

pub get_item-remove_item :
    (k j : String) (s : Storage)
    → get_item j (remove_item k s) ≡ (if k === j then none else get_item j s)
unfolding get_item remove_item
get_item-remove_item k j [] = ground arith
get_item-remove_item k j ((i, w) ∷ s) =
    ground (arith, eq_iff k j, eq_iff i k, eq_iff i j, get_item-remove_item k j s)

abbrev pub contains : String → List String → Bool
contains j ks = any (λ k. k === j) ks

get_item-remove_each :
    (ks : List String) (j : String) (s : Storage)
    → get_item j (remove_each ks s) ≡ (if contains j ks then none else get_item j s)
unfolding remove_each
get_item-remove_each [] j s = refl
get_item-remove_each (k ∷ ks) j s =
    ground (arith, get_item-remove_each ks j (remove_item k s), get_item-remove_item k j s)

-- A key that is filtered out is not listed, and a key that is not listed has no value.
contains-keep :
    (p : String → Bool) (j : String) (ks : List String)
    → contains j (keep p ks) ≡ (if p j then contains j ks else false)
contains-keep p j [] = ground arith
contains-keep p j (k ∷ ks) = ground (arith, contains-keep p j ks, eq_iff k j)

get_item-keys : (j : String) (s : Storage) → contains j (keys s) ≡ false → get_item j s ≡ none
unfolding get_item keys
get_item-keys j [] h = refl
get_item-keys j ((i, w) ∷ s) h = ground (arith, get_item-keys j s)

pub get_item-remove_where :
    (p : String → Bool) (j : String) (s : Storage)
    → get_item j (remove_where p s) ≡ (if p j then none else get_item j s)
unfolding remove_where
get_item-remove_where p j s = ground (
  arith,
  get_item-remove_each (keep p (keys s)) j s,
  contains-keep p j (keys s),
  get_item-keys j s,
)
