-- ===== src/Storage.antt =====
-- `localStorage` and `sessionStorage`: a finite map from texts to texts.
pub mod Laws
use frixel_connect.Base.{
  Bool, String, List, [], ◌∷◌, Option, none, some, if◌then◌else◌, ◌===◌, keep,
}

abbrev pub Storage : Type 0
Storage = List (String × String)

unfoldable pub get_item : String → Storage → Option String
get_item k [] = none
get_item k ((j, v) ∷ s) = if j === k then some v else get_item k s

unfoldable pub set_item : String → String → Storage → Storage
set_item k v [] = (k, v) ∷ []
set_item k v ((j, w) ∷ s) = if j === k then (k, v) ∷ s else (j, w) ∷ set_item k v s

unfoldable pub remove_item : String → Storage → Storage
remove_item k [] = []
remove_item k ((j, w) ∷ s) = if j === k then remove_item k s else (j, w) ∷ remove_item k s

-- `Object.keys(storage)`.
unfoldable pub keys : Storage → List String
keys [] = []
keys ((k, v) ∷ s) = k ∷ keys s

-- `ks.forEach((k) => storage.removeItem(k))`.
unfoldable pub remove_each : List String → Storage → Storage
unfolding remove_item
remove_each [] s = s
remove_each (k ∷ ks) s = remove_each ks (remove_item k s)

-- `Object.keys(storage).filter(p).forEach((k) => storage.removeItem(k))`.
unfoldable pub remove_where : (String → Bool) → Storage → Storage
unfolding keys remove_each
remove_where p s = remove_each (keep p (keys s)) s
