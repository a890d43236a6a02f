-- ===== src/Packages/ServiceTypes.antt =====
-- The service type of a package survives in the storage.
use frixel_connect.Base.{
  ◌≡◌, refl, ap, ◌∙◌, ◌≢◌, false, String, none, some, arith, if◌then◌else◌, ◌===◌, get_or, [],
  map_get, map_set, map_get-map_set, Option-cases, inl, inr,
}
use frixel_connect.Storage.{Storage, get_item}
use frixel_connect.Storage.Laws.{get_item-set_item}
use frixel_connect.Auth.Sessions.{truthy_of_ne}
use frixel_connect.Onboarding.{ServiceType, Codec}
use frixel_connect.Packages.{
  Package, PackageServiceTypeMap, PackagesPage, storage_key, read_map, save_package_service_type,
  resolve_package_service_type, handle_open_dialog, on_saved,
}

-- What the program relies on of JSON: a map that was written reads back, and none is written as the
-- empty text.
pub record IsFaithful (c : Codec PackageServiceTypeMap) : Type 0 where
  pub reads_back : (m : PackageServiceTypeMap) → c.decode (c.encode m) ≡ some m
  pub not_empty : (m : PackageServiceTypeMap) → c.encode m ≢ ""

module _ (c : Codec PackageServiceTypeMap) (f : IsFaithful c) where
  read_map-save :
      (id : String) (service : ServiceType) (s : Storage)
      → read_map c (save_package_service_type c id service s) ≡ map_set id service (read_map c s)
  unfolding save_package_service_type read_map
  read_map-save id service s =
      let m : PackageServiceTypeMap = map_set id service (read_map c s) in
      rw (get_item-set_item storage_key storage_key (c.encode m) s, read_map)
        (rw (truthy_of_ne (c.encode m) (f.not_empty m), read_map)
          (ap (λ o. get_or o []) (f.reads_back m)))

  resolve-save :
      (k : Package) (id : String) (service : ServiceType) (s : Storage)
      → k.service_type ≡ none
      → resolve_package_service_type c k (save_package_service_type c id service s)
        ≡ (if id === k.id then service else resolve_package_service_type c k s)
  unfolding resolve_package_service_type
  resolve-save k id service s e = ground (
    arith,
    e,
    ap (map_get k.id) (read_map-save id service s),
    map_get-map_set id k.id service (read_map c s),
  )

  get_item-save :
      (j id : String) (service : ServiceType) (s : Storage)
      → (storage_key === j) ≡ false
      → get_item j (save_package_service_type c id service s) ≡ get_item j s
  unfolding save_package_service_type
  get_item-save j id service s h =
      let m : PackageServiceTypeMap = map_set id service (read_map c s) in
      ground (arith, h, get_item-set_item storage_key j (c.encode m) s)

  -- The package that a saved dialog was about.
  abbrev pub saved_id : String → PackagesPage → String
  saved_id created_id p = elim p.editing_package [ none ↦ created_id | some k ↦ k.id ]

  local-on_saved :
      (created_id : String) (p : PackagesPage)
      → (on_saved c created_id p).local
        ≡ save_package_service_type c (saved_id created_id p) p.form_service_type p.local
  unfolding on_saved
  local-on_saved created_id p = elim (Option-cases p.editing_package) [
    | inl e ↦ rw (e, on_saved, saved_id) refl
    | inr (k, e) ↦ rw (e, on_saved, saved_id) refl
  ]

  open_dialog-type :
      (k : Package) (p : PackagesPage)
      → (handle_open_dialog c (some k) p).form_service_type
        ≡ resolve_package_service_type c k p.local
  unfolding handle_open_dialog
  open_dialog-type k p = refl

  -- Where JSON reads back what it wrote: once a dialog was saved, the package it was about has the service type that was chosen, also when it is
  -- opened again, as long as the server names no type itself. Every other package keeps its type,
  -- and the rest of the storage is as it was.
  pub saved_type_resolves :
      (created_id j : String) (k : Package) (p : PackagesPage)
      → k.service_type ≡ none
      → (storage_key === j) ≡ false
      → let q = on_saved c created_id p in
        let service =
          if saved_id created_id p === k.id
          then p.form_service_type
          else resolve_package_service_type c k p.local in
        (resolve_package_service_type c k q.local ≡ service)
        × ((handle_open_dialog c (some k) q).form_service_type ≡ service)
        × (get_item j q.local ≡ get_item j p.local)
  saved_type_resolves created_id j k p e h =
      let q = on_saved c created_id p in
      let id = saved_id created_id p in
      let resolved =
        ap (resolve_package_service_type c k) (local-on_saved created_id p)
        ∙ resolve-save k id p.form_service_type p.local e in
      (
        resolved,
        open_dialog-type k q ∙ resolved,
        ap (get_item j) (local-on_saved created_id p)
            ∙ get_item-save j id p.form_service_type p.local h,
      )
