-- ===== src/Packages.antt =====
-- The packages of a tenant: frontend/src/pages/admin/PackagesPage.tsx, and
-- frontend/src/lib/packageServiceType.ts, which keeps the service type of each package in the local
-- storage. JSON is the parameter `Codec`, where a text that does not parse is `none`.
pub mod ServiceTypes
pub mod Form
use frixel_connect.Base.{
  ℕ, Bool, true, false, String, List, [], ◌∷◌, Option, none, some, if◌then◌else◌, ◌===◌, keep,
  get_or, truthy, map_get, map_set,
}
use frixel_connect.Storage.{Storage, get_item, set_item}
use frixel_connect.Onboarding.{ServiceType, hotspot, pppoe, Codec}

pub record Package : Type 0 where
  pub id : String
  pub name : String
  pub description : String
  pub price_kes : ℕ
  pub duration_minutes : ℕ
  pub speed_mbps : ℕ
  pub service_type : Option ServiceType

abbrev pub storage_key : String
storage_key = "Frixel Connect_package_service_types"

abbrev pub PackageServiceTypeMap : Type 0
PackageServiceTypeMap = List (String × ServiceType)

abbrev pub service_type_eq : ServiceType → ServiceType → Bool
service_type_eq hotspot hotspot = true
service_type_eq pppoe pppoe = true
service_type_eq _ _ = false

module _ (c : Codec PackageServiceTypeMap) where
  unfoldable pub read_map : Storage → PackageServiceTypeMap
  read_map s = elim (truthy (get_item storage_key s)) [
    | none ↦ []
    | some raw ↦ get_or (c.decode raw) []
  ]

  unfoldable pub save_package_service_type : String → ServiceType → Storage → Storage
  unfolding read_map
  save_package_service_type id service_type s =
      set_item storage_key (c.encode (map_set id service_type (read_map s))) s

  unfoldable pub resolve_package_service_type : Package → Storage → ServiceType
  unfolding read_map
  resolve_package_service_type p s = elim p.service_type [
    | some service_type ↦ service_type
    | none ↦ get_or (map_get p.id (read_map s)) hotspot
  ]

-- The values of the form that are sent.
pub record PackageForm : Type 0 where
  pub name : String
  pub description : String
  pub price_kes : ℕ
  pub speed_mbps : ℕ
  pub duration_minutes : ℕ

pub data Request : Type 0 where
  update_package : String → PackageForm → Request
  create_package : PackageForm → Request
  deactivate_package : String → Request

pub record PackagesPage : Type 0 where
  pub is_dialog_open : Bool
  pub is_delete_dialog_open : Bool
  pub editing_package : Option Package
  pub deleting_package_id : Option String
  pub form_service_type : ServiceType
  pub local : Storage
  pub sent : List Request
  pub toast : Option String

module _ (c : Codec PackageServiceTypeMap) where
  -- `serviceFilter` is none for 'all'.
  unfoldable pub filtered_packages :
      Option (List Package) → Option ServiceType → PackagesPage → List Package
  unfolding resolve_package_service_type
  filtered_packages none service_filter p = []
  filtered_packages (some packages) service_filter p = elim service_filter [
    | none ↦ packages
    | some service ↦
        keep (λ k. service_type_eq (resolve_package_service_type c k p.local) service) packages
  ]

  unfoldable pub handle_open_dialog : Option Package → PackagesPage → PackagesPage
  unfolding resolve_package_service_type
  handle_open_dialog k p = record p {
    editing_package = k;
    form_service_type = elim k [
      | none ↦ hotspot
      | some k ↦ resolve_package_service_type c k p.local
    ];
    is_dialog_open = true;
  }

  abbrev pub send : Request → PackagesPage → PackagesPage
  send r p = record p { sent = r ∷ p.sent }

  -- `onSubmit`, up to the answer; `data.description || ''` is the description.
  unfoldable pub on_submit : PackageForm → PackagesPage → PackagesPage
  on_submit form p = elim p.editing_package [
    | some k ↦ send (update_package k.id form) p
    | none ↦ send (create_package form) p
  ]

  abbrev pub handle_close_dialog : PackagesPage → PackagesPage
  handle_close_dialog p = record p { is_dialog_open = false; editing_package = none }

  -- After the answer, with the state of the submit, as long as nothing is changed meanwhile, and with the id of the package that was created.
  unfoldable pub on_saved : String → PackagesPage → PackagesPage
  unfolding save_package_service_type
  on_saved created_id p = elim p.editing_package [
    | some k ↦ handle_close_dialog (record p {
      local = save_package_service_type c k.id p.form_service_type p.local;
      toast = some "Package updated successfully";
    })
    | none ↦ handle_close_dialog (record p {
      local = save_package_service_type c created_id p.form_service_type p.local;
      toast = some "Package created successfully";
    })
  ]

  unfoldable pub on_save_failed : PackagesPage → PackagesPage
  on_save_failed p = record p { toast = some "Failed to save package" }

  unfoldable pub handle_deactivate : PackagesPage → PackagesPage
  handle_deactivate p = elim (truthy p.deleting_package_id) [
    | none ↦ p
    | some id ↦ send (deactivate_package id) p
  ]

  unfoldable pub on_deactivated : Bool → PackagesPage → PackagesPage
  on_deactivated done p = record p {
    toast = some (if done then "Package deactivated" else "Failed to deactivate package");
    is_delete_dialog_open = false;
    deleting_package_id = none;
  }
