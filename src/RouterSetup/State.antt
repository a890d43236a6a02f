-- ===== src/RouterSetup/State.antt =====
-- The state of the wizard and what it keeps in the storage: the state variables of
-- frontend/src/pages/admin/onboarding/RouterOnboardingWizard.tsx with `saveLocalStorage` and
-- `clearLocalStorage`, and the answer of frontend/src/types/setup.ts.
use frixel_connect.Base.{
  ℕ, Bool, true, false, String, List, [], Option, none, some, if◌then◌else◌, ◌===◌, ◌&&◌, ◌||◌,
}
use frixel_connect.Storage.{Storage, get_item, set_item, remove_item}
use frixel_connect.Onboarding.{ServiceType, hotspot, pppoe, onboarding_service_key}

pub record MagicInit : Type 0 where
  pub router_id : String
  pub setup_token : String
  pub magic_command : String
  pub expires_at : String
  pub is_chr : Bool

pub data SetupStep : Type 0 where
  details command provision complete : SetupStep

abbrev pub is_command : SetupStep → Bool
is_command command = true
is_command _ = false

-- `timers` counts the calls of `setTimeout` that will move the wizard to `provision`.
pub record Wizard : Type 0 where
  pub step : SetupStep
  pub router_name : String
  pub site_name : String
  pub is_chr : Bool
  pub init_data : Option MagicInit
  pub is_loading_resume : Bool
  pub name_error : String
  pub site_error : String
  pub service_type : ServiceType
  pub selected_interface : String
  pub ip_range : String
  pub interfaces : List String
  pub is_loading_interfaces : Bool
  pub is_provisioning : Bool
  pub timers : ℕ
  pub local : Storage

abbrev pub id_key : String
id_key = "Frixel Connect_magic_router_id"

abbrev pub token_key : String
token_key = "Frixel Connect_magic_setup_token"

abbrev pub command_key : String
command_key = "Frixel Connect_magic_command"

abbrev pub expires_key : String
expires_key = "Frixel Connect_magic_expires_at"

abbrev pub chr_key : String
chr_key = "Frixel Connect_magic_is_chr"

abbrev pub name_key : String
name_key = "Frixel Connect_magic_router_name"

abbrev pub site_key : String
site_key = "Frixel Connect_magic_site_name"

abbrev pub default_range : Bool → String
default_range is_chr = if is_chr then "10.10.10.1/24" else "10.0.0.1/24"

-- The state of a wizard that has just been mounted.
unfoldable pub mount : Storage → Wizard
mount local = record {
  step = details;
  router_name = "";
  site_name = "";
  is_chr = false;
  init_data = none;
  is_loading_resume = true;
  name_error = "";
  site_error = "";
  service_type = hotspot;
  selected_interface = "";
  ip_range = "10.0.0.1/24";
  interfaces = [];
  is_loading_interfaces = false;
  is_provisioning = false;
  timers = 0;
  local = local;
}

-- The effect that takes the service type of the sign-up over.
unfoldable pub preselect : Bool → Wizard → Wizard
preselect embedded w = elim (get_item onboarding_service_key w.local) [
  | none ↦ w
  | some stored ↦
      if embedded && (stored === "hotspot" || stored === "pppoe")
      then record w { service_type = if stored === "pppoe" then pppoe else hotspot }
      else w
]

unfoldable pub clear_local_storage : Storage → Storage
clear_local_storage s = remove_item site_key (
    remove_item name_key (
      remove_item chr_key (
        remove_item expires_key
          (remove_item command_key (remove_item token_key (remove_item id_key s))))))

unfoldable pub save_local_storage : MagicInit → String → String → Storage → Storage
save_local_storage setup name site s = set_item site_key site (
    set_item name_key name (
      set_item chr_key (if setup.is_chr then "true" else "false") (
        set_item expires_key setup.expires_at (
          set_item command_key setup.magic_command
            (set_item token_key setup.setup_token (set_item id_key setup.router_id s))))))
