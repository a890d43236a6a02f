-- ===== src/RouterSetup.antt =====
-- Connecting a router: frontend/src/pages/admin/onboarding/RouterOnboardingWizard.tsx, with the
-- types of frontend/src/types/setup.ts and the polling of frontend/src/hooks/useRouterOnboarding.ts.
-- A handler that awaits an answer is two functions: one up to the request, one after the answer.
mod State
pub mod Forms
pub mod Resume
unfoldable pub use State.*
use Prim.Native.Char.{Char, code}
use frixel_connect.Base.{
  trim, is_space, ℕ, zero, suc, Bool, true, false, String, List, [], ◌∷◌, Option, none, some,
  if◌then◌else◌, ◌==◌, ◌===◌, ltb, leb, ◌&&◌, ◌||◌, not, truthy, is_empty, is_some, get_or,
}
use frixel_connect.Auth.{◌>>=◌}
use frixel_connect.Storage.{Storage, get_item, set_item, remove_item}
use frixel_connect.Onboarding.{ServiceType, hotspot, pppoe, onboarding_service_key}

-- `parse_date` is `new Date(text).getTime()`, none where the date is invalid.
abbrev pub Clock : Type 0
Clock = (String → Option ℕ) × ℕ

-- `new Date(localExpires) > new Date()`.
unfoldable pub is_future : Clock → String → Bool
is_future (parse_date, now) text = elim (parse_date text) [
  | none ↦ false
  | some time ↦ ltb now time
]

-- `localStorage.getItem(key) === 'true'`, and `x || ''`.
abbrev pub stored_true : Option String → Bool
stored_true none = false
stored_true (some s) = s === "true"

-- What the resume effect reads: the wizard's data, where all that it needs is there.
pub complete_data : Storage → String → Option MagicInit
complete_data s id = do
  local_token ← truthy (get_item token_key s)
  local_command ← truthy (get_item command_key s)
  local_expires ← truthy (get_item expires_key s)
  some (record {
    router_id = id;
    setup_token = local_token;
    magic_command = local_command;
    expires_at = local_expires;
    is_chr = stored_true (get_item chr_key s);
  })

unfoldable pub resumable : Option String → Storage → Option MagicInit
unfolding complete_data
resumable resume_id s = elim (truthy resume_id) [
  | some id ↦ complete_data s id
  | none ↦ truthy (get_item id_key s) >>= complete_data s
]

-- The resume effect, up to its request: the wizard, and the router whose status is asked for.
unfoldable pub resume : Clock → Option String → Wizard → Wizard × Option MagicInit
unfolding resumable is_future clear_local_storage
resume clock resume_id w = elim (resumable resume_id w.local) [
  | none ↦ (record w { is_loading_resume = false }, none)
  | some setup ↦
      if is_future clock setup.expires_at
      then (w, some setup)
      else (record w { local = clear_local_storage w.local; is_loading_resume = false }, none)
]

-- The state that both answers restore.
abbrev pub restore : MagicInit → Wizard → Wizard
restore setup w = record w {
  init_data = some setup;
  is_chr = setup.is_chr;
  router_name = get_or (get_item name_key w.local) "";
  site_name = get_or (get_item site_key w.local) "";
  is_loading_resume = false;
}

-- The answer: the router's status, or none where the request failed.
unfoldable pub on_resume_status : MagicInit → Option String → Wizard → Wizard
unfolding clear_local_storage
on_resume_status setup none w = record w {
  local = clear_local_storage w.local;
  is_loading_resume = false;
}
on_resume_status setup (some status) w =
    if status === "pending_setup"
    then record (restore setup w) { step = command }
    else if status === "online"
    then record (restore setup w) { step = provision; ip_range = default_range setup.is_chr }
    else record w { is_loading_resume = false }

-- `useRouterStatus`: whether it asks, and after how many milliseconds it asks again.
unfoldable pub polls : Wizard → Bool
polls w = elim w.init_data [
  | none ↦ false
  | some setup ↦ is_command w.step && not (is_empty setup.router_id)
]

unfoldable pub refetch_interval : Option String → Option ℕ
refetch_interval none = some 3000
refetch_interval (some status) =
    if status === "online" || status === "failed" then none else some 3000

-- The effect on a polled status, and its timer.
unfoldable pub on_polled_status : String → Wizard → Wizard
on_polled_status status w =
    if status === "online" && is_command w.step then record w { timers = suc w.timers } else w

unfoldable pub on_timer : Wizard → Wizard
on_timer w = elim w.timers [ zero ↦ w | suc n ↦ record w { timers = n; step = provision } ]

-- The effect on entering `provision`: the router whose interfaces are asked for.
unfoldable pub load_interfaces : Wizard → Wizard × Option String
load_interfaces w = elim w.step [
  | details ↦ (w, none)
  | command ↦ (w, none)
  | complete ↦ (w, none)
  | provision ↦ elim w.init_data [
    | none ↦ (w, none)
    | some setup ↦
        if is_empty setup.router_id
        then (w, none)
        else (record w { is_loading_interfaces = true }, some setup.router_id)
  ]
]

-- Their names, or none where the request failed.
unfoldable pub on_interfaces : Option (List String) → Wizard → Wizard
on_interfaces none w = record w { is_loading_interfaces = false }
on_interfaces (some []) w = record w { interfaces = []; is_loading_interfaces = false }
on_interfaces (some (name ∷ names)) w = record w {
  interfaces = name ∷ names;
  selected_interface = name;
  is_loading_interfaces = false;
}

pub record MagicRequest : Type 0 where
  pub name : String
  pub site_name : String
  pub is_chr : Bool

-- `handleSubmitDetails`, up to its request.
unfoldable pub submit_details : Wizard → Wizard × Option MagicRequest
unfolding trim
submit_details w =
    let checked : Wizard = record w {
      name_error = if is_empty (trim w.router_name) then "Router name is required" else "";
      site_error = if is_empty (trim w.site_name) then "Site name is required" else "";
    } in
    if is_empty (trim w.router_name) || is_empty (trim w.site_name) then (checked, none) else (
      checked,
      some (record { name = trim w.router_name; site_name = trim w.site_name; is_chr = w.is_chr }),
    )

-- The server has answered; the state is that of the submit, as long as nothing is changed meanwhile. Where it refuses, a message is shown and nothing changes.
unfoldable pub on_init_magic : MagicInit → Wizard → Wizard
unfolding trim save_local_storage
on_init_magic setup w = record w {
  init_data = some setup;
  local = save_local_storage setup (trim w.router_name) (trim w.site_name) w.local;
  step = command;
}

-- The switch of the details, and the button back to them.
unfoldable pub toggle_chr : Wizard → Wizard
toggle_chr w = record w { is_chr = not w.is_chr; ip_range = default_range (not w.is_chr) }

unfoldable pub back_to_details : Wizard → Wizard
back_to_details w = if is_command w.step then record w { step = details } else w

unfoldable pub handle_reset : Wizard → Wizard
unfolding clear_local_storage
handle_reset w = record w {
  local = clear_local_storage w.local;
  init_data = none;
  router_name = "";
  site_name = "";
  is_chr = false;
  name_error = "";
  site_error = "";
  service_type = hotspot;
  selected_interface = "";
  ip_range = "10.0.0.1/24";
  step = details;
}

pub record ProvisionRequest : Type 0 where
  pub service_type : ServiceType
  pub interface : String
  pub ip_range : String

-- `handleProvision`, up to its request, and after its answer.
unfoldable pub handle_provision : Wizard → Wizard × Option ProvisionRequest
handle_provision w = if is_empty w.selected_interface || is_empty w.ip_range then (w, none) else (
  record w { is_provisioning = true },
  some (record {
    service_type = w.service_type;
    interface = w.selected_interface;
    ip_range = w.ip_range;
  }),
)

unfoldable pub on_provisioned : Bool → Wizard → Wizard
unfolding clear_local_storage
on_provisioned accepted w =
    if accepted
    then record w { step = complete; local = clear_local_storage w.local; is_provisioning = false }
    else record w { is_provisioning = false }
