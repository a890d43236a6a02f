-- ===== src/Examples/Setup.antt =====
-- A first run: an onboarding that is reloaded, a router that is connected.
use frixel_connect.Base.{trim, [], false, if◌then◌else◌, none, refl, some, true, ◌∷◌, ◌≡◌}
use frixel_connect.Examples.{text_ne}
use frixel_connect.Examples.Texts.{codec, codec-IsFaithful}
use frixel_connect.Onboarding.{
  act_all, hotspot, is_complete, is_onboarding_incomplete, onboarding_service_key,
  onboarding_state_key, open_shell, package_created,
}
use frixel_connect.Onboarding.Progress.{onboarding_resumes}
use frixel_connect.RouterSetup.{
  Clock, MagicInit, MagicRequest, SetupStep, Wizard, back_to_details, command, default_range,
  details, handle_reset, mount, on_init_magic, on_polled_status, on_provisioned, on_resume_status,
  on_timer, provision, resumable, resume, save_local_storage, submit_details,
}
use frixel_connect.RouterSetup.Resume.{IsWhole, resume-on_init_magic}
use frixel_connect.Storage.{get_item}

abbrev setup : MagicInit
setup = record {
  router_id = "r1";
  setup_token = "t0";
  magic_command = "/tool fetch";
  expires_at = "noon";
  is_chr = true;
}

setup-IsWhole : IsWhole setup
setup-IsWhole = record {
  id = text_ne "r1" refl;
  token = text_ne "t0" refl;
  command = text_ne "/tool fetch" refl;
  expires = text_ne "noon" refl;
}

abbrev clock : Clock
clock = (λ s. some 12, 8)

abbrev late_clock : Clock
late_clock = (λ s. some 12, 13)

abbrev filled_in : Wizard
filled_in = record {
  step = SetupStep.details;
  router_name = " North ";
  site_name = "Hill";
  is_chr = true;
  init_data = none;
  is_loading_resume = false;
  name_error = "";
  site_error = "";
  service_type = hotspot;
  selected_interface = "";
  ip_range = "10.10.10.1/24";
  interfaces = [];
  is_loading_interfaces = false;
  is_provisioning = false;
  timers = 0;
  local = [];
}

abbrev waiting : Wizard
waiting = record filled_in { step = SetupStep.command; init_data = some setup }

abbrev request : MagicRequest
request = record { name = "North"; site_name = "Hill"; is_chr = true }

onboarding_resumes_example :
    let sh =
      act_all codec ("8:00") (open_shell codec ("8:00") []) (package_created "p1" "Daily" ∷ []) in
    if is_complete sh.state.step
    then (get_item onboarding_state_key sh.local ≡ none)
      × (get_item onboarding_service_key sh.local ≡ none)
      × (is_onboarding_incomplete codec sh.local ≡ false)
    else ((open_shell codec ("9:00") sh.local).state ≡ sh.state)
      × (is_onboarding_incomplete codec sh.local ≡ true)
onboarding_resumes_example =
    onboarding_resumes codec codec-IsFaithful ("8:00") ("9:00") []
      (package_created "p1" "Daily" ∷ [])

resume-on_init_magic_example :
    let fresh = mount (on_init_magic setup filled_in).local in
    let back = on_resume_status setup (some "pending_setup") fresh in
    let online = on_resume_status setup (some "online") fresh in
    (resume clock none fresh ≡ (fresh, some setup))
    × (back.step ≡ command)
    × (back.init_data ≡ (on_init_magic setup filled_in).init_data)
    × (back.router_name ≡ trim filled_in.router_name)
    × (back.site_name ≡ trim filled_in.site_name)
    × (online.step ≡ provision)
    × (online.init_data ≡ (on_init_magic setup filled_in).init_data)
    × (online.ip_range ≡ default_range setup.is_chr)
unfolding frixel_connect.RouterSetup.is_future
resume-on_init_magic_example = resume-on_init_magic clock setup filled_in setup-IsWhole refl
