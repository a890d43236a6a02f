-- ===== src/Onboarding.antt =====
-- The first-run onboarding of a tenant: frontend/src/types/onboarding.ts, hooks/useOnboarding.ts,
-- lib/onboarding.ts, and the state and handlers of pages/admin/onboarding/OnboardingPage.tsx. The
-- state is kept in the local storage as JSON; `JSON.stringify` and `JSON.parse` are the parameter
-- `Codec`, where a text that does not parse is `none`.
pub mod Progress
pub mod Steps
use frixel_connect.Base.{
  ℕ, Bool, true, false, String, Option, none, some, if◌then◌else◌, ◌===◌, truthy, get_or, not, List,
  [], ◌∷◌, ◌++◌,
}
use frixel_connect.Storage.{Storage, get_item, set_item, remove_item}

pub data ServiceType : Type 0 where
  hotspot pppoe : ServiceType

pub data OnboardingStep : Type 0 where
  packages router complete : OnboardingStep

-- An optional field that is absent is null.
pub record OnboardingState : Type 0 where
  pub step : OnboardingStep
  pub packages_done : Bool
  pub router_done : Bool
  pub router_id : Option String
  pub package_id : Option String
  pub router_name : Option String
  pub package_name : Option String
  pub service_type : ServiceType
  pub started_at : String

pub record Codec (A : Type 0) : Type 0 where
  pub encode : A → String
  pub decode : String → Option A

abbrev pub onboarding_state_key : String
onboarding_state_key = "Frixel Connect_onboarding_state"

abbrev pub onboarding_service_key : String
onboarding_service_key = "Frixel Connect_onboarding_service"

-- The fields shared by `DEFAULT_STATE` and by the page's first state.
abbrev pub initial_state : ServiceType → String → OnboardingState
initial_state service_type started_at = record {
  step = OnboardingStep.packages;
  packages_done = false;
  router_done = false;
  router_id = none;
  package_id = none;
  router_name = none;
  package_name = none;
  service_type = service_type;
  started_at = started_at;
}

abbrev pub service_text : ServiceType → String
service_text hotspot = "hotspot"
service_text pppoe = "pppoe"

module _ (c : Codec OnboardingState) where
  unfoldable pub get_onboarding_state : Storage → Option OnboardingState
  get_onboarding_state s = elim (truthy (get_item onboarding_state_key s)) [
    | none ↦ none
    | some raw ↦ c.decode raw
  ]

  -- `loaded_at` is the time of `DEFAULT_STATE`, and `partial` the fields that are written over.
  unfoldable pub save_onboarding_state :
      String → (OnboardingState → OnboardingState) → Storage → Storage
  unfolding get_onboarding_state
  save_onboarding_state loaded_at partial s =
      let existing = get_or (get_onboarding_state s) (initial_state hotspot loaded_at) in
      set_item onboarding_state_key (c.encode (partial existing)) s

  -- A service type in the state is never empty, so it is taken where there is a state.
  unfoldable pub get_service_type : Storage → ServiceType
  unfolding get_onboarding_state
  get_service_type s = elim (get_onboarding_state s) [
    | some state ↦ state.service_type
    | none ↦ elim (get_item onboarding_service_key s) [
      | none ↦ hotspot
      | some stored ↦ if stored === "pppoe" then pppoe else hotspot
    ]
  ]

  unfoldable pub init_onboarding_state : ServiceType → String → Storage → Storage
  init_onboarding_state service_type now s =
      set_item onboarding_state_key (c.encode (initial_state service_type now))
        (set_item onboarding_service_key (service_text service_type) s)

  unfoldable pub is_onboarding_incomplete : Storage → Bool
  unfolding get_onboarding_state
  is_onboarding_incomplete s = elim (get_onboarding_state s) [
    | none ↦ false
    | some state ↦ elim state.step [ packages ↦ true | router ↦ true | complete ↦ false ]
  ]

unfoldable pub clear_onboarding_state : Storage → Storage
clear_onboarding_state s = remove_item onboarding_service_key (remove_item onboarding_state_key s)

-- The page: its React state and the storage.
pub record Shell : Type 0 where
  pub state : OnboardingState
  pub local : Storage

abbrev pub is_complete : OnboardingStep → Bool
is_complete complete = true
is_complete _ = false

-- `advanceTo(step, patch)`, as the new state.
pub data Action : Type 0 where
  package_created : String → String → Action
  skip_package : Action
  router_complete : String → String → Action
  skip_router : Action

unfoldable pub advance : OnboardingState → Action → OnboardingState
advance st (package_created id name) = record st {
  packages_done = true;
  package_id = some id;
  package_name = some name;
  step = router;
}
advance st skip_package = record st { packages_done = false; step = router }
advance st (router_complete id name) = record st {
  router_done = true;
  router_id = some id;
  router_name = some name;
  step = complete;
}
advance st skip_router = record st { router_done = false; step = complete }

-- Which step shows the control of an action.
abbrev pub offers : OnboardingStep → Action → Bool
offers packages (package_created id name) = true
offers packages skip_package = true
offers router (router_complete id name) = true
offers router skip_router = true
offers _ _ = false

module _ (c : Codec OnboardingState) where
  -- The two effects after a render with a new state: the state is written, and where the step has
  -- become `complete` the storage is cleared.
  pub run_effects : String → OnboardingState → Storage → Storage
  unfolding save_onboarding_state clear_onboarding_state
  run_effects loaded_at state s =
      let written = save_onboarding_state c loaded_at (λ _. state) s in
      if is_complete state.step then clear_onboarding_state written else written

  -- The mount of the page at the time `now`.
  unfoldable pub open_shell : String → Storage → Shell
  unfolding run_effects get_onboarding_state get_service_type
  open_shell now s =
      let state = get_or (get_onboarding_state c s) (initial_state (get_service_type c s) now) in
      record { state = state; local = run_effects now state s }

  -- An action whose control is on the screen; each changes the step.
  unfoldable pub act : String → Shell → Action → Shell
  unfolding run_effects advance
  act now sh a =
      let next = advance sh.state a in
      if offers sh.state.step a
      then record { state = next; local = run_effects now next sh.local }
      else sh

  unfoldable pub act_all : String → Shell → List Action → Shell
  unfolding act
  act_all now sh [] = sh
  act_all now sh (a ∷ as') = act_all now (act now sh a) as'
