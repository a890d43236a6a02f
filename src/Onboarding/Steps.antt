-- ===== src/Onboarding/Steps.antt =====
-- What the state of the onboarding says about the steps that were taken.
use frixel_connect.Base.{
  ℕ, is_some, suc, ◌+◌, ◌≤◌, ◌≡◌, refl, ◌∙◌, true, String, none, arith, List, [], ◌∷◌,
  if◌then◌else◌, ◌⊎◌, inl, inr, Bool-cases,
}
use frixel_connect.Storage.{Storage}
use frixel_connect.Onboarding.{
  OnboardingStep, packages, router, complete, OnboardingState, Codec, initial_state,
  get_onboarding_state, get_service_type, Shell, Action, package_created, skip_package,
  router_complete, skip_router, advance, offers, open_shell, act, act_all,
}

abbrev rank : OnboardingStep → ℕ
rank packages = 0
rank router = 1
rank complete = 2

act-state :
    (c : Codec OnboardingState) (now : String) (sh : Shell) (a : Action)
    → (act c now sh a).state ≡ (if offers sh.state.step a then advance sh.state a else sh.state)
unfolding act
act-state c now sh a = ground arith

advance-rank :
    (st : OnboardingState) (k : OnboardingStep) (a : Action)
    → offers k a ≡ true
    → rank (advance st a).step ≡ suc (rank k)
unfolding advance
advance-rank st packages (package_created id name) h = refl
advance-rank st packages skip_package h = refl
advance-rank st router (router_complete id name) h = refl
advance-rank st router skip_router h = refl
advance-rank st packages (router_complete id name) h = cc
advance-rank st packages skip_router h = cc
advance-rank st router (package_created id name) h = cc
advance-rank st router skip_package h = cc
advance-rank st complete a h = cc

-- What a state records of the steps taken: a part is marked as done exactly when its id is there,
-- and no id is there before its step is over.
pub record IsTruthful (st : OnboardingState) : Type 0 where
  pub packages : st.packages_done ≡ is_some st.package_id
  pub router : st.router_done ≡ is_some st.router_id
  pub no_package : (1 ≤ rank st.step) ⊎ (st.package_id ≡ none)
  pub no_router : (2 ≤ rank st.step) ⊎ (st.router_id ≡ none)

advance-IsTruthful :
    (st : OnboardingState) (a : Action)
    → offers st.step a ≡ true
    → IsTruthful st
    → IsTruthful (advance st a)
unfolding advance
advance-IsTruthful st (package_created id name) h v = ground arith
advance-IsTruthful st skip_package h v = ground arith
advance-IsTruthful st (router_complete id name) h v = ground arith
advance-IsTruthful st skip_router h v = ground arith

act-IsTruthful :
    (c : Codec OnboardingState) (now : String) (sh : Shell) (a : Action)
    → IsTruthful sh.state
    → IsTruthful (act c now sh a).state
act-IsTruthful c now sh a v = elim (Bool-cases (offers sh.state.step a)) [
  | inl e ↦ rw (act-state c now sh a, e) (advance-IsTruthful sh.state a e v)
  | inr e ↦ rw (act-state c now sh a, e) v
]

act_all-IsTruthful :
    (c : Codec OnboardingState) (now : String) (sh : Shell) (as' : List Action)
    → IsTruthful sh.state
    → IsTruthful (act_all c now sh as').state
unfolding act_all
act_all-IsTruthful c now sh [] v = v
act_all-IsTruthful c now sh (a ∷ as') v =
    act_all-IsTruthful c now (act c now sh a) as' (act-IsTruthful c now sh a v)

-- A page that is opened with nothing stored starts with the service type that was chosen at the
-- sign-up, and whatever is done on it, its state tells what was done: a part is marked as done exactly
-- when the id of what was made is there.
pub fresh-IsTruthful :
    (c : Codec OnboardingState) (now : String) (s : Storage) (as' : List Action)
    → get_onboarding_state c s ≡ none
    → ((open_shell c now s).state ≡ initial_state (get_service_type c s) now)
      × IsTruthful (act_all c now (open_shell c now s) as').state
unfolding open_shell
fresh-IsTruthful c now s as' e = (
  rw (e, open_shell) refl,
  act_all-IsTruthful c now (open_shell c now s) as' (
      rw (e, open_shell)
        (record { packages = refl; router = refl; no_package = inr refl; no_router = inr refl })),
)

-- An action moves the page exactly one step on if its control is shown, and changes nothing if it is not.
pub act-progress :
    (c : Codec OnboardingState) (now : String) (sh : Shell) (a : Action)
    → rank (act c now sh a).state.step
      ≡ rank sh.state.step + (if offers sh.state.step a then 1 else 0)
act-progress c now sh a = elim (Bool-cases (offers sh.state.step a)) [
  | inl e ↦ rw (act-state c now sh a, e) (advance-rank sh.state sh.state.step a e ∙ omega arith)
  | inr e ↦ rw (act-state c now sh a, e) (omega arith)
]
