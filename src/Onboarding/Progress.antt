-- ===== src/Onboarding/Progress.antt =====
-- Onboarding survives a reload until it is complete, and leaves nothing behind then.
use frixel_connect.Base.{
  not, ◌≡◌, refl, ◌≢◌, ◌∙◌, ap, Bool, true, false, String, none, some, arith, List, [], ◌∷◌, get_or,
  if◌then◌else◌, inl, inr, Bool-cases,
}
use frixel_connect.Storage.{Storage, get_item, remove_item}
use frixel_connect.Storage.Laws.{get_item-set_item, get_item-remove_item}
use frixel_connect.Auth.Sessions.{truthy_of_ne}
use frixel_connect.Onboarding.{
  hotspot, OnboardingState, Codec, onboarding_state_key, onboarding_service_key, initial_state,
  get_onboarding_state, save_onboarding_state, is_onboarding_incomplete, clear_onboarding_state,
  Shell, is_complete, Action, advance, offers, run_effects, open_shell, act, act_all,
}

-- What the program relies on of JSON: a value that was written reads back, and no value is written
-- as the empty text.
pub record IsFaithful (c : Codec OnboardingState) : Type 0 where
  pub reads_back : (st : OnboardingState) → c.decode (c.encode st) ≡ some st
  pub not_empty : (st : OnboardingState) → c.encode st ≢ ""

-- The same split in two statements.
map_if :
    (b : Bool) {P Q R S : Type 0}
    → (b ≡ true → P → R)
    → (b ≡ false → Q → S)
    → (if b then P else Q)
    → (if b then R else S)
map_if true f g v = f refl v
map_if false f g v = g refl v

clear-keys :
    (s : Storage)
    → (get_item onboarding_state_key (clear_onboarding_state s) ≡ none)
      × (get_item onboarding_service_key (clear_onboarding_state s) ≡ none)
unfolding clear_onboarding_state
clear-keys s = (
  get_item-remove_item onboarding_service_key onboarding_state_key
        (remove_item onboarding_state_key s)
      ∙ get_item-remove_item onboarding_state_key onboarding_state_key s,
  get_item-remove_item onboarding_service_key onboarding_service_key
      (remove_item onboarding_state_key s),
)

module _ (c : Codec OnboardingState) (f : IsFaithful c) where
  get-save :
      (now : String) (partial : OnboardingState → OnboardingState) (s : Storage)
      → get_onboarding_state c (save_onboarding_state c now partial s)
        ≡ some (partial (get_or (get_onboarding_state c s) (initial_state hotspot now)))
  unfolding get_onboarding_state save_onboarding_state
  get-save now partial s =
      let st : OnboardingState =
        partial (get_or (get_onboarding_state c s) (initial_state hotspot now)) in
      let raw : String = c.encode st in
      rw (get_item-set_item onboarding_state_key onboarding_state_key raw s, get_onboarding_state)
        (rw (truthy_of_ne raw (f.not_empty st), get_onboarding_state) (f.reads_back st))

  get-clear : (s : Storage) → get_onboarding_state c (clear_onboarding_state s) ≡ none
  unfolding get_onboarding_state clear_onboarding_state
  get-clear s =
      rw
        (
          get_item-remove_item onboarding_service_key onboarding_state_key
              (remove_item onboarding_state_key s),
          get_item-remove_item onboarding_state_key onboarding_state_key s,
          get_onboarding_state,
        )
        refl

  -- What the page keeps: a state that is not complete reads back, and of a complete one there is
  -- neither key.
  abbrev pub IsKept : Shell → Type 0
  IsKept sh =
      if is_complete sh.state.step
      then (get_item onboarding_state_key sh.local ≡ none)
        × (get_item onboarding_service_key sh.local ≡ none)
      else get_onboarding_state c sh.local ≡ some sh.state

  run_effects-IsKept :
      (now : String) (st : OnboardingState) (s : Storage)
      → IsKept (record { state = st; local = run_effects c now st s })
  unfolding run_effects
  run_effects-IsKept now st s = elim (Bool-cases (is_complete st.step)) [
    | inl e ↦ rw e (clear-keys (save_onboarding_state c now (λ _. st) s))
    | inr e ↦ rw e (get-save now (λ _. st) s)
  ]

  open_shell-IsKept : (now : String) (s : Storage) → IsKept (open_shell c now s)
  unfolding open_shell
  open_shell-IsKept now s = run_effects-IsKept now _ s

  act-IsKept : (now : String) (sh : Shell) (a : Action) → IsKept sh → IsKept (act c now sh a)
  unfolding act
  act-IsKept now sh a v = elim (Bool-cases (offers sh.state.step a)) [
    | inl e ↦ rw (e, act) (run_effects-IsKept now (advance sh.state a) sh.local)
    | inr e ↦ rw (e, act) v
  ]

  act_all-IsKept :
      (now : String) (sh : Shell) (as' : List Action) → IsKept sh → IsKept (act_all c now sh as')
  unfolding act_all
  act_all-IsKept now sh [] v = v
  act_all-IsKept now sh (a ∷ as') v =
      act_all-IsKept now (act c now sh a) as' (act-IsKept now sh a v)

  pub open_shell-stored :
      (now : String) (s : Storage) (st : OnboardingState)
      → get_onboarding_state c s ≡ some st
      → (open_shell c now s).state ≡ st
  unfolding open_shell
  open_shell-stored now s st e = ground (arith, e)

  pub incomplete_of_stored :
      (s : Storage) (st : OnboardingState)
      → get_onboarding_state c s ≡ some st
      → is_onboarding_incomplete c s ≡ not (is_complete st.step)
  unfolding is_onboarding_incomplete
  incomplete_of_stored s st e = rw (e, is_onboarding_incomplete) (ground arith)

  incomplete_of_none :
      (s : Storage) → get_item onboarding_state_key s ≡ none → is_onboarding_incomplete c s ≡ false
  unfolding is_onboarding_incomplete get_onboarding_state
  incomplete_of_none s e = rw (e, is_onboarding_incomplete) refl

  abbrev IsResumable : String → Shell → Type 0
  IsResumable later sh =
      if is_complete sh.state.step
      then (get_item onboarding_state_key sh.local ≡ none)
        × (get_item onboarding_service_key sh.local ≡ none)
        × (is_onboarding_incomplete c sh.local ≡ false)
      else ((open_shell c later sh.local).state ≡ sh.state)
        × (is_onboarding_incomplete c sh.local ≡ true)

  IsResumable-of_kept : (later : String) (sh : Shell) → IsKept sh → IsResumable later sh
  IsResumable-of_kept later sh =
      map_if (is_complete sh.state.step) (λ _ (k, j). (k, j, incomplete_of_none sh.local k))
        (λ e k. (
          open_shell-stored later sh.local sh.state k,
          incomplete_of_stored sh.local sh.state k ∙ ap not e,
        ))

  -- Where JSON reads back what it wrote: after any actions on the page the storage holds its state, so that a reload at any later time
  -- resumes with the same state and the dashboard still counts the onboarding as incomplete; unless
  -- the state is complete: then neither key of the onboarding is left.
  pub onboarding_resumes :
      (now later : String) (s : Storage) (as' : List Action)
      → let sh = act_all c now (open_shell c now s) as' in
        if is_complete sh.state.step
        then (get_item onboarding_state_key sh.local ≡ none)
          × (get_item onboarding_service_key sh.local ≡ none)
          × (is_onboarding_incomplete c sh.local ≡ false)
        else ((open_shell c later sh.local).state ≡ sh.state)
          × (is_onboarding_incomplete c sh.local ≡ true)
  onboarding_resumes now later s as' =
      IsResumable-of_kept later _ (act_all-IsKept now _ as' (open_shell-IsKept now s))
