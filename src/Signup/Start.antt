-- ===== src/Signup/Start.antt =====
-- What a sign-up leaves in the browser: a session, and an onboarding that starts.
use frixel_connect.Base.{
  ◌≡◌, refl, ap, ◌∙◌, false, true, String, none, some, truthy, ◌===◌, strip_prefix,
}
use frixel_connect.Storage.{Storage, get_item}
use frixel_connect.Storage.Laws.{get_item-set_item}
use frixel_connect.Auth.{
  Browser, DecodedToken, token_key, refresh_key, token_prefix, refresh_prefix, get_token,
  get_refresh_token, save_token, save_refresh_token,
}
use frixel_connect.Auth.Keys.{===-ne}
use frixel_connect.Auth.Sessions.{
  get_token_cong, get_refresh_token_cong, save_tokens_lem, truthy_of_ne,
}
use frixel_connect.Portal.{Portal, user_of, init_auth, mount}
use frixel_connect.Portal.Laws.{IsUsable, login-eq, init_auth_usable}
use frixel_connect.Onboarding.{
  ServiceType, OnboardingState, Codec, onboarding_state_key, onboarding_service_key, initial_state,
  init_onboarding_state, get_onboarding_state, is_onboarding_incomplete, open_shell,
}
use frixel_connect.Onboarding.Progress.{IsFaithful, open_shell-stored, incomplete_of_stored}
use frixel_connect.Signup.{SignupForm, on_registered}

state-token_key : (t : String) → (onboarding_state_key === token_key t) ≡ false
unfolding token_key
state-token_key t = ===-ne _ _ (λ e. cc (ap (strip_prefix token_prefix) e))

service-token_key : (t : String) → (onboarding_service_key === token_key t) ≡ false
unfolding token_key
service-token_key t = ===-ne _ _ (λ e. cc (ap (strip_prefix token_prefix) e))

state-refresh_key : (t : String) → (onboarding_state_key === refresh_key t) ≡ false
unfolding refresh_key
state-refresh_key t = ===-ne _ _ (λ e. cc (ap (strip_prefix refresh_prefix) e))

service-refresh_key : (t : String) → (onboarding_service_key === refresh_key t) ≡ false
unfolding refresh_key
service-refresh_key t = ===-ne _ _ (λ e. cc (ap (strip_prefix refresh_prefix) e))

ruleset apart =
    (get_item-set_item, state-token_key, service-token_key, state-refresh_key, service-refresh_key)

module _ (c : Codec OnboardingState) (service : ServiceType) (now : String) (s : Storage) where
  init-get_token : get_token (init_onboarding_state c service now s) ≡ get_token s
  unfolding init_onboarding_state
  init-get_token = get_token_cong s _ (simp apart) (λ t. simp apart)

  init-get_refresh_token :
      get_refresh_token (init_onboarding_state c service now s) ≡ get_refresh_token s
  unfolding init_onboarding_state
  init-get_refresh_token = get_refresh_token_cong s _ (simp apart) (λ t. simp apart)

  init-get_item :
      get_item onboarding_state_key (init_onboarding_state c service now s)
      ≡ some (c.encode (initial_state service now))
  unfolding init_onboarding_state
  init-get_item = simp apart

module _ (c : Codec OnboardingState) (f : IsFaithful c) where
  get_state-init :
      (service : ServiceType) (now : String) (s : Storage)
      → get_onboarding_state c (init_onboarding_state c service now s)
        ≡ some (initial_state service now)
  unfolding get_onboarding_state
  get_state-init service now s =
      let st : OnboardingState = initial_state service now in
      rw (init-get_item c service now s, get_onboarding_state)
        (rw (truthy_of_ne (c.encode st) (f.not_empty st), get_onboarding_state) (f.reads_back st))

-- After a sign-up with a usable access token, where JSON reads back what it wrote, the page shows the onboarding for this user, the
-- onboarding starts with the chosen service type and counts as incomplete, and a reload finds the
-- user again. The session has no refresh token to be renewed with: what is stored as one is empty.
pub on_registered_lem :
    (b : Browser) (c : Codec OnboardingState) (access now later t location : String)
    (d : DecodedToken) (form : SignupForm) (p : Portal)
    → IsUsable b access d t
    → IsFaithful c
    → let q = on_registered b c access now form p in
      (q.user ≡ some (user_of d))
      × (q.location ≡ "/admin/onboarding")
      × ((open_shell c later q.local).state ≡ initial_state form.service_type now)
      × (is_onboarding_incomplete c q.local ≡ true)
      × ((init_auth b (mount q.local location)).user ≡ some (user_of d))
      × (truthy (get_refresh_token q.local) ≡ none)
unfolding on_registered mount
on_registered_lem b c access now later t location d form p u f =
    let saved : Storage = save_refresh_token "" t (save_token access t p.local) in
    let local : Storage = init_onboarding_state c form.service_type now saved in
    let kept = save_tokens_lem access "" t t p.local u.named in
    let stored = get_state-init c f form.service_type now saved in
    let reads = init-get_token c form.service_type now saved ∙ kept.0 in
    let renews = init-get_refresh_token c form.service_type now saved ∙ kept.1 in
    rw (login-eq b access "" t d u p) (
      refl,
      refl,
      open_shell-stored c f later local _ stored,
      incomplete_of_stored c f local _ stored ∙ refl,
      ap (λ r. r.user) (init_auth_usable b access "" t d u (mount local location) reads),
      ap truthy renews,
    )
