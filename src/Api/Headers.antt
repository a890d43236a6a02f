-- ===== src/Api/Headers.antt =====
-- Which token a request carries, and what an impersonation tab leaves alone.
use frixel_connect.Base.{
  ◌*◌, ◌≤◌, ◌≡◌, refl, ap, ◌∙◌, false, String, [], ◌∷◌, Option, none, some, arith, truthy, ◌≢◌,
}
use mathlib.Core.Path.{subst}
use frixel_connect.Storage.{get_item}
use frixel_connect.Storage.Laws.{get_item-remove_item}
use frixel_connect.Auth.{
  Browser, DecodedToken, get_token, get_refresh_token, decode_token, is_token_expired,
}
use frixel_connect.Auth.Sessions.{save_tokens_lem, truthy_of_ne}
use frixel_connect.Api.{
  Config, Page, Failure, reject, Reason, on_error, on_refreshed, store_tokens, System, fails, step,
  impersonation_token_key, end_impersonation, starts_refresh, get_request_token, attach_token,
  bearer, call_refresh, begin_refresh,
}
use frixel_connect.Api.Overlap.{end_impersonation-keeps, starts_refresh-to_login}
use frixel_connect.Api.Stuck.{IsFirst401}

not_expired :
    (b : Browser) (token : String) (d : DecodedToken)
    → decode_token b token ≡ some d
    → b.now_ms ≤ d.exp * 1000
    → is_token_expired b token ≡ false
unfolding is_token_expired
not_expired b token d e h = ground arith

attach_token_stored :
    (b : Browser) (p : Page) (config : Config) (token : String)
    → truthy (get_item impersonation_token_key p.session) ≡ none
    → get_token p.local ≡ some token
    → token ≢ ""
    → is_token_expired b token ≡ false
    → (attach_token b p config).authorization ≡ some (bearer token)
unfolding attach_token get_request_token
attach_token_stored b p config token h e ne k = ground (arith, truthy_of_ne token ne)

store_tokens-get_token :
    (d : DecodedToken) (t access refresh : String) (p : Page)
    → d.tenant_id ≡ some t
    → t ≢ ""
    → get_token (store_tokens (some d) access refresh p.local) ≡ some access
unfolding store_tokens
store_tokens-get_token d t access refresh p e ne =
    rw (e, store_tokens)
      (rw (truthy_of_ne t ne, store_tokens) (save_tokens_lem access refresh t t p.local ne).0)

-- After a refresh whose access token names a tenant and has not expired, and outside of an
-- impersonation tab, every request that goes through the request interceptor carries the new
-- token, whatever header it had: also the requests that are sent again.
pub attach_token-on_refreshed :
    (b : Browser) (p : Page) (c config : Config) (access refresh t : String) (d : DecodedToken)
    → truthy (get_item impersonation_token_key p.session) ≡ none
    → decode_token b access ≡ some d
    → access ≢ ""
    → d.tenant_id ≡ some t
    → t ≢ ""
    → b.now_ms ≤ d.exp * 1000
    → (attach_token b (on_refreshed b p c access refresh).0 config).authorization
      ≡ some (bearer access)
unfolding on_refreshed
attach_token-on_refreshed b p c config access refresh t d h e ne e' ne' k =
    attach_token_stored b _ config access h
      (ap (λ o. get_token (store_tokens o access refresh p.local)) e
        ∙ store_tokens-get_token d t access refresh p e' ne')
      ne (not_expired b access d e k)

pub truthy_idem : (o : Option String) (t : String) → truthy o ≡ some t → truthy (some t) ≡ some t
truthy_idem none t e = cc
truthy_idem (some String.[]) t e = cc
truthy_idem (some (String.◌∷◌ c s)) t e = subst (λ o. truthy o ≡ o) e refl

end_impersonation-local : (p : Page) (f : Failure) → (end_impersonation p f).0.local ≡ p.local
unfolding end_impersonation
end_impersonation-local p f = ground arith

-- In an impersonation tab a failure neither starts a refresh nor touches the local storage, the
-- queue or the flag. Its request carries the impersonation token whatever the local storage holds.
pub impersonation_isolated :
    (b : Browser) (p : Page) (f : Failure) (config : Config) (token : String)
    → truthy (get_item impersonation_token_key p.session) ≡ some token
    → ((on_error p f).0.local ≡ p.local)
      × ((on_error p f).0.failed_queue ≡ p.failed_queue)
      × ((on_error p f).0.is_refreshing ≡ p.is_refreshing)
      × (starts_refresh (on_error p f).1 ≡ false)
      × ((attach_token b p config).authorization ≡ some (bearer token))
unfolding on_error attach_token
impersonation_isolated b p f config token h = (
  ground (arith, end_impersonation-local p f),
  ground (arith, end_impersonation-keeps p f),
  ground (arith, end_impersonation-keeps p f),
  ground (arith, end_impersonation-keeps p f),
  ground (arith, truthy_idem (get_item impersonation_token_key p.session) token h),
)

-- In an impersonation tab the first answer 401 ends the impersonation before the page is left. A second one of a
-- request under way finds the session of the tenant that the same browser is signed in to, and
-- refreshes that one.
pub impersonation_second_401 :
    (b : Browser) (s : System) (f g : Failure) (token refresh : String)
    → truthy (get_item impersonation_token_key s.page.session) ≡ some token
    → s.page.is_refreshing ≡ false
    → truthy (get_refresh_token s.page.local) ≡ some refresh
    → IsFirst401 f
    → IsFirst401 g
    → (step b (step b s (fails f)).0 (fails g)).1 ≡ call_refresh refresh ∷ []
unfolding step on_error end_impersonation begin_refresh
impersonation_second_401 b s f g token refresh h q r v w = ground (
  arith,
  get_item-remove_item impersonation_token_key impersonation_token_key s.page.session,
  starts_refresh-to_login s.page (reject f.config.id Reason.original ∷ []),
)
