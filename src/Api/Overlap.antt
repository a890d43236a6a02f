-- ===== src/Api/Overlap.antt =====
-- One refresh call at a time: when the flag `isRefreshing` is set, and when requests wait.
use frixel_connect.Base.{
  ◌≡◌, refl, ◌∙◌, true, false, String, List, [], ◌∷◌, ◌++◌, map, none, ◌⊎◌, inl, inr, arith,
  Option-cases,
}
use frixel_connect.Auth.{Browser}
use frixel_connect.Api.{
  Config, Page, Failure, Reason, Effect, reject, resend, to_login, end_impersonation, begin_refresh,
  on_error, with_bearer, on_refreshed, on_refresh_failed, System, Event, fails, refreshed,
  refresh_fails, starts_refresh, step, run,
}

-- While a refresh call is in flight the flag is set, and while the flag is not set nothing waits.
pub record Consistent (s : System) : Type 0 where
  pub flagged : (s.in_flight ≡ none) ⊎ (s.page.is_refreshing ≡ true)
  pub waiting : (s.page.failed_queue ≡ []) ⊎ (s.page.is_refreshing ≡ true)

pub starts_refresh-to_login :
    (p : Page) (es : List Effect) → starts_refresh (to_login p ++ es) ≡ starts_refresh es
unfolding to_login
starts_refresh-to_login p es = ground arith

pub begin_refresh-flag : (p : Page) (c : Config) → (begin_refresh p c).0.is_refreshing ≡ true
unfolding begin_refresh
begin_refresh-flag p c = ground arith

pub begin_refresh-queue :
    (p : Page) (c : Config) → (begin_refresh p c).0.failed_queue ≡ p.failed_queue
unfolding begin_refresh
begin_refresh-queue p c = ground arith

pub end_impersonation-keeps :
    (p : Page) (f : Failure)
    → ((end_impersonation p f).0.is_refreshing ≡ p.is_refreshing)
      × ((end_impersonation p f).0.failed_queue ≡ p.failed_queue)
      × (starts_refresh (end_impersonation p f).1 ≡ false)
unfolding end_impersonation
end_impersonation-keeps p f =
    ground (arith, starts_refresh-to_login p (reject f.config.id Reason.original ∷ []))

-- A failure starts a refresh call only while the flag is not set, and then it sets the flag.
pub on_error-starts :
    (p : Page) (f : Failure)
    → starts_refresh (on_error p f).1 ≡ true
    → (p.is_refreshing ≡ false) × ((on_error p f).0.is_refreshing ≡ true)
unfolding on_error
on_error-starts p f h = ground (arith, end_impersonation-keeps p f, begin_refresh-flag p f.config)

-- The flag once set is kept by a failure, and a request is queued only under the flag.
pub on_error-flag :
    (p : Page) (f : Failure)
    → ((p.is_refreshing ≡ false) ⊎ ((on_error p f).0.is_refreshing ≡ true))
      × (((on_error p f).0.failed_queue ≡ p.failed_queue) ⊎ ((on_error p f).0.is_refreshing ≡ true))
unfolding on_error
on_error-flag p f = ground (arith, end_impersonation-keeps p f, begin_refresh-flag p f.config)

-- Every turn of the event loop keeps the page consistent.
pub step-Consistent :
    (b : Browser) (s : System) (e : Event) → Consistent s → Consistent (step b s e).0
unfolding step
step-Consistent b s (fails f) v = ground (arith, on_error-starts s.page f, on_error-flag s.page f)
step-Consistent b s (refreshed access refresh) v = ground arith
step-Consistent b s refresh_fails v = ground arith

starts_refresh-resends :
    (token : String) (cs : List Config)
    → starts_refresh (map (λ c. resend (with_bearer token c)) cs) ≡ false
starts_refresh-resends token [] = refl
starts_refresh-resends token (c ∷ cs) = starts_refresh-resends token cs

starts_refresh-rejects :
    (cs : List Config) (es : List Effect)
    → starts_refresh (map (λ c. reject c.id Reason.refresh_error) cs ++ es) ≡ starts_refresh es
starts_refresh-rejects [] es = refl
starts_refresh-rejects (c ∷ cs) es = starts_refresh-rejects cs es

on_refreshed-starts :
    (b : Browser) (p : Page) (c : Config) (access refresh : String)
    → starts_refresh (on_refreshed b p c access refresh).1 ≡ false
unfolding on_refreshed
on_refreshed-starts b p c access refresh = starts_refresh-resends access p.failed_queue

on_refresh_failed-starts :
    (p : Page) (c : Config) → starts_refresh (on_refresh_failed p c).1 ≡ false
unfolding on_refresh_failed
on_refresh_failed-starts p c = starts_refresh-rejects p.failed_queue _ ∙ starts_refresh-to_login p _

-- When a turn starts a refresh call from a consistent page, none is in flight.
step-no_overlap :
    (b : Browser) (s : System) (e : Event)
    → Consistent s
    → starts_refresh (step b s e).1 ≡ true
    → s.in_flight ≡ none
unfolding step
step-no_overlap b s (fails f) v h = ground (arith, on_error-starts s.page f)
step-no_overlap b s (refreshed access refresh) v h = elim (Option-cases s.in_flight) [
  | inl e ↦ e
  | inr (c, e) ↦ ground (arith, on_refreshed-starts b s.page c access refresh)
]
step-no_overlap b s refresh_fails v h = elim (Option-cases s.in_flight) [
  | inl e ↦ e
  | inr (c, e) ↦ ground (arith, on_refresh_failed-starts s.page c)
]

run-Consistent :
    (b : Browser) (s : System) (es : List Event) → Consistent s → Consistent (run b s es)
unfolding run
run-Consistent b s [] v = v
run-Consistent b s (e ∷ es) v = run-Consistent b (step b s e).0 es (step-Consistent b s e v)

-- Two refresh calls never overlap: from a page on which no call is in flight and no request waits, after any history of failures and
-- answers, a turn that starts a refresh call finds none in flight.
pub run-no_overlap :
    (b : Browser) (s : System) (es : List Event) (e : Event)
    → s.in_flight ≡ none
    → s.page.failed_queue ≡ []
    → starts_refresh (step b (run b s es) e).1 ≡ true
    → (run b s es).in_flight ≡ none
run-no_overlap b s es e idle empty h =
    step-no_overlap b (run b s es) e
      (run-Consistent b s es (record { flagged = inl idle; waiting = inl empty })) h
