-- ===== src/Api/Queue.antt =====
-- The queue of requests that wait for a refresh: none of them is lost, none settled twice.
use frixel_connect.Base.{
  ℕ, ◌+◌, ◌≡◌, refl, String, List, [], ◌∷◌, ◌++◌, map, Option, none, some, inl, inr, if◌then◌else◌,
  ◌==◌, arith, Option-cases,
}
use frixel_connect.Auth.{Browser}
use frixel_connect.Api.{
  Config, Page, Failure, Reason, Effect, reject, resend, call_refresh, navigate, to_login,
  end_impersonation, begin_refresh, on_error, with_bearer, on_refreshed, on_refresh_failed, System,
  Event, fails, refreshed, refresh_fails, starts_refresh, step, run,
}
use frixel_connect.Api.Overlap.{
  Consistent, starts_refresh-to_login, begin_refresh-queue, end_impersonation-keeps,
  on_error-starts, step-Consistent,
}

-- How often a request is waiting: in the queue, or as the one whose refresh call is in flight.
unfoldable pub queued : ℕ → List Config → ℕ
queued n [] = 0
queued n (c ∷ cs) = (if c.id == n then 1 else 0) + queued n cs

abbrev flying : ℕ → Option Config → ℕ
flying n none = 0
flying n (some c) = if c.id == n then 1 else 0

unfoldable pub owed : ℕ → System → ℕ
unfolding queued
owed n s = queued n s.page.failed_queue + flying n s.in_flight

-- How often the promise of a request is settled: rejected, or followed by a new attempt.
unfoldable pub settled : ℕ → List Effect → ℕ
settled n [] = 0
settled n (reject i r ∷ es) = (if i == n then 1 else 0) + settled n es
settled n (resend c ∷ es) = (if c.id == n then 1 else 0) + settled n es
settled n (call_refresh _ ∷ es) = settled n es
settled n (navigate _ ∷ es) = settled n es

-- How often an event hands over a failed request.
unfoldable pub arrives : ℕ → Event → ℕ
arrives n (fails f) = if f.config.id == n then 1 else 0
arrives n _ = 0

pub queued-append :
    (n : ℕ) (cs : List Config) (c : Config)
    → queued n (cs ++ c ∷ []) ≡ queued n cs + (if c.id == n then 1 else 0)
unfolding queued
queued-append n [] c = omega arith
queued-append n (d ∷ cs) c = omega (arith, queued-append n cs c)

settled-to_login :
    (n : ℕ) (p : Page) (es : List Effect) → settled n (to_login p ++ es) ≡ settled n es
unfolding to_login settled
settled-to_login n p es = ground arith

settled-resends :
    (n : ℕ) (token : String) (cs : List Config)
    → settled n (map (λ c. resend (with_bearer token c)) cs) ≡ queued n cs
unfolding settled queued
settled-resends n token [] = refl
settled-resends n token (c ∷ cs) = omega (arith, settled-resends n token cs)

settled-rejects :
    (n : ℕ) (cs : List Config) (es : List Effect)
    → settled n (map (λ c. reject c.id Reason.refresh_error) cs ++ es) ≡ queued n cs + settled n es
unfolding settled queued
settled-rejects n [] es = omega arith
settled-rejects n (c ∷ cs) es = omega (arith, settled-rejects n cs es)

end_impersonation-settled :
    (n : ℕ) (p : Page) (f : Failure) → settled n (end_impersonation p f).1 ≡ arrives n (fails f)
unfolding end_impersonation settled arrives
end_impersonation-settled n p f =
    ground (arith, settled-to_login n p (reject f.config.id Reason.original ∷ []))

begin_refresh-settled :
    (n : ℕ) (p : Page) (c : Config)
    → settled n (begin_refresh p c).1
        + flying n (if starts_refresh (begin_refresh p c).1 then some c else none)
      ≡ (if c.id == n then 1 else 0)
unfolding begin_refresh settled
begin_refresh-settled n p c = ground (
  arith,
  settled-to_login n p (reject c.id Reason.original ∷ []),
  starts_refresh-to_login p (reject c.id Reason.original ∷ []),
)

abbrev started : Config → List Effect → Option Config
started c es = if starts_refresh es then some c else none

on_error-owed :
    (n : ℕ) (p : Page) (f : Failure)
    → settled n (on_error p f).1
        + queued n (on_error p f).0.failed_queue
        + flying n (started f.config (on_error p f).1)
      ≡ queued n p.failed_queue + arrives n (fails f)
unfolding on_error settled arrives
on_error-owed n p f = ground (
  arith,
  end_impersonation-settled n p f,
  end_impersonation-keeps p f,
  begin_refresh-settled n p f.config,
  begin_refresh-queue p f.config,
  queued-append n p.failed_queue f.config,
)

on_refreshed-owed :
    (n : ℕ) (b : Browser) (p : Page) (c : Config) (access refresh : String)
    → settled n (on_refreshed b p c access refresh).1 ≡ queued n p.failed_queue + flying n (some c)
unfolding on_refreshed settled
on_refreshed-owed n b p c access refresh = omega (arith, settled-resends n access p.failed_queue)

on_refresh_failed-owed :
    (n : ℕ) (p : Page) (c : Config)
    → settled n (on_refresh_failed p c).1 ≡ queued n p.failed_queue + flying n (some c)
unfolding on_refresh_failed settled
on_refresh_failed-owed n p c = omega (
  arith,
  settled-rejects n p.failed_queue (to_login p ++ reject c.id Reason.refresh_error ∷ []),
  settled-to_login n p (reject c.id Reason.refresh_error ∷ []),
)

on_refreshed-queue :
    (b : Browser) (p : Page) (c : Config) (access refresh : String)
    → (on_refreshed b p c access refresh).0.failed_queue ≡ []
unfolding on_refreshed
on_refreshed-queue b p c access refresh = refl

on_refresh_failed-queue : (p : Page) (c : Config) → (on_refresh_failed p c).0.failed_queue ≡ []
unfolding on_refresh_failed
on_refresh_failed-queue p c = refl

-- No request is lost or settled twice: what was waiting or arrives is settled in this turn or waits
-- after it, each as often.
pub step-owed :
    (b : Browser) (s : System) (e : Event) (n : ℕ)
    → Consistent s
    → settled n (step b s e).1 + owed n (step b s e).0 ≡ owed n s + arrives n e
unfolding step owed queued settled arrives
step-owed b s (fails f) n v = ground (arith, on_error-owed n s.page f, on_error-starts s.page f)
step-owed b s (refreshed access refresh) n v = elim (Option-cases s.in_flight) [
  | inl e ↦ ground arith
  | inr (c, e) ↦ ground (
    arith,
    on_refreshed-owed n b s.page c access refresh,
    on_refreshed-queue b s.page c access refresh,
  )
]
step-owed b s refresh_fails n v = elim (Option-cases s.in_flight) [
  | inl e ↦ ground arith
  | inr (c, e) ↦ ground (arith, on_refresh_failed-owed n s.page c, on_refresh_failed-queue s.page c)
]

-- The effects of a whole history, and what it hands over.
unfoldable pub run_settled : Browser → ℕ → System → List Event → ℕ
run_settled b n s [] = 0
run_settled b n s (e ∷ es) = settled n (step b s e).1 + run_settled b n (step b s e).0 es

unfoldable pub run_arrives : ℕ → List Event → ℕ
run_arrives n [] = 0
run_arrives n (e ∷ es) = arrives n e + run_arrives n es

-- Over any history of failures and answers, a request is settled as often as it was handed over,
-- less the times that it still waits; and the page is consistent in the end.
pub run-owed :
    (b : Browser) (s : System) (es : List Event) (n : ℕ)
    → Consistent s
    → Consistent (run b s es)
      × (run_settled b n s es + owed n (run b s es) ≡ owed n s + run_arrives n es)
unfolding run run_settled run_arrives
run-owed b s [] n v = (v, omega arith)
run-owed b s (e ∷ es) n v =
    let (later, total) = run-owed b (step b s e).0 es n (step-Consistent b s e v) in
    (later, omega (arith, total, step-owed b s e n v))
