-- ===== src/Api/Stuck.antt =====
-- The branch of the response interceptor that finds no refresh token leaves `isRefreshing` set.
use frixel_connect.Base.{ℕ, ◌≤◌, ◌≡◌, true, false, List, [], ◌∷◌, none, some, arith, truthy}
use frixel_connect.Storage.{get_item}
use frixel_connect.Auth.{Browser, get_refresh_token}
use frixel_connect.Api.{
  Page, Failure, reject, Reason, on_error, System, Event, fails, refreshed, refresh_fails, step,
  run, impersonation_token_key, begin_refresh, starts_refresh,
}
use frixel_connect.Api.Queue.{queued, owed, queued-append}
use frixel_connect.Api.Overlap.{end_impersonation-keeps, starts_refresh-to_login}

-- The flag is set, and no refresh call is in flight that could reset it.
pub record IsStuck (s : System) : Type 0 where
  pub flag : s.page.is_refreshing ≡ true
  pub idle : s.in_flight ≡ none

on_error-stuck :
    (n : ℕ) (p : Page) (f : Failure)
    → p.is_refreshing ≡ true
    → ((on_error p f).0.is_refreshing ≡ true)
      × (starts_refresh (on_error p f).1 ≡ false)
      × (queued n p.failed_queue ≤ queued n (on_error p f).0.failed_queue)
unfolding on_error
on_error-stuck n p f h =
    ground (arith, end_impersonation-keeps p f, queued-append n p.failed_queue f.config)

step-IsStuck :
    (b : Browser) (s : System) (e : Event) (n : ℕ)
    → IsStuck s
    → IsStuck (step b s e).0 × (owed n s ≤ owed n (step b s e).0)
unfolding step owed
step-IsStuck b s (fails f) n v = ground (arith, on_error-stuck n s.page f)
step-IsStuck b s (refreshed access refresh) n v = ground arith
step-IsStuck b s refresh_fails n v = ground arith

-- From such a page on, whatever happens short of a reload, no waiting request is ever settled.
pub run-IsStuck :
    (b : Browser) (s : System) (es : List Event) (n : ℕ)
    → IsStuck s
    → IsStuck (run b s es) × (owed n s ≤ owed n (run b s es))
unfolding run
run-IsStuck b s [] n v = (v, omega arith)
run-IsStuck b s (e ∷ es) n v =
    let (now, grows) = step-IsStuck b s e n v in
    let (later, more) = run-IsStuck b (step b s e).0 es n now in (later, omega (arith, grows, more))

-- A page without an impersonation token and without a refresh token, where nothing is in flight.
pub record IsSignedOut (s : System) : Type 0 where
  pub plain : truthy (get_item impersonation_token_key s.page.session) ≡ none
  pub tokenless : truthy (get_refresh_token s.page.local) ≡ none
  pub quiet : s.page.is_refreshing ≡ false
  pub idle : s.in_flight ≡ none

-- A first answer 401 that the interceptor would refresh for.
pub record IsFirst401 (f : Failure) : Type 0 where
  pub status : f.status ≡ some 401
  pub fresh : f.config.retry ≡ false

first_401 :
    (b : Browser) (s : System) (f : Failure)
    → IsSignedOut s
    → IsFirst401 f
    → IsStuck (step b s (fails f)).0
      × (truthy (get_item impersonation_token_key (step b s (fails f)).0.page.session) ≡ none)
unfolding step on_error begin_refresh
first_401 b s f v w =
    ground (arith, starts_refresh-to_login s.page (reject f.config.id Reason.original ∷ []))

next_401 :
    (b : Browser) (s : System) (f : Failure)
    → IsStuck s
    → truthy (get_item impersonation_token_key s.page.session) ≡ none
    → IsFirst401 f
    → ((step b s (fails f)).1 ≡ []) × (1 ≤ owed f.config.id (step b s (fails f)).0)
unfolding step on_error owed
next_401 b s f v e w = ground (arith, queued-append f.config.id s.page.failed_queue f.config)

-- On a signed-out page, such as the login page, the first answer 401 rejects its request but
-- leaves the flag set. The second one is not even rejected: nothing happens, and whatever follows
-- short of a reload, its request is still waiting.
pub second_401_hangs :
    (b : Browser) (s : System) (f g : Failure) (es : List Event)
    → IsSignedOut s
    → IsFirst401 f
    → IsFirst401 g
    → ((step b (step b s (fails f)).0 (fails g)).1 ≡ [])
      × (1 ≤ owed g.config.id (run b s (fails f ∷ fails g ∷ es)))
unfolding run
second_401_hangs b s f g es v w w' =
    let (stuck, plain) = first_401 b s f v w in
    let (silent, waits) = next_401 b (step b s (fails f)).0 g stuck plain w' in
    let still = step-IsStuck b (step b s (fails f)).0 (fails g) g.config.id stuck in
    (silent, omega (arith, waits, (run-IsStuck b _ es g.config.id still.0).1))
