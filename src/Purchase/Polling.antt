-- ===== src/Purchase/Polling.antt =====
-- How long a payment is asked for.
use frixel_connect.Base.{
  ℕ, suc, ◌+◌, ◌*◌, ◌≤◌, ◌≡◌, refl, Bool, true, false, List, [], ◌∷◌, Option, none, some, arith,
  ◌⊎◌,
}
use frixel_connect.Dashboard.{confirmed, failed, cancelled}
use frixel_connect.Purchase.{
  PaymentStatusInfo, StatusQuery, payment_failed, refetch_interval, Attempt, answers, errs, fetch,
  on_fetched, Trigger, interval, refetch, poll, status_card,
}

-- A payment that is over for the query.
abbrev pub is_final : Option PaymentStatusInfo → Bool
is_final none = false
is_final (some info) = elim info.status [ confirmed ↦ true | failed ↦ true | _ ↦ false ]

-- The answer of the fetch, if it is asked for.
abbrev pub outcome : Trigger → Option PaymentStatusInfo
outcome (interval first second) = (fetch first second).1
outcome (refetch first second) = (fetch first second).1

-- The server does not open again a payment that is over: a fetch that the interval does not ask for gives an error, or a final answer too.
abbrev pub StaysOver : Trigger → Type 0
StaysOver (interval first second) = Unit
StaysOver (refetch first second) =
    ((fetch first second).1 ≡ none) ⊎ (is_final (fetch first second).1 ≡ true)

abbrev pub intervals : List Trigger → ℕ
intervals [] = 0
intervals (interval first second ∷ ts) = suc (intervals ts)
intervals (refetch first second ∷ ts) = intervals ts

abbrev pub refetches : List Trigger → ℕ
refetches [] = 0
refetches (interval first second ∷ ts) = refetches ts
refetches (refetch first second ∷ ts) = suc (refetches ts)

asked :
    (q : StatusQuery) → is_final q.answer_seen ≡ false → refetch_interval q.answer_seen ≡ some 3000
unfolding refetch_interval
asked q h = ground arith

poll-asked :
    (first second : Attempt) (q : StatusQuery)
    → is_final q.answer_seen ≡ false
    → poll (interval first second) q
      ≡ on_fetched (fetch first second) (record q { polls = q.polls + 1 })
unfolding poll
poll-asked first second q h = rw (asked q h, poll) refl

-- How far a query has come: the fetches of the interval, and at most two requests for each fetch.
abbrev Counts : ℕ → ℕ → StatusQuery → Type 0
Counts polls fetches q = (q.polls ≡ polls) × (q.requests ≤ 2 * fetches)

-- A query that is over.
abbrev IsOver : ℕ → ℕ → StatusQuery → Type 0
IsOver n m q = (is_final q.answer_seen ≡ true) × Counts n m q × (q.is_loading ≡ false)

abbrev pub cancelled_fetch : Trigger
cancelled_fetch =
    interval (answers (record { status = cancelled; voucher_code = none })) (errs none)

-- A payment that was cancelled is shown as failed, and is still asked for every three seconds, however often the server
-- has answered so.
pub cancelled_is_asked_again :
    (q : StatusQuery)
    → is_final q.answer_seen ≡ false
    → let r = poll cancelled_fetch q in
      (status_card r ≡ payment_failed)
      × (is_final r.answer_seen ≡ false)
      × (refetch_interval r.answer_seen ≡ some 3000)
unfolding on_fetched fetch status_card refetch_interval
cancelled_is_asked_again q h = rw (poll-asked _ _ q h) (refl, refl, refl)
