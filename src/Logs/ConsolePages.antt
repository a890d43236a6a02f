-- ===== src/Logs/ConsolePages.antt =====
-- Going through the pages of the super admins' audit log shows all of it.
use frixel_connect.Base.{
  ℕ, zero, suc, ◌+◌, ◌-◌, ◌*◌, ◌/◌, ◌≤◌, ◌<◌, ◌≡◌, refl, sym, ap, ◌∙◌, true, false, String, Option,
  none, some, List, [], ◌++◌, arith, inl, inr, if◌then◌else◌, ltb, length, take, drop, Bool-cases,
  truthy, not, eq_iff, ◌&&◌, ◌==◌, ◌⊎◌,
}
use Prim.Native.Nat.{max, min}
use frixel_connect.Logs.Slices.{drop_all, take-drop}
use frixel_connect.Cache.{QueryOptions}
use frixel_connect.Cache.Console.{ConsolePart, use_super_admin_audit_log}
use frixel_connect.Logs.{
  PaginatedAuditLogResponse, ConsoleLogPage, console_query, handle_action_filter_change,
  console_next, console_rows, can_go_on, on_console_answer, set_console_page,
}

-- The test of the button, and the page it leads to.
more_lem :
    (page total : ℕ)
    → 1 ≤ page
    → (page ≡ 1) ⊎ ((page - 1) * 25 < total)
    → (ltb 1 (max 1 ((total + 24) / 25)) && not (page == max 1 ((total + 24) / 25)))
      ≡ ltb (page * 25) total
more_lem page total h k = ground (arith, k)

next_lem :
    (page total : ℕ)
    → 1 ≤ page
    → page * 25 < total
    → (ltb 1 (max 1 ((total + 24) / 25)) ≡ true)
      × ((page == max 1 ((total + 24) / 25)) ≡ false)
      × (min (max 1 ((total + 24) / 25)) (page + 1) ≡ page + 1)
next_lem page total h k = ground arith

module _ {ℓ} {E : Type ℓ} (server : QueryOptions ConsolePart → PaginatedAuditLogResponse E) where
  -- What is shown while the server answers and Next is pressed as long as it is there and can be, n times at most.
  abbrev pub read_pages : ℕ → ConsoleLogPage E → List E
  read_pages zero p = []
  read_pages (suc n) p =
      let q = on_console_answer server p in
      let rest = read_pages n (console_next q) in
      console_rows q ++ (if can_go_on q then rest else [])

  module _ (log : Option String → List E)
      (serves : (page : ℕ) (action : Option String)
        → server (use_super_admin_audit_log (record { page = page; limit = 25; action = action }))
          ≡ record {
            entries = take 25 (drop ((page - 1) * 25) (log action));
            total = length (log action);
            pages = max 1 ((length (log action) + 24) / 25);
          }) where
    abbrev logged : ConsoleLogPage E → List E
    logged p = log (truthy (some p.action_filter))

    answered :
        (p : ConsoleLogPage E)
        → on_console_answer server p ≡ record p {
          answer = some (record {
            entries = take 25 (drop ((p.page - 1) * 25) (logged p));
            total = length (logged p);
            pages = max 1 ((length (logged p) + 24) / 25);
          });
        }
    unfolding on_console_answer console_query
    answered p =
        ap (λ a. record p { answer = some a }) (serves p.page (truthy (some p.action_filter)))

    rows_of_page :
        (p : ConsoleLogPage E)
        → console_rows (on_console_answer server p) ≡ take 25 (drop ((p.page - 1) * 25) (logged p))
    unfolding console_rows
    rows_of_page p = ap (λ q. console_rows q) (answered p)

    -- On a page that is there, the button goes on as long as entries are left.
    more_of_page :
        (p : ConsoleLogPage E)
        → 1 ≤ p.page
        → (p.page ≡ 1) ⊎ ((p.page - 1) * 25 < length (logged p))
        → can_go_on (on_console_answer server p) ≡ ltb (p.page * 25) (length (logged p))
    unfolding can_go_on
    more_of_page p h k =
        ap (λ q. can_go_on q) (answered p) ∙ more_lem p.page (length (logged p)) h k

    next_page :
        (p : ConsoleLogPage E)
        → 1 ≤ p.page
        → p.page * 25 < length (logged p)
        → console_next (on_console_answer server p) ≡ record p { page = p.page + 1; answer = none }
    unfolding console_next set_console_page
    next_page p h k =
        ap (λ q. console_next q) (answered p)
        ∙ ground (arith, next_lem p.page (length (logged p)) h k)

    read_pages_from :
        (n : ℕ) (p : ConsoleLogPage E)
        → 1 ≤ p.page
        → (p.page ≡ 1) ⊎ ((p.page - 1) * 25 < length (logged p))
        → length (logged p) ≤ (p.page - 1 + n) * 25
        → read_pages n p ≡ drop ((p.page - 1) * 25) (logged p)
    read_pages_from zero p h k l = sym (drop_all ((p.page - 1) * 25) (logged p) (omega arith))
    read_pages_from (suc n) p h k l =
        let xs : List E = logged p in
        let next : ConsoleLogPage E = record p { page = p.page + 1; answer = none } in
        let back : p.page + 1 - 1 ≡ p.page = omega arith in
        let there : p.page * 25 ≡ (p.page - 1) * 25 + 25 = omega arith in
        elim (Bool-cases (ltb (p.page * 25) (length xs))) [
          | inl e ↦
              let left : p.page * 25 < length xs = ground (arith, e) in
              rw
                (
                  rows_of_page p,
                  more_of_page p h k ∙ e,
                  next_page p h left,
                  read_pages_from n next (omega arith) (inr (rw back left)) (omega arith),
                  back,
                  there,
                )
                (take-drop ((p.page - 1) * 25) 25 xs)
          | inr e ↦
              rw
                (
                  rows_of_page p,
                  more_of_page p h k ∙ e,
                  sym (drop_all ((p.page - 1) * 25 + 25) xs (ground (arith, e))),
                )
                (take-drop ((p.page - 1) * 25) 25 xs)
        ]

    chosen :
        (v : String) (p : ConsoleLogPage E)
        → ((handle_action_filter_change v p).action_filter ≡ v)
          × ((handle_action_filter_change v p).page ≡ 1)
    unfolding handle_action_filter_change set_console_page
    chosen v p = ground (arith, eq_iff v p.action_filter)

    -- When a super admin has chosen an action, on whatever page, and goes on with Next as long as the button is there and
    -- allows it, the pages shown are together the whole log of this action, each entry once and in its order; the empty
    -- choice stands for all actions. The server answers with the page that the query names, and with the number of pages.
    pub read_pages-handle_action_filter_change :
        (n : ℕ) (v : String) (p : ConsoleLogPage E)
        → length (log (truthy (some v))) ≤ n * 25
        → read_pages n (handle_action_filter_change v p) ≡ log (truthy (some v))
    read_pages-handle_action_filter_change n v p k =
        let (same, first) = chosen v p in
        let q : ConsoleLogPage E = handle_action_filter_change v p in
        let all : length (logged q) ≤ (q.page - 1 + n) * 25 = rw (same, first) (omega arith) in
        rw (read_pages_from n q (rw first (omega arith)) (inl first) all, same, first) refl
