-- ===== src/Logs/Pages.antt =====
-- Going through the pages of an audit log shows all of it.
use frixel_connect.Base.{
  ℕ, zero, suc, ◌+◌, ◌*◌, ◌≤◌, ◌<◌, ◌≡◌, refl, sym, ap, ◌∙◌, true, false, String, Option, none,
  some, List, [], ◌++◌, arith, inl, inr, is_empty, if◌then◌else◌, ltb, length, take, drop,
  Bool-cases, not, eq_iff,
}
use frixel_connect.Logs.Slices.{if_true, drop_all, take-drop}
use frixel_connect.Portal.{AuthUser}
use frixel_connect.Queries.{Part}
use frixel_connect.Cache.{QueryOptions, tenant_id_of}
use frixel_connect.Cache.Reads.{use_audit_log}
use frixel_connect.Logs.{
  AuditLogResponse, AuditLogPage, choose_action, press_next, has_more, rows, on_answer, audit_query,
  set_page, total_items,
}

module _ {ℓ} {E : Type ℓ} (server : QueryOptions Part → AuditLogResponse E)
    (user : Option AuthUser) where
  -- What is shown while the server answers and Next is pressed as long as it can be, n times at most.
  abbrev pub read_on : ℕ → AuditLogPage E → List E
  read_on zero p = []
  read_on (suc n) p =
      let q = on_answer server user p in
      let rest = read_on n (press_next q) in rows q ++ (if has_more q then rest else [])

  module _ (log : String → List E) (t : is_empty (tenant_id_of user) ≡ false)
      (serves : (action : String) (offset : ℕ)
        → server (use_audit_log (some action) 20 offset user) ≡ record {
          items = take 20 (drop offset (log action));
          total = length (log action);
        }) where
    answered :
        (p : AuditLogPage E)
        → on_answer server user p ≡ record p {
          audit_data = some (record {
            items = take 20 (drop (p.page * 20) (log p.action_filter));
            total = length (log p.action_filter);
          });
        }
    unfolding on_answer audit_query
    answered p =
        let asked : (audit_query user p).enabled ≡ true = ap not t in
        if_true asked (record p { audit_data = some (server (audit_query user p)) }) p
        ∙ ap (λ a. record p { audit_data = some a }) (serves p.action_filter (p.page * 20))

    next_page :
        (p : AuditLogPage E)
        → p.page * 20 + 20 < length (log p.action_filter)
        → press_next (on_answer server user p) ≡ record p { page = p.page + 1; audit_data = none }
    unfolding press_next has_more total_items set_page
    next_page p h = ground (arith, answered p)

    rows_of_page :
        (p : AuditLogPage E)
        → rows (on_answer server user p) ≡ take 20 (drop (p.page * 20) (log p.action_filter))
    unfolding rows
    rows_of_page p = ap (λ q. rows q) (answered p)

    more_of_page :
        (p : AuditLogPage E)
        → has_more (on_answer server user p) ≡ ltb (p.page * 20 + 20) (length (log p.action_filter))
    unfolding has_more total_items
    more_of_page p = ap (λ q. has_more q) (answered p)

    read_on_from :
        (n : ℕ) (p : AuditLogPage E)
        → length (log p.action_filter) ≤ (p.page + n) * 20
        → read_on n p ≡ drop (p.page * 20) (log p.action_filter)
    read_on_from zero p h = sym (drop_all (p.page * 20) (log p.action_filter) (omega arith))
    read_on_from (suc n) p h =
        let xs : List E = log p.action_filter in
        let next : AuditLogPage E = record p { page = p.page + 1; audit_data = none } in
        let there : (p.page + 1) * 20 ≡ p.page * 20 + 20 = omega arith in
        elim (Bool-cases (ltb (p.page * 20 + 20) (length xs))) [
          | inl e ↦
              rw
                (
                  rows_of_page p,
                  more_of_page p ∙ e,
                  next_page p (ground (arith, e)),
                  read_on_from n next (omega arith),
                  there,
                )
                (take-drop (p.page * 20) 20 xs)
          | inr e ↦
              rw
                (
                  rows_of_page p,
                  more_of_page p ∙ e,
                  sym (drop_all (p.page * 20 + 20) xs (ground (arith, e))),
                )
                (take-drop (p.page * 20) 20 xs)
        ]

    chosen :
        (v : String) (p : AuditLogPage E)
        → is_empty v ≡ false
        → ((choose_action v p).action_filter ≡ v) × ((choose_action v p).page ≡ 0)
    unfolding choose_action set_page
    chosen v p h = ground (arith, eq_iff v p.action_filter)

    -- Whatever was shown before, when the admin has chosen an action and goes on with Next as long as the button allows it, the pages
    -- shown are together the whole log of this action, each entry once and in its order. The server answers with the part
    -- of the log that the query asks for.
    pub read_on-choose_action :
        (n : ℕ) (v : String) (p : AuditLogPage E)
        → is_empty v ≡ false
        → length (log v) ≤ n * 20
        → read_on n (choose_action v p) ≡ log v
    read_on-choose_action n v p h k =
        let (same, first) = chosen v p h in
        let q : AuditLogPage E = choose_action v p in
        let all : length (log q.action_filter) ≤ (q.page + n) * 20 =
          rw (same, first) (omega arith) in
        rw (read_on_from n q all, same, first) refl
