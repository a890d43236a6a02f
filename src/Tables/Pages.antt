-- ===== src/Tables/Pages.antt =====
-- The pages of a table make up the whole of it, and its buttons lead to pages that are there.
use native.Mathlib.Numerals.{unary_clauses}
use mathlib.Core.List.{Perm}
use frixel_connect.Base.{
  ℕ, zero, suc, ◌+◌, ◌-◌, ◌*◌, ◌≤◌, ◌<◌, ◌≡◌, refl, sym, ap, ◌∙◌, ◌⊎◌, String, inl, List, [], ◌∷◌,
  ◌++◌, arith, ◌==◌, false, some, length, take, drop, length-take, length-drop,
}
use frixel_connect.Tables.Sorting.{IsNewestFirst, newest_first_lem, length-newest_first}
use frixel_connect.Tables.{
  newest_first, page_count, page_slice, SessionRow, SessionsPage, sorted_sessions, total_pages,
  current_sessions, has_buttons, handle_prev_page, handle_next_page, Click, previous, next, click,
  clicks, first_page,
}

module _ {ℓ} {A : Type ℓ} where
  take_add : (m n : ℕ) (xs : List A) → take (m + n) xs ≡ take m xs ++ take n (drop m xs)
  take_add zero n xs = ap (λ k. take k xs) (omega arith)
  take_add (suc m) zero [] = simp unary_clauses refl
  take_add (suc m) (suc n) [] = simp unary_clauses refl
  take_add (suc m) n (x ∷ xs) =
      let e : suc m + n ≡ suc (m + n) = omega arith in rw e (ap (◌∷◌ x) (take_add m n xs))

  take_all : (n : ℕ) (xs : List A) → length xs ≤ n → take n xs ≡ xs
  take_all zero [] h = refl
  take_all zero (x ∷ xs) h = absurd (omega arith)
  take_all (suc n) [] h = refl
  take_all (suc n) (x ∷ xs) h = ap (◌∷◌ x) (take_all n xs (omega arith))

  take_next :
      (n : ℕ) (xs : List A) → take (n * 10) xs ++ page_slice (suc n) xs ≡ take (suc n * 10) xs
  take_next n xs =
      let start : suc n - 1 ≡ n = omega arith in
      let stop : suc n * 10 ≡ n * 10 + 10 = omega arith in
      let positive : (suc n == 0) ≡ false = ground arith in
      rw (positive, start, stop) (sym (take_add (n * 10) 10 xs))

  take_pages : (xs : List A) → take (page_count (length xs) * 10) xs ≡ xs
  take_pages xs = take_all (page_count (length xs) * 10) xs (omega arith)

  length-page_slice :
      (page : ℕ) (xs : List A)
      → 1 ≤ page
      → page ≤ page_count (length xs)
      → (1 ≤ length (page_slice page xs)) × (length (page_slice page xs) ≤ 10)
  length-page_slice page xs h k =
      ground (arith, length-take 10 (drop ((page - 1) * 10) xs), length-drop ((page - 1) * 10) xs)

  nil_of_length : (xs : List A) → length xs ≡ 0 → xs ≡ []
  nil_of_length [] e = refl
  nil_of_length (x ∷ xs) e = absurd (omega arith)

  page_slice_past :
      (page : ℕ) (xs : List A) → page_count (length xs) < page → page_slice page xs ≡ []
  page_slice_past page xs h =
      nil_of_length _ (
        ground
          (arith, length-take 10 (drop ((page - 1) * 10) xs), length-drop ((page - 1) * 10) xs))

module _ (get_time : String → ℕ) where
  -- The pages 1 to n of a table, one after the other.
  abbrev pub pages_up_to : ℕ → SessionsPage → List SessionRow
  pages_up_to zero p = []
  pages_up_to (suc n) p =
      pages_up_to n p ++ current_sessions get_time (record p { current_page = suc n })

  pages_up_to-take :
      (n : ℕ) (p : SessionsPage) → pages_up_to n p ≡ take (n * 10) (sorted_sessions get_time p)
  unfolding current_sessions sorted_sessions
  pages_up_to-take zero p = refl
  pages_up_to-take (suc n) p = rw (pages_up_to-take n p) (take_next n (sorted_sessions get_time p))

  pages_are_sorted :
      (p : SessionsPage) → pages_up_to (total_pages get_time p) p ≡ sorted_sessions get_time p
  unfolding total_pages
  pages_are_sorted p =
      pages_up_to-take (total_pages get_time p) p ∙ take_pages (sorted_sessions get_time p)

  sorted_sessions-some :
      (p : SessionsPage) (rows : List SessionRow)
      → p.sessions ≡ some rows
      → sorted_sessions get_time p ≡ newest_first (λ r. get_time r.started_at) rows
  unfolding sorted_sessions
  sorted_sessions-some p rows e = rw (e, sorted_sessions) refl

  -- The pages of the table, one after the other, show every session that came exactly once, in an
  -- order in which none started later than one before it.
  pub pages-sorted_sessions :
      (p : SessionsPage) (rows : List SessionRow)
      → p.sessions ≡ some rows
      → let shown = pages_up_to (total_pages get_time p) p in
        Perm shown rows
        × IsNewestFirst (λ r. get_time r.started_at) shown
        × (length shown ≡ length rows)
  pages-sorted_sessions p rows e =
      let time : SessionRow → ℕ = λ r. get_time r.started_at in
      let sorted = newest_first_lem time rows 0 in
      rw (pages_are_sorted p, sorted_sessions-some p rows e)
        (sorted.0, sorted.1, length-newest_first time rows)

  total_pages_of :
      (p : SessionsPage) (rows : List SessionRow)
      → p.sessions ≡ some rows
      → total_pages get_time p ≡ total_pages get_time (first_page rows)
  unfolding total_pages sorted_sessions
  total_pages_of p rows e = rw (e, sorted_sessions) refl

  -- The page of a table of these rows that is shown is 1 or one that is there.
  record IsInRange (rows : List SessionRow) (p : SessionsPage) : Type 0 where
    same : p.sessions ≡ some rows
    least : 1 ≤ p.current_page
    most : (p.current_page ≡ 1) ⊎ (p.current_page ≤ total_pages get_time (first_page rows))

  click-IsInRange :
      (rows : List SessionRow) (p : SessionsPage) (c : Click)
      → IsInRange rows p
      → IsInRange rows (click get_time p c)
  unfolding click handle_prev_page handle_next_page has_buttons
  click-IsInRange rows p previous v = record {
    same = ground (arith, v.same);
    least = ground (arith, v.least);
    most = ground (arith, v.most, v.least);
  }
  click-IsInRange rows p next v = record {
    same = ground (arith, v.same);
    least = ground (arith, v.least, total_pages_of p rows v.same);
    most = ground (arith, v.most, total_pages_of p rows v.same);
  }

  clicks-IsInRange :
      (rows : List SessionRow) (p : SessionsPage) (cs : List Click)
      → IsInRange rows p
      → IsInRange rows (clicks get_time p cs)
  unfolding clicks
  clicks-IsInRange rows p [] v = v
  clicks-IsInRange rows p (c ∷ cs) v =
      clicks-IsInRange rows (click get_time p c) cs (click-IsInRange rows p c v)

  length-sorted_sessions :
      (p : SessionsPage) (rows : List SessionRow)
      → p.sessions ≡ some rows
      → length (sorted_sessions get_time p) ≡ length rows
  unfolding sorted_sessions
  length-sorted_sessions p rows e =
      rw (e, sorted_sessions) (length-newest_first (λ r. get_time r.started_at) rows)

  rows_of_range :
      (rows : List SessionRow) (p : SessionsPage)
      → 1 ≤ length rows
      → IsInRange rows p
      → (1 ≤ length (current_sessions get_time p)) × (length (current_sessions get_time p) ≤ 10)
  unfolding current_sessions total_pages
  rows_of_range rows p h v =
      let size = length-sorted_sessions p rows v.same in
      let first_size = length-sorted_sessions (first_page rows) rows refl in
      length-page_slice p.current_page (sorted_sessions get_time p) v.least
        (ground (arith, v.most, size, first_size))

  -- Whatever buttons are pressed from the first page of an answer that has sessions, the page shown has at
  -- least one row and at most ten.
  pub clicks-current_sessions :
      (rows : List SessionRow) (cs : List Click)
      → 1 ≤ length rows
      → let p = clicks get_time (first_page rows) cs in
        (1 ≤ length (current_sessions get_time p)) × (length (current_sessions get_time p) ≤ 10)
  clicks-current_sessions rows cs h = rows_of_range rows (clicks get_time (first_page rows) cs) h (
      clicks-IsInRange rows (first_page rows) cs
        (record { same = refl; least = omega arith; most = inl refl }))

  buttons_gone :
      (p : SessionsPage) → length (sorted_sessions get_time p) ≤ 10 → has_buttons get_time p ≡ false
  unfolding has_buttons total_pages
  buttons_gone p h = ground arith

  click_without_buttons :
      (p : SessionsPage) (c : Click) → has_buttons get_time p ≡ false → click get_time p c ≡ p
  unfolding click handle_prev_page handle_next_page
  click_without_buttons p previous e = rw (e, handle_prev_page) refl
  click_without_buttons p next e = rw (e, handle_next_page) refl

  clicks_without_buttons :
      (p : SessionsPage) (cs : List Click)
      → has_buttons get_time p ≡ false
      → clicks get_time p cs ≡ p
  unfolding clicks
  clicks_without_buttons p [] e = refl
  clicks_without_buttons p (c ∷ cs) e =
      rw (click_without_buttons p c e) (clicks_without_buttons p cs e)

  -- When the table is refreshed while a later page is shown, and at most ten sessions are left, no
  -- session is shown, there is no button to go back with, and pressing one changes nothing.
  pub shrunk_table_is_stuck :
      (rows : List SessionRow) (page : ℕ) (cs : List Click)
      → length rows ≤ 10
      → 2 ≤ page
      → let p : SessionsPage = record { sessions = some rows; current_page = page } in
        (current_sessions get_time p ≡ [])
        × (has_buttons get_time p ≡ false)
        × (clicks get_time p cs ≡ p)
  unfolding current_sessions
  shrunk_table_is_stuck rows page cs h k =
      let p : SessionsPage = record { sessions = some rows; current_page = page } in
      let size = length-sorted_sessions p rows refl in
      let gone = buttons_gone p (ground (arith, size)) in
      (
        page_slice_past page (sorted_sessions get_time p) (ground (arith, size)),
        gone,
        clicks_without_buttons p cs gone,
      )
