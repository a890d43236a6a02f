-- ===== src/Tables.antt =====
-- What the tables of the consoles share: records sorted by time, the newest first, and shown page by
-- page. `Array.prototype.sort` is stable; `time` is `new Date(text).getTime()`, a number of a valid
-- date since 1970. The table of frontend/src/pages/admin/SessionsPage.tsx is modelled whole.
pub mod Sorting
pub mod Filtering
pub mod Pages
use frixel_connect.Base.{
  ℕ, suc, ◌+◌, ◌-◌, ◌*◌, ◌/◌, Bool, true, false, String, List, [], ◌∷◌, Option, none, some,
  if◌then◌else◌, ltb, ◌==◌, not, ◌&&◌, length, take, drop, get_or,
}
use Prim.Native.Nat.{min, max}

module _ {ℓ} {A : Type ℓ} (time : A → ℕ) where
  unfoldable pub insert_newest : A → List A → List A
  insert_newest x [] = x ∷ []
  insert_newest x (y ∷ ys) =
      let rest = insert_newest x ys in if ltb (time x) (time y) then y ∷ rest else x ∷ y ∷ ys

  -- `[...xs].sort((a, b) => time(b) - time(a))`.
  unfoldable pub newest_first : List A → List A
  unfolding insert_newest
  newest_first [] = []
  newest_first (x ∷ xs) = insert_newest x (newest_first xs)

-- `Math.ceil(n / 10)`, with `ITEMS_PER_PAGE` at 10.
abbrev pub page_count : ℕ → ℕ
page_count n = (n + 9) / 10

-- `xs.slice(startIndex, startIndex + 10)`; for page 0 the slice ends at 0.
abbrev pub page_slice {ℓ} : {A : Type ℓ} → ℕ → List A → List A
page_slice page xs = if page == 0 then [] else take 10 (drop ((page - 1) * 10) xs)

pub record SessionRow : Type 0 where
  pub id : String
  pub customer_id : String
  pub started_at : String

-- The page: the answer of the server, once it is there, and the number of the page shown.
pub record SessionsPage : Type 0 where
  pub sessions : Option (List SessionRow)
  pub current_page : ℕ

pub data Click : Type 0 where
  previous next : Click

module _ (get_time : String → ℕ) where
  unfoldable pub sorted_sessions : SessionsPage → List SessionRow
  unfolding newest_first
  sorted_sessions p = elim p.sessions [
    | none ↦ []
    | some rows ↦ newest_first (λ r. get_time r.started_at) rows
  ]

  unfoldable pub total_pages : SessionsPage → ℕ
  unfolding sorted_sessions
  total_pages p = page_count (length (sorted_sessions p))

  unfoldable pub current_sessions : SessionsPage → List SessionRow
  unfolding sorted_sessions
  current_sessions p = page_slice p.current_page (sorted_sessions p)

  -- The buttons are there with more than one page.
  unfoldable pub has_buttons : SessionsPage → Bool
  unfolding total_pages
  has_buttons p = ltb 1 (total_pages p)

  unfoldable pub handle_prev_page : SessionsPage → SessionsPage
  unfolding has_buttons
  handle_prev_page p =
      if has_buttons p && not (p.current_page == 1)
      then record p { current_page = max 1 (p.current_page - 1) }
      else p

  unfoldable pub handle_next_page : SessionsPage → SessionsPage
  unfolding has_buttons total_pages
  handle_next_page p =
      if has_buttons p && not (p.current_page == total_pages p)
      then record p { current_page = min (total_pages p) (p.current_page + 1) }
      else p

  unfoldable pub click : SessionsPage → Click → SessionsPage
  unfolding handle_prev_page handle_next_page
  click p previous = handle_prev_page p
  click p next = handle_next_page p

  unfoldable pub clicks : SessionsPage → List Click → SessionsPage
  unfolding click
  clicks p [] = p
  clicks p (c ∷ cs) = clicks (click p c) cs

-- A page that shows the answer that came, from its start.
abbrev pub first_page : List SessionRow → SessionsPage
first_page rows = record { sessions = some rows; current_page = 1 }
