-- ===== src/Logs.antt =====
-- The audit logs: frontend/src/pages/admin/AuditLogPage.tsx, over the hook `useAuditLog`, and
-- frontend/src/pages/super-admin/AuditLogPage.tsx, over `useSuperAdminAuditLog`. An entry is its identifier with whatever
-- else the server says of it.
pub mod Slices
pub mod Pages
pub mod ConsolePages
use Prim.Native.Nat.{min, max}
use frixel_connect.Base.{
  ℕ, zero, suc, ◌+◌, ◌-◌, ◌*◌, Bool, true, false, not, ◌&&◌, ◌||◌, String, Option, none, some, List,
  [], ◌++◌, is_empty, is_some, if◌then◌else◌, ltb, ◌==◌, ◌===◌, truthy,
}
use frixel_connect.Portal.{AuthUser}
use frixel_connect.Queries.{Part}
use frixel_connect.Cache.{QueryOptions}
use frixel_connect.Cache.Reads.{use_audit_log}
use frixel_connect.Cache.Console.{ConsolePart, GetAuditLogParams, use_super_admin_audit_log}

-- `AuditLogResponse`.
pub record AuditLogResponse {ℓ} (E : Type ℓ) : Type ℓ where
  pub items : List E
  pub total : ℕ

-- The page of a tenant's admin; `audit_data` is what the server said to the query that is shown, if it has answered.
pub record AuditLogPage {ℓ} (E : Type ℓ) : Type ℓ where
  pub action_filter : String
  pub page : ℕ
  pub expanded_row : Option String
  pub audit_data : Option (AuditLogResponse E)

abbrev pub limit : ℕ
limit = 20

module _ {ℓ} {E : Type ℓ} where
  abbrev pub first_render : AuditLogPage E
  first_render = record { action_filter = "All"; page = 0; expanded_row = none; audit_data = none }

  unfoldable pub toggle_row : String → AuditLogPage E → AuditLogPage E
  toggle_row id p = elim p.expanded_row [
    | none ↦ record p { expanded_row = some id }
    | some row ↦ record p { expanded_row = if row === id then none else some id }
  ]

  unfoldable pub total_items : AuditLogPage E → ℕ
  total_items p = elim p.audit_data [ none ↦ 0 | some answer ↦ answer.total ]

  unfoldable pub has_more : AuditLogPage E → Bool
  unfolding total_items
  has_more p = ltb (p.page * limit + limit) (total_items p)

  -- The rows of the table.
  unfoldable pub rows : AuditLogPage E → List E
  rows p = elim p.audit_data [ none ↦ [] | some answer ↦ answer.items ]

  -- Another page is another query, which has not been answered yet.
  unfoldable pub set_page : ℕ → AuditLogPage E → AuditLogPage E
  set_page page p = if page == p.page then p else record p { page = page; audit_data = none }

  unfoldable pub choose_action : String → AuditLogPage E → AuditLogPage E
  unfolding set_page
  choose_action v p =
      if is_empty v
      then p
      else if v === p.action_filter
      then set_page 0 p
      else record p { action_filter = v; page = 0; audit_data = none }

  unfoldable pub press_previous : AuditLogPage E → AuditLogPage E
  unfolding set_page
  press_previous p =
      if p.page == 0 || not (is_some p.audit_data) then p else set_page (max 0 (p.page - 1)) p

  unfoldable pub press_next : AuditLogPage E → AuditLogPage E
  unfolding set_page has_more
  press_next p =
      if not (has_more p) || not (is_some p.audit_data) then p else set_page (p.page + 1) p

  -- The query of the page, and its answer.
  unfoldable pub audit_query : Option AuthUser → AuditLogPage E → QueryOptions Part
  unfolding use_audit_log
  audit_query user p = use_audit_log (some p.action_filter) limit (p.page * limit) user

  unfoldable pub on_answer :
      (QueryOptions Part → AuditLogResponse E) → Option AuthUser → AuditLogPage E → AuditLogPage E
  unfolding audit_query
  on_answer server user p =
      let query = audit_query user p in
      if query.enabled then record p { audit_data = some (server query) } else p

-- `PaginatedAuditLogResponse`.
pub record PaginatedAuditLogResponse {ℓ} (E : Type ℓ) : Type ℓ where
  pub entries : List E
  pub total : ℕ
  pub pages : ℕ

-- The page of the super admins.
pub record ConsoleLogPage {ℓ} (E : Type ℓ) : Type ℓ where
  pub page : ℕ
  pub action_filter : String
  pub expanded_id : Option String
  pub answer : Option (PaginatedAuditLogResponse E)

module _ {ℓ} {E : Type ℓ} where
  unfoldable pub console_query : ConsoleLogPage E → QueryOptions ConsolePart
  unfolding use_super_admin_audit_log
  console_query p =
      use_super_admin_audit_log
        (record { page = p.page; limit = 25; action = truthy (some p.action_filter) })

  unfoldable pub set_console_page : ℕ → ConsoleLogPage E → ConsoleLogPage E
  set_console_page page p = if page == p.page then p else record p { page = page; answer = none }

  unfoldable pub handle_action_filter_change : String → ConsoleLogPage E → ConsoleLogPage E
  unfolding set_console_page
  handle_action_filter_change value p =
      if value === p.action_filter
      then set_console_page 1 (record p { expanded_id = none })
      else record p { action_filter = value; page = 1; expanded_id = none; answer = none }

  unfoldable pub toggle_console_row : String → ConsoleLogPage E → ConsoleLogPage E
  toggle_console_row id p = elim p.expanded_id [
    | none ↦ record p { expanded_id = some id }
    | some row ↦ record p { expanded_id = if row === id then none else some id }
  ]

  unfoldable pub console_rows : ConsoleLogPage E → List E
  console_rows p = elim p.answer [ none ↦ [] | some answer ↦ answer.entries ]

  -- The buttons are there when the answer has more than one page.
  unfoldable pub console_previous : ConsoleLogPage E → ConsoleLogPage E
  unfolding set_console_page
  console_previous p = elim p.answer [
    | none ↦ p
    | some answer ↦
        if ltb 1 answer.pages && not (p.page == 1)
        then set_console_page (max 1 (p.page - 1)) p
        else p
  ]

  unfoldable pub can_go_on : ConsoleLogPage E → Bool
  can_go_on p = elim p.answer [
    | none ↦ false
    | some answer ↦ ltb 1 answer.pages && not (p.page == answer.pages)
  ]

  unfoldable pub console_next : ConsoleLogPage E → ConsoleLogPage E
  unfolding set_console_page
  console_next p = elim p.answer [
    | none ↦ p
    | some answer ↦
        if ltb 1 answer.pages && not (p.page == answer.pages)
        then set_console_page (min answer.pages (p.page + 1)) p
        else p
  ]

  unfoldable pub on_console_answer :
      (QueryOptions ConsolePart → PaginatedAuditLogResponse E) → ConsoleLogPage E → ConsoleLogPage E
  unfolding console_query
  on_console_answer server p = record p { answer = some (server (console_query p)) }
