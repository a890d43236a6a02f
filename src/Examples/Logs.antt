-- ===== src/Examples/Logs.antt =====
-- The audit logs of a server that keeps 45 entries, 30 of which are of one action.
use frixel_connect.Base.{
  ℕ, zero, suc, ◌-◌, ◌*◌, ◌+◌, ◌/◌, ◌≡◌, refl, String, Option, none, some, List, [], ◌∷◌, arith,
  length, take, drop,
}
use Prim.Native.Nat.{max}
use frixel_connect.Auth.{UserRole}
use frixel_connect.Portal.{AuthUser}
use frixel_connect.Queries.{Part, number}
use frixel_connect.Cache.{QueryOptions, tenant_id_of}
use frixel_connect.Cache.Reads.{use_audit_log, action_params}
use frixel_connect.Cache.Console as Console
use frixel_connect.Cache.Console.{ConsolePart, use_super_admin_audit_log, optional_param}
use frixel_connect.Logs.{
  AuditLogResponse, AuditLogPage, PaginatedAuditLogResponse, ConsoleLogPage, choose_action,
  handle_action_filter_change,
}
use frixel_connect.Logs.Pages.{read_on, read_on-choose_action}
use frixel_connect.Logs.ConsolePages.{read_pages, read_pages-handle_action_filter_change}

-- The entries n, …, 1.
abbrev entries_up_to : ℕ → List ℕ
entries_up_to zero = []
entries_up_to (suc n) = suc n ∷ entries_up_to n

abbrev told : List (String × Part) → List ℕ
told [] = entries_up_to 45
told (p ∷ ps) = entries_up_to 30

abbrev answer_to : List (String × Part) → AuditLogResponse ℕ
answer_to ((l, number size) ∷ (o, number offset) ∷ rest) = record {
  items = take size (drop offset (told rest));
  total = length (told rest);
}
answer_to _ = record { items = []; total = 0 }

abbrev server : QueryOptions Part → AuditLogResponse ℕ
server query = answer_to query.params

abbrev log : String → List ℕ
log action = told (action_params (some action))

abbrev admin : Option AuthUser
admin = some (record { user_id = "u1"; role = UserRole.admin; tenant_id = some "t1" })

abbrev later_page : AuditLogPage ℕ
later_page = record { action_filter = "All"; page = 2; expanded_row = some "e1"; audit_data = none }

serves :
    (action : String) (offset : ℕ)
    → server (use_audit_log (some action) 20 offset admin)
      ≡ record { items = take 20 (drop offset (log action)); total = length (log action) }
unfolding use_audit_log
serves action offset = refl

read_on-choose_action_example :
    read_on server admin 3 (choose_action "tenant.registered" later_page) ≡ log "tenant.registered"
unfolding tenant_id_of action_params
read_on-choose_action_example =
    read_on-choose_action server admin log refl serves 3 "tenant.registered" later_page refl
      (omega arith)

abbrev console_told : List (String × ConsolePart) → List ℕ
console_told [] = entries_up_to 45
console_told (p ∷ ps) = entries_up_to 30

abbrev console_answer_to : List (String × ConsolePart) → PaginatedAuditLogResponse ℕ
console_answer_to ((l, Console.number size) ∷ (o, Console.number page) ∷ rest) = record {
  entries = take 25 (drop ((size - 1) * 25) (console_told rest));
  total = length (console_told rest);
  pages = max 1 ((length (console_told rest) + 24) / 25);
}
console_answer_to _ = record { entries = []; total = 0; pages = 1 }

abbrev console_server : QueryOptions ConsolePart → PaginatedAuditLogResponse ℕ
console_server query = console_answer_to query.params

abbrev console_log : Option String → List ℕ
console_log action = console_told (optional_param "action" action)

abbrev console_page : ConsoleLogPage ℕ
console_page = record { page = 2; action_filter = "tenant.view"; expanded_id = none; answer = none }

console_serves :
    (page : ℕ) (action : Option String)
    → console_server
        (use_super_admin_audit_log (record { page = page; limit = 25; action = action }))
      ≡ record {
        entries = take 25 (drop ((page - 1) * 25) (console_log action));
        total = length (console_log action);
        pages = max 1 ((length (console_log action) + 24) / 25);
      }
unfolding use_super_admin_audit_log
console_serves page action = refl

read_pages-handle_action_filter_change_example :
    read_pages console_server 2 (handle_action_filter_change "" console_page) ≡ console_log none
unfolding optional_param
read_pages-handle_action_filter_change_example =
    read_pages-handle_action_filter_change console_server console_log console_serves 2 ""
      console_page (omega arith)
