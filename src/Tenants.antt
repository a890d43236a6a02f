-- ===== src/Tenants.antt =====
-- The super admin's list of tenants: frontend/src/pages/super-admin/TenantsPage.tsx, and of
-- hooks/useSuperAdmin.ts the requests it makes. What follows the answer to an impersonation, the
-- hand-over to the new tab, is in Impersonation.
pub mod Actions
use Prim.Native.Nat.{min, max}
use frixel_connect.Base.{
  ℕ, ◌+◌, ◌-◌, Bool, true, false, String, List, [], ◌∷◌, Option, none, some, if◌then◌else◌, ltb,
  leb, ◌==◌, ◌===◌, not, ◌&&◌, text_length, get_or, truthy, any,
}
use frixel_connect.Auth.{TenantStatus}
use frixel_connect.Routing.{is_suspended_status}

pub record TenantRow : Type 0 where
  pub id : String
  pub business_name : String
  pub status : TenantStatus

-- `{ id: t.id, name: t.business_name }`.
pub record Target : Type 0 where
  pub id : String
  pub name : String

abbrev pub target_of : TenantRow → Target
target_of t = record { id = t.id; name = t.business_name }

pub data Request : Type 0 where
  suspend : String → String → Request
  reactivate : String → Request
  trigger_billing : String → Request
  impersonate : String → ℕ → Request

pub record TenantsPage : Type 0 where
  pub page : ℕ
  pub status_filter : String
  pub search_val : String
  pub debounced_search : String
  pub open_menu_id : Option String
  pub impersonate_tenant : Option Target
  pub impersonate_duration : ℕ
  pub suspend_tenant : Option Target
  pub suspend_reason : String
  pub reactivate_tenant : Option Target
  pub billing_tenant : Option Target
  pub sent : List Request

abbrev pub first_render : TenantsPage
first_render = record {
  page = 1;
  status_filter = "all";
  search_val = "";
  debounced_search = "";
  open_menu_id = none;
  impersonate_tenant = none;
  impersonate_duration = 30;
  suspend_tenant = none;
  suspend_reason = "";
  reactivate_tenant = none;
  billing_tenant = none;
  sent = [];
}

-- The query parameters of GET /super-admin/tenants.
pub record TenantsQuery : Type 0 where
  pub page : ℕ
  pub limit : ℕ
  pub status : Option String
  pub search : Option String

unfoldable pub tenants_query : TenantsPage → TenantsQuery
tenants_query p = record {
  page = p.page;
  limit = 10;
  status = if p.status_filter === "all" then none else truthy (some p.status_filter);
  search = truthy (some p.debounced_search);
}

unfoldable pub handle_search_submit : TenantsPage → TenantsPage
handle_search_submit p = record p { debounced_search = p.search_val; page = 1 }

unfoldable pub handle_status_tab_change : String → TenantsPage → TenantsPage
handle_status_tab_change status p = record p { status_filter = status; page = 1 }

-- The buttons are there when the answer has more than one page.
unfoldable pub previous_page : ℕ → TenantsPage → TenantsPage
previous_page pages p =
    if ltb 1 pages && not (p.page == 1) then record p { page = max 1 (p.page - 1) } else p

unfoldable pub next_page : ℕ → TenantsPage → TenantsPage
next_page pages p =
    if ltb 1 pages && not (p.page == pages) then record p { page = min pages (p.page + 1) } else p

unfoldable pub toggle_menu : String → TenantsPage → TenantsPage
toggle_menu id p = elim p.open_menu_id [
  | none ↦ record p { open_menu_id = some id }
  | some open_id ↦ record p { open_menu_id = if open_id === id then none else some id }
]

-- The entries of a row's menu: of the last two only one is there.
unfoldable pub choose_impersonate : TenantRow → TenantsPage → TenantsPage
choose_impersonate t p = record p { impersonate_tenant = some (target_of t); open_menu_id = none }

unfoldable pub choose_billing : TenantRow → TenantsPage → TenantsPage
choose_billing t p = record p { billing_tenant = some (target_of t); open_menu_id = none }

unfoldable pub choose_suspend : TenantRow → TenantsPage → TenantsPage
choose_suspend t p =
    if is_suspended_status t.status
    then p
    else record p { suspend_tenant = some (target_of t); open_menu_id = none }

unfoldable pub choose_reactivate : TenantRow → TenantsPage → TenantsPage
choose_reactivate t p =
    if is_suspended_status t.status
    then record p { reactivate_tenant = some (target_of t); open_menu_id = none }
    else p

-- The buttons for the duration of an impersonation.
abbrev pub durations : List ℕ
durations = 15 ∷ 30 ∷ 60 ∷ []

unfoldable pub press_duration : ℕ → TenantsPage → TenantsPage
press_duration d p =
    if any (λ m. m == d) durations then record p { impersonate_duration = d } else p

abbrev pub send : Request → TenantsPage → TenantsPage
send r p = record p { sent = r ∷ p.sent }

unfoldable pub handle_start_impersonation : TenantsPage → TenantsPage
handle_start_impersonation p = elim p.impersonate_tenant [
  | none ↦ p
  | some t ↦ send (impersonate t.id p.impersonate_duration) p
]

unfoldable pub handle_confirm_suspend : TenantsPage → TenantsPage
handle_confirm_suspend p = elim p.suspend_tenant [
  | none ↦ p
  | some t ↦
      if ltb (text_length p.suspend_reason) 10 then p else send (suspend t.id p.suspend_reason) p
]

unfoldable pub handle_confirm_reactivate : TenantsPage → TenantsPage
handle_confirm_reactivate p = elim p.reactivate_tenant [
  | none ↦ p
  | some t ↦ send (reactivate t.id) p
]

unfoldable pub handle_confirm_billing : TenantsPage → TenantsPage
handle_confirm_billing p = elim p.billing_tenant [
  | none ↦ p
  | some t ↦ send (trigger_billing t.id) p
]

-- `onSuccess` of the suspension, which is also what its buttons to cancel do. A failure only shows
-- its message.
unfoldable pub close_suspend : TenantsPage → TenantsPage
close_suspend p = record p { suspend_tenant = none; suspend_reason = "" }

pub data Event : Type 0 where
  type_search : String → Event
  search_submit : Event
  status_tab : String → Event
  previous : ℕ → Event
  next : ℕ → Event
  menu : String → Event
  choose_impersonation_of : TenantRow → Event
  choose_billing_of : TenantRow → Event
  choose_suspension_of : TenantRow → Event
  choose_reactivation_of : TenantRow → Event
  choose_duration : ℕ → Event
  type_reason : String → Event
  start_impersonation : Event
  confirm_suspend : Event
  confirm_reactivate : Event
  confirm_billing : Event
  impersonation_over : Event
  suspend_over : Event
  reactivate_over : Event
  billing_over : Event

-- What the user does, and the successful answers; `…_over` also stands for the buttons to cancel.
unfoldable pub handle : TenantsPage → Event → TenantsPage
unfolding press_duration handle_search_submit handle_status_tab_change previous_page next_page
    toggle_menu choose_impersonate choose_billing choose_suspend choose_reactivate
    handle_start_impersonation handle_confirm_suspend handle_confirm_reactivate
    handle_confirm_billing close_suspend
handle p (type_search s) = record p { search_val = s }
handle p search_submit = handle_search_submit p
handle p (status_tab s) = handle_status_tab_change s p
handle p (previous pages) = previous_page pages p
handle p (next pages) = next_page pages p
handle p (menu id) = toggle_menu id p
handle p (choose_impersonation_of t) = choose_impersonate t p
handle p (choose_billing_of t) = choose_billing t p
handle p (choose_suspension_of t) = choose_suspend t p
handle p (choose_reactivation_of t) = choose_reactivate t p
handle p (choose_duration d) = press_duration d p
handle p (type_reason s) = record p { suspend_reason = s }
handle p start_impersonation = handle_start_impersonation p
handle p confirm_suspend = handle_confirm_suspend p
handle p confirm_reactivate = handle_confirm_reactivate p
handle p confirm_billing = handle_confirm_billing p
handle p impersonation_over = record p { impersonate_tenant = none }
handle p suspend_over = close_suspend p
handle p reactivate_over = record p { reactivate_tenant = none }
handle p billing_over = record p { billing_tenant = none }

unfoldable pub handle_all : TenantsPage → List Event → TenantsPage
unfolding handle
handle_all p [] = p
handle_all p (e ∷ es) = handle_all (handle p e) es
