-- ===== src/Subscriptions.antt =====
-- The subscriptions of a tenant: frontend/src/pages/admin/SubscriptionsPage.tsx. The answers of the server are
-- events, and the lower case of a text is a parameter.
pub mod Requests
use frixel_connect.Base.{
  Bool, true, false, not, ◌&&◌, ◌||◌, String, List, [], ◌∷◌, Option, none, some, if◌then◌else◌,
  ◌===◌, keep, find, is_empty, is_some, truthy, get_or,
}
use frixel_connect.Portal.{AuthUser}
use frixel_connect.Queries.{Part}
use frixel_connect.Cache.{Mutation, QueryOptions}
use frixel_connect.Cache.Reads.{use_admin_subscriptions}
use frixel_connect.Cache.Writes.{use_suspend_subscription, use_reactivate_subscription}
use frixel_connect.Customers.{includes}

pub data SubscriptionStatus : Type 0 where
  active grace suspended cancelled : SubscriptionStatus

pub record Subscription : Type 0 where
  pub id : String
  pub customer_id : String
  pub package_name : String
  pub status : SubscriptionStatus

-- `sent` holds the requests, the latest first. The bodies are empty.
pub record SubscriptionsPage : Type 0 where
  pub status_filter : String
  pub search_query : String
  pub suspend_dialog_id : Option String
  pub subscriptions : Option (List Subscription)
  pub is_suspending : Bool
  pub is_reactivating : Bool
  pub sent : List (Mutation Part String)
  pub toast : Option String

abbrev pub tabs : List String
tabs = "All" ∷ "Active" ∷ "Grace" ∷ "Suspended" ∷ "Cancelled" ∷ []

abbrev pub first_render : SubscriptionsPage
first_render = record {
  status_filter = "All";
  search_query = "";
  suspend_dialog_id = none;
  subscriptions = none;
  is_suspending = false;
  is_reactivating = false;
  sent = [];
  toast = none;
}

-- What the page asks for.
unfoldable pub query : (String → String) → Option AuthUser → SubscriptionsPage → QueryOptions Part
query to_lower_case user p = use_admin_subscriptions to_lower_case (some p.status_filter) user

unfoldable pub filtered_subscriptions : (String → String) → SubscriptionsPage → List Subscription
filtered_subscriptions to_lower_case p =
    let q = to_lower_case p.search_query in
    keep
      (λ s.
        if is_empty p.search_query
        then true
        else includes (to_lower_case s.package_name) q || includes (to_lower_case s.customer_id) q)
      (get_or p.subscriptions [])

-- The button of a row.
unfoldable pub can_suspend : SubscriptionStatus → Bool
can_suspend active = true
can_suspend grace = true
can_suspend suspended = false
can_suspend cancelled = false

unfoldable pub can_reactivate : SubscriptionStatus → Bool
can_reactivate suspended = true
can_reactivate _ = false

unfoldable pub open_suspend : String → SubscriptionsPage → SubscriptionsPage
open_suspend id p = record p { suspend_dialog_id = some id }

-- `handleSuspend` up to its request, with the button that is disabled while one is under way.
unfoldable pub handle_suspend : Option AuthUser → SubscriptionsPage → SubscriptionsPage
handle_suspend user p = if p.is_suspending then p else elim (truthy p.suspend_dialog_id) [
  | none ↦ p
  | some id ↦ record p { is_suspending = true; sent = use_suspend_subscription id user ∷ p.sent }
]

unfoldable pub on_suspended : SubscriptionsPage → SubscriptionsPage
on_suspended p = record p {
  is_suspending = false;
  suspend_dialog_id = none;
  toast = some "Subscription suspended successfully.";
}

unfoldable pub on_suspend_failed : Option String → SubscriptionsPage → SubscriptionsPage
on_suspend_failed detail p = record p {
  is_suspending = false;
  toast = some (get_or (truthy detail) "Failed to suspend subscription.");
}

unfoldable pub handle_reactivate : Option AuthUser → String → SubscriptionsPage → SubscriptionsPage
handle_reactivate user id p = record p {
  is_reactivating = true;
  sent = use_reactivate_subscription id user ∷ p.sent;
}

unfoldable pub on_reactivated : SubscriptionsPage → SubscriptionsPage
on_reactivated p = record p { is_reactivating = false; toast = some "Subscription reactivated." }

unfoldable pub on_reactivate_failed : Option String → SubscriptionsPage → SubscriptionsPage
on_reactivate_failed detail p = record p {
  is_reactivating = false;
  toast = some (get_or (truthy detail) "Failed to reactivate subscription.");
}

-- The one button in the last cell of a row.
unfoldable pub press : Option AuthUser → Subscription → SubscriptionsPage → SubscriptionsPage
unfolding can_suspend can_reactivate open_suspend handle_reactivate
press user s p =
    if can_suspend s.status
    then open_suspend s.id p
    else if can_reactivate s.status && not p.is_reactivating
    then handle_reactivate user s.id p
    else p

-- `loaded` is what the query has for the chosen tab, `pressed` the button in the row of an id, `dialog_open` what the
-- dialog tells of itself.
pub data Event : Type 0 where
  loaded : Option (List Subscription) → Event
  chosen searched pressed : String → Event
  confirmed dismissed done reactivated : Event
  dialog_open : Bool → Event
  suspend_failed reactivate_failed : Option String → Event

module _ (to_lower_case : String → String) (user : Option AuthUser) where
  unfoldable pub press_row : String → SubscriptionsPage → SubscriptionsPage
  unfolding filtered_subscriptions
  press_row id p = elim (find (λ s. s.id === id) (filtered_subscriptions to_lower_case p)) [
    | none ↦ p
    | some s ↦ press user s p
  ]

  unfoldable pub handle : SubscriptionsPage → Event → SubscriptionsPage
  unfolding press_row handle_suspend on_suspended on_suspend_failed on_reactivated
      on_reactivate_failed
  handle p (loaded subscriptions) = record p { subscriptions = subscriptions }
  handle p (chosen tab) = record p { status_filter = tab }
  handle p (searched q) = record p { search_query = q }
  handle p (pressed id) = press_row id p
  handle p confirmed = handle_suspend user p
  handle p dismissed = if p.is_suspending then p else record p { suspend_dialog_id = none }
  handle p (dialog_open b) = if b then p else record p { suspend_dialog_id = none }
  handle p done = on_suspended p
  handle p reactivated = on_reactivated p
  handle p (suspend_failed detail) = on_suspend_failed detail p
  handle p (reactivate_failed detail) = on_reactivate_failed detail p

  unfoldable pub handle_all : SubscriptionsPage → List Event → SubscriptionsPage
  unfolding handle
  handle_all p [] = p
  handle_all p (e ∷ es) = handle_all (handle p e) es
