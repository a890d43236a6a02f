-- ===== src/Customers.antt =====
-- The users of a tenant, as the administrator sees and edits them:
-- frontend/src/pages/admin/CustomersPage.tsx. Parameters are the test for e-mail addresses of the schema
-- library, `toLowerCase`, the times of dates, and whether two users are one object.
pub mod Requests
pub mod Rows
use frixel_connect.Base.{
  trim, ℕ, Bool, true, false, String, List, [], ◌∷◌, ◌++◌, Option, none, some, if◌then◌else◌, ◌===◌,
  leb, not, ◌&&◌, ◌||◌, keep, find, take, get_or, starts_with, text_length, truthy, map_get,
  map_set,
}
use frixel_connect.Auth.{UserRole, customer}
use frixel_connect.Routing.{role_eq}
use frixel_connect.Onboarding.{ServiceType}
use frixel_connect.Routers.{MikrotikRouter, resolve_router_service_type}
use frixel_connect.Tables.{newest_first}
use frixel_connect.Dashboard.{Payment, User}

-- `s.includes(q)`.
abbrev pub includes : String → String → Bool
includes String.[] q = starts_with String.[] q
includes (String.◌∷◌ c s) q = starts_with (String.◌∷◌ c s) q || includes s q

-- `roleFilter` is none for 'all'.
unfoldable pub filtered_users :
    (String → String) → Option (List User) → Option UserRole → String → List User
filtered_users to_lower none role_filter search_query = []
filtered_users to_lower (some users) role_filter search_query =
    let q = to_lower search_query in
    let of_role : List User = elim role_filter [
      | none ↦ users
      | some role ↦ keep (λ u. role_eq u.role role) users
    ] in
    if trim search_query === ""
    then of_role
    else keep (λ u. includes (to_lower u.email) q || includes u.phone q) of_role

unfoldable pub get_connection_type : List MikrotikRouter → User → Option ServiceType
get_connection_type routers user = elim (truthy user.router_id) [
  | none ↦ none
  | some id ↦ elim (find (λ r. r.id === id) routers) [
    | none ↦ none
    | some router ↦ some (resolve_router_service_type router)
  ]
]

unfoldable pub selected_user_payments :
    (String → ℕ) → Option User → Option (List Payment) → List Payment
unfolding newest_first
selected_user_payments get_time (some user) (some payments) =
    take 5
      (newest_first (λ p. get_time p.created_at) (keep (λ p. p.customer_id === user.id) payments))
selected_user_payments get_time _ _ = []

-- The maps from the ids of customers.
module _ {ℓ} {A : Type ℓ} where
  -- `xs.forEach((x) => map.set(key(x), x))`.
  unfoldable pub set_each : (A → String) → List (String × A) → List A → List (String × A)
  set_each key m [] = m
  set_each key m (x ∷ xs) = set_each key (map_set (key x) x m) xs

  unfoldable pub subscription_by_customer : (A → String) → List A → List (String × A)
  unfolding set_each
  subscription_by_customer customer_id = set_each customer_id []

  -- The loop of `vouchersByCustomer`: the list of a customer is pushed to, and set again.
  unfoldable pub push_each : (A → String) → List (String × List A) → List A → List (String × List A)
  push_each key m [] = m
  push_each key m (x ∷ xs) =
      push_each key (map_set (key x) (get_or (map_get (key x) m) [] ++ (x ∷ [])) m) xs

  unfoldable pub vouchers_by_customer : (A → String) → List A → List (String × List A)
  unfolding push_each
  vouchers_by_customer customer_id = push_each customer_id []

pub record UserForm : Type 0 where
  pub email : String
  pub phone : String
  pub password : String
  pub role : UserRole
  pub router_id : String

abbrev pub empty_form : UserForm
empty_form = record { email = ""; phone = ""; password = ""; role = customer; router_id = "" }

-- `userSchema`.
unfoldable pub is_valid_form : (String → Bool) → UserForm → Bool
is_valid_form is_email f =
    is_email f.email
    && (leb 1 (text_length f.phone) && (leb 8 (text_length f.password) || f.password === ""))

-- A field that is left out is none; `router_id` may also be sent as null.
pub record UpdateData : Type 0 where
  pub email : String
  pub phone : String
  pub role : UserRole
  pub password : Option String
  pub router_id : Option (Option String)

pub data Request : Type 0 where
  update_user : String → UpdateData → Request
  create_user : UserForm → Request
  deactivate_user : String → Request

pub record CustomersPage : Type 0 where
  pub editing_user : Option User
  pub is_dialog_open : Bool
  pub form : UserForm
  pub deleting_user_id : Option String
  pub is_delete_dialog_open : Bool
  pub sent : List Request
  pub toast : Option String

abbrev pub first_render : CustomersPage
first_render = record {
  editing_user = none;
  is_dialog_open = false;
  form = empty_form;
  deleting_user_id = none;
  is_delete_dialog_open = false;
  sent = [];
  toast = none;
}

-- The values that the effect on `editingUser` resets the form to.
abbrev pub form_of : Option User → UserForm
form_of none = empty_form
form_of (some u) = record {
  email = u.email;
  phone = u.phone;
  password = "";
  role = u.role;
  router_id = get_or u.router_id "";
}

abbrev pub is_same : (User → User → Bool) → Option User → Option User → Bool
is_same same none none = true
is_same same (some u) (some v) = same u v
is_same same _ _ = false

-- `setEditingUser`, and the effect that runs when the value has changed.
unfoldable pub set_editing_user : (User → User → Bool) → Option User → CustomersPage → CustomersPage
set_editing_user same u p =
    if is_same same p.editing_user u
    then record p { editing_user = u }
    else record p { editing_user = u; form = form_of u }

unfoldable pub handle_open_dialog :
    (User → User → Bool) → Option User → CustomersPage → CustomersPage
unfolding set_editing_user
handle_open_dialog same u p = record (set_editing_user same u p) { is_dialog_open = true }

unfoldable pub handle_close_dialog : (User → User → Bool) → CustomersPage → CustomersPage
unfolding set_editing_user
handle_close_dialog same p = set_editing_user same none (record p { is_dialog_open = false })

abbrev pub send : Request → CustomersPage → CustomersPage
send r p = record p { sent = r ∷ p.sent }

abbrev pub update_data : UserForm → UpdateData
update_data f = record {
  email = f.email;
  phone = f.phone;
  role = f.role;
  password = truthy (some f.password);
  router_id = if role_eq f.role customer then some (truthy (some f.router_id)) else none;
}

-- `onSubmit`, up to the answer.
unfoldable pub on_submit : CustomersPage → CustomersPage
on_submit p = elim p.editing_user [
  | some user ↦ send (update_user user.id (update_data p.form)) p
  | none ↦
      if p.form.password === ""
      then record p { toast = some "Password is required for new users" }
      else send (create_user p.form) p
]

-- `handleSubmit(onSubmit)`.
unfoldable pub handle_submit : (String → Bool) → CustomersPage → CustomersPage
unfolding on_submit is_valid_form
handle_submit is_email p = if is_valid_form is_email p.form then on_submit p else p

unfoldable pub on_saved : (User → User → Bool) → CustomersPage → CustomersPage
unfolding handle_close_dialog
on_saved same p = handle_close_dialog same (record p {
  toast = some (elim p.editing_user [
    | none ↦ "User created successfully"
    | some _ ↦ "User updated successfully"
  ]);
})

unfoldable pub on_save_failed : Option String → CustomersPage → CustomersPage
on_save_failed detail p = record p { toast = some (get_or (truthy detail) "Failed to save user") }

-- The answer to a request to deactivate closes the dialog in any case.
unfoldable pub handle_deactivate : CustomersPage → CustomersPage
handle_deactivate p = elim (truthy p.deleting_user_id) [
  | none ↦ p
  | some id ↦ send (deactivate_user id) p
]

unfoldable pub on_deactivated : Bool → CustomersPage → CustomersPage
on_deactivated done p = record p {
  toast = some (if done then "User deactivated" else "Failed to deactivate user");
  is_delete_dialog_open = false;
  deleting_user_id = none;
}
