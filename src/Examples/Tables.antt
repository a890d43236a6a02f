-- ===== src/Examples/Tables.antt =====
-- Tables of sessions and payments, and a user who is created.
use frixel_connect.Base.{
  ℕ, Bool, false, String, List, [], ◌∷◌, ◌++◌, none, some, text_length, ◌===◌, All,
}
use frixel_connect.Auth.{UserRole}
use frixel_connect.Tables.{SessionRow}
use frixel_connect.Dashboard.{PaymentStatus, Payment, User, DashboardData}
use frixel_connect.Customers.{UserForm, first_render}
use frixel_connect.Customers.Requests.{
  Event, open_dialog, fill_in, submit, saved, handle_all, IsSound, handle_all-IsSound,
}

abbrev get_time : String → ℕ
get_time s = text_length s

abbrev row : String → String → SessionRow
row id started_at = record { id = id; customer_id = "c1"; started_at = started_at }

abbrev rows : List SessionRow
rows = row "s1" "I" ∷ row "s2" "III" ∷ row "s3" "II" ∷ []

-- Sixteen sessions: two pages.
abbrev many : List SessionRow
many = let four : List SessionRow = row "s4" "IIII" ∷ rows in four ++ (four ++ (four ++ four))

abbrev payment : String → String → ℕ → PaymentStatus → String → Payment
payment id customer_id amount status created_at = record {
  id = id;
  customer_id = customer_id;
  amount = some amount;
  status = status;
  created_at = created_at;
}

abbrev payments : List Payment
payments =
    payment "p1" "c1" 50 PaymentStatus.confirmed "II"
    ∷ payment "p2" "c2" 20 PaymentStatus.failed "III"
    ∷ payment "p3" "c1" 30 PaymentStatus.confirmed "III"
    ∷ []

abbrev dashboard : DashboardData
dashboard = record {
  payments = some payments;
  customers = none;
  packages = none;
  routers = [];
  loading_payments = false;
  loading_vouchers = false;
  loading_customers = false;
  loading_packages = false;
  loading_routers = false;
}

abbrev is_today : String → Bool
is_today s = s === "III"

abbrev user : User
user = record {
  id = "c1";
  email = "ann@hill.net";
  phone = "0712345678";
  role = UserRole.customer;
  router_id = none;
}

abbrev filled : UserForm
filled = record {
  email = "bob@hill.net";
  phone = "0712345678";
  password = "secret-8";
  role = UserRole.customer;
  router_id = "";
}

abbrev is_email : String → Bool
is_email s = s === "bob@hill.net"

abbrev same : User → User → Bool
same u v = u.id === v.id

abbrev creation : List Event
creation = open_dialog none ∷ fill_in filled ∷ submit ∷ saved ∷ open_dialog none ∷ []

handle_all-IsSound_example :
    All (IsSound is_email same) (handle_all is_email same first_render creation).sent
handle_all-IsSound_example = handle_all-IsSound is_email same first_render creation tt
