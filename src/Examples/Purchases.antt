-- ===== src/Examples/Purchases.antt =====
-- A payment, the packages, and the list of tenants; and the sessions of a storage.
use frixel_connect.Base.{
  ◌≡◌, refl, ap, ◌∙◌, true, false, String, List, [], ◌∷◌, Option, none, some, All, ◌===◌,
  if◌then◌else◌, of_not_empty,
}
use frixel_connect.Storage.{get_item}
use frixel_connect.Auth.{TenantStatus, get_token, get_refresh_token, get_token_for_tenant}
use frixel_connect.Auth.Refinement.{
  Sessions, Operation, save_access, save_refresh, end_active, perform_all, intend_all, of_current,
  Implements, sessions_are_implemented,
}
use frixel_connect.Onboarding.{hotspot, pppoe, Codec, service_text}
use frixel_connect.Dashboard.{PaymentStatus}
use frixel_connect.Purchase.{BuyPage, Attempt, answers, errs, Trigger, interval, refetch}
use frixel_connect.Tenants.{
  TenantRow, Event, choose_suspension_of, type_reason, confirm_suspend, confirm_reactivate,
  choose_reactivation_of, suspend_over, choose_duration, first_render, handle_all,
}
use frixel_connect.Tenants.Actions.{IsAllowed, handle_all-IsAllowed}
use frixel_connect.Packages.{
  Package, PackageServiceTypeMap, PackagesPage, resolve_package_service_type, handle_open_dialog,
  on_saved,
}
use frixel_connect.Packages.Form.{open_form, input_all, preset, service, typed}
use frixel_connect.Packages.Form.Durations.{IsCoherent, input_all-IsCoherent}
use frixel_connect.Packages.ServiceTypes.{IsFaithful, saved_id, saved_type_resolves}
use frixel_connect.Examples.Texts.{write, read, read-write, write-is_empty, service_of, service_lem}

abbrev no_sessions : Sessions
no_sessions = record { active = none; access = λ t. none; refresh = λ t. none }

nothing_stored : Implements [] no_sessions
unfolding get_item
nothing_stored = record { active = refl; access = λ t. refl; refresh = λ t. refl }

abbrev operations : List Operation
operations =
    save_access "h.p.s" "t1" ∷ save_refresh "r1" "t1" ∷ save_access "h.q.s" "t2" ∷ end_active ∷ []

sessions_are_implemented_example :
    let s' = perform_all operations [] in
    let m' = intend_all operations no_sessions in
    (get_token s' ≡ of_current m'.access m')
    × (get_refresh_token s' ≡ of_current m'.refresh m')
    × (get_token_for_tenant "t1" s' ≡ m'.access "t1")
sessions_are_implemented_example =
    sessions_are_implemented operations [] no_sessions "t1" nothing_stored

abbrev buy_page : BuyPage
buy_page = record {
  packages = none;
  selected_package_id = none;
  phone_number = "0712345678";
  is_dialog_open = false;
  is_pending = false;
  sent = [];
  location = "/customer/buy";
  toast = none;
}

abbrev told : PaymentStatus → Attempt
told status = answers (record { status = status; voucher_code = some "V1" })

abbrev unanswered : Attempt
unanswered = errs none

abbrev awaited : List Trigger
awaited =
    refetch (told PaymentStatus.pending) unanswered
    ∷ interval unanswered (told PaymentStatus.pending)
    ∷ interval unanswered unanswered
    ∷ []

abbrev paid : Trigger
paid = interval (told PaymentStatus.confirmed) unanswered

abbrev afterwards : List Trigger
afterwards =
    interval (told PaymentStatus.pending) unanswered
    ∷ refetch unanswered (told PaymentStatus.confirmed)
    ∷ refetch unanswered unanswered
    ∷ []

abbrev tenant : TenantRow
tenant = record { id = "t1"; business_name = "Hill Net"; status = TenantStatus.active }

abbrev suspension : List Event
suspension =
    choose_duration 15
    ∷ choose_suspension_of tenant
    ∷ type_reason "unpaid invoices"
    ∷ confirm_suspend
    ∷ suspend_over
    ∷ choose_reactivation_of (record tenant { status = TenantStatus.suspended })
    ∷ confirm_reactivate
    ∷ []

handle_all-IsAllowed_example : All (IsAllowed suspension) (handle_all first_render suspension).sent
handle_all-IsAllowed_example = handle_all-IsAllowed suspension

abbrev encode_map : PackageServiceTypeMap → String
encode_map [] = ""
encode_map ((id, kind) ∷ m) = write id (write (service_text kind) (encode_map m))

abbrev decode_map : List String → PackageServiceTypeMap
decode_map (id ∷ kind ∷ rest) = (id, service_of kind) ∷ decode_map rest
decode_map _ = []

abbrev map_of : List String → Option PackageServiceTypeMap
map_of [] = none
map_of (head ∷ rest) = some (decode_map rest)

abbrev map_codec : Codec PackageServiceTypeMap
map_codec = record { encode = λ m. write "" (encode_map m); decode = λ s. map_of (read s) }

decode-encode : (m : PackageServiceTypeMap) → decode_map (read (encode_map m)) ≡ m
decode-encode [] = refl
decode-encode ((id, kind) ∷ m) = rw (read-write id (write (service_text kind) (encode_map m))) (
    rw (read-write (service_text kind) (encode_map m))
      (rw (service_lem kind) (ap (◌∷◌ (id, kind)) (decode-encode m))))

map_codec-IsFaithful : IsFaithful map_codec
map_codec-IsFaithful = record {
  reads_back = λ m. ap map_of (read-write "" (encode_map m)) ∙ ap some (decode-encode m);
  not_empty = λ m. of_not_empty _ _ refl (write-is_empty "" (encode_map m));
}

abbrev package_page : PackagesPage
package_page = record {
  is_dialog_open = true;
  is_delete_dialog_open = false;
  editing_package = none;
  deleting_package_id = none;
  form_service_type = pppoe;
  local = ("theme", "dark") ∷ [];
  sent = [];
  toast = none;
}

abbrev monthly : Package
monthly = record {
  id = "k1";
  name = "Monthly";
  description = "";
  price_kes = 1500;
  duration_minutes = 43200;
  speed_mbps = 10;
  service_type = none;
}

saved_type_resolves_example :
    let q = on_saved map_codec "k1" package_page in
    let kind =
      if saved_id map_codec map_codec-IsFaithful "k1" package_page === "k1"
      then pppoe
      else resolve_package_service_type map_codec monthly package_page.local in
    (resolve_package_service_type map_codec monthly q.local ≡ kind)
    × ((handle_open_dialog map_codec (some monthly) q).form_service_type ≡ kind)
    × (get_item "theme" q.local ≡ get_item "theme" package_page.local)
saved_type_resolves_example =
    saved_type_resolves map_codec map_codec-IsFaithful "k1" "theme" monthly package_page refl refl

input_all-IsCoherent_example : IsCoherent (
    input_all
      (open_form (some hotspot) true none)
      (preset (some 60) ∷ service pppoe ∷ typed 5 ∷ service hotspot ∷ preset none ∷ typed 90 ∷ []))
input_all-IsCoherent_example =
    input_all-IsCoherent (some hotspot) true
      (preset (some 60) ∷ service pppoe ∷ typed 5 ∷ service hotspot ∷ preset none ∷ typed 90 ∷ [])
