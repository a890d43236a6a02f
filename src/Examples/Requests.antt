-- ===== src/Examples/Requests.antt =====
-- The requests of api.ts: a session, two requests that are answered 401, a refresh.
use frixel_connect.Api.{
  Config, Failure, Page, System, attach_token, bearer, fails, on_error, on_refreshed, refresh_fails,
  refreshed, run, starts_refresh, step,
}
use frixel_connect.Api.Headers.{attach_token-on_refreshed, impersonation_isolated}
use frixel_connect.Api.Overlap.{Consistent, run-no_overlap}
use frixel_connect.Api.Queue.{owed, run-owed, run_arrives, run_settled}
use frixel_connect.Api.Stuck.{IsFirst401, IsSignedOut, second_401_hangs}
use frixel_connect.Base.{[], arith, false, inl, none, refl, some, ◌+◌, ◌∷◌, ◌≡◌, ◌≤◌}
use frixel_connect.Examples.{browser, claims, decoded, local, text_ne}

abbrev config : Config
config = record { id = 7; retry = false; authorization = none }

abbrev page : Page
page = record {
  local = local;
  session = [];
  is_refreshing = false;
  failed_queue = [];
  default_authorization = none;
  pathname = "/admin/dashboard";
}

abbrev tab_page : Page
tab_page = record page { session = ("Frixel Connect_impersonation_token", "i.j.k") ∷ [] }

abbrev idle : System
idle = record { page = page; in_flight = none }

abbrev tab_system : System
tab_system = record { page = tab_page; in_flight = none }

abbrev signed_out : System
signed_out = record { page = record page { local = []; pathname = "/login" }; in_flight = none }

abbrev first : Failure
first = record { status = some 401; config = config }

abbrev second : Failure
second = record { status = some 401; config = record config { id = 8 } }

idle-Consistent : Consistent idle
idle-Consistent = record { flagged = inl refl; waiting = inl refl }

signed_out-IsSignedOut : IsSignedOut signed_out
unfolding frixel_connect.Storage.get_item frixel_connect.Auth.get_refresh_token
signed_out-IsSignedOut = record { plain = refl; tokenless = refl; quiet = refl; idle = refl }

first-IsFirst401 : IsFirst401 first
first-IsFirst401 = record { status = refl; fresh = refl }

second-IsFirst401 : IsFirst401 second
second-IsFirst401 = record { status = refl; fresh = refl }

run-owed_example :
    Consistent (run browser idle (fails first ∷ fails second ∷ refreshed "h.p.s" "r2" ∷ []))
    × (run_settled browser 8 idle (fails first ∷ fails second ∷ refreshed "h.p.s" "r2" ∷ [])
          + owed 8 (run browser idle (fails first ∷ fails second ∷ refreshed "h.p.s" "r2" ∷ []))
        ≡ owed 8 idle + run_arrives 8 (fails first ∷ fails second ∷ refreshed "h.p.s" "r2" ∷ []))
run-owed_example =
    run-owed browser idle (fails first ∷ fails second ∷ refreshed "h.p.s" "r2" ∷ []) 8
      idle-Consistent

run-no_overlap_example :
    (run browser idle (fails first ∷ refreshed "h.p.s" "r2" ∷ [])).in_flight ≡ none
unfolding run step on_error frixel_connect.Storage.get_item frixel_connect.Auth.get_refresh_token
    frixel_connect.Auth.refresh_key frixel_connect.Auth.decode_token
    frixel_connect.Auth.save_refresh_token frixel_connect.Storage.set_item
    frixel_connect.Auth.save_token frixel_connect.Auth.token_key
run-no_overlap_example =
    run-no_overlap browser idle (fails first ∷ refreshed "h.p.s" "r2" ∷ []) (fails second) refl refl
      refl

second_401_hangs_example :
    ((step browser (step browser signed_out (fails first)).0 (fails second)).1 ≡ [])
    × (1
        ≤ owed second.config.id (
            run browser signed_out
              (fails first ∷ fails second ∷ (fails first ∷ refresh_fails ∷ []))))
second_401_hangs_example =
    second_401_hangs browser signed_out first second (fails first ∷ refresh_fails ∷ [])
      signed_out-IsSignedOut first-IsFirst401 second-IsFirst401

attach_token-on_refreshed_example :
    (attach_token browser (on_refreshed browser page config "h.p.s" "r2").0 config).authorization
    ≡ some (bearer "h.p.s")
unfolding frixel_connect.Storage.get_item
attach_token-on_refreshed_example =
    attach_token-on_refreshed browser page config config "h.p.s" "r2" "t1" claims refl decoded
      (text_ne "h.p.s" refl) refl (text_ne "t1" refl) (omega arith)

impersonation_isolated_example :
    ((on_error tab_page first).0.local ≡ tab_page.local)
    × ((on_error tab_page first).0.failed_queue ≡ tab_page.failed_queue)
    × ((on_error tab_page first).0.is_refreshing ≡ tab_page.is_refreshing)
    × (starts_refresh (on_error tab_page first).1 ≡ false)
    × ((attach_token browser tab_page config).authorization ≡ some (bearer "i.j.k"))
unfolding frixel_connect.Storage.get_item
impersonation_isolated_example = impersonation_isolated browser tab_page first config "i.j.k" refl
