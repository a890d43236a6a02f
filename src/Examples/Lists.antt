-- ===== src/Examples/Lists.antt =====
-- A router that is edited, and the text of a duration.
use frixel_connect.Base.{◌≡◌, refl, Option, none, some, List, [], ◌∷◌, All, false}
use frixel_connect.Auth.{UserRole}
use frixel_connect.Portal.{AuthUser}
use frixel_connect.RouterList.{
  MikrotikRouter, online, RouterFormValues, first_render, Event, row, change, rotate, submit,
  save_failed, saved, delete_of, confirm_delete, deleted, handle_all,
}
use frixel_connect.RouterList.Requests.{IsChange, changes-IsChange}
use frixel_connect.Formats.{format_duration}
use frixel_connect.Formats.Durations.{parse_duration, parse_duration-format_duration}

abbrev admin : Option AuthUser
admin = some (record { user_id = "u1"; role = UserRole.admin; tenant_id = some "t1" })

abbrev router : MikrotikRouter
router = record {
  id = "r1";
  name = "Core";
  host = some "192.168.88.1";
  port = none;
  username = some "api";
  site_name = "Nairobi CBD";
  status = online;
}

abbrev moved : RouterFormValues
moved = record {
  name = "Core";
  host = "10.0.0.1";
  port = some 8728;
  username = "api";
  password = some "secret";
  site_name = "Nairobi CBD";
}

abbrev edit : List Event
edit =
    row router
    ∷ submit
    ∷ save_failed none
    ∷ change moved
    ∷ rotate false
    ∷ submit
    ∷ saved
    ∷ delete_of "r1"
    ∷ confirm_delete
    ∷ deleted
    ∷ []

changes-IsChange_example : All (IsChange false) (handle_all admin first_render edit).sent
changes-IsChange_example =
    changes-IsChange admin false edit
      (refl, (refl, (refl, (refl, (refl, (refl, (refl, (refl, (refl, (refl, tt))))))))))

parse_duration-format_duration_example : parse_duration (format_duration 2880) ≡ 2880
parse_duration-format_duration_example = parse_duration-format_duration 2880
