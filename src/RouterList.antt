-- ===== src/RouterList.antt =====
-- frontend/src/pages/admin/RoutersPage.tsx and the form in it, frontend/src/components/shared/RouterForm.tsx. The requests are
-- those of the hooks in Cache; the form is there while its dialog is open.
pub mod Edits
pub mod Requests
use frixel_connect.Base.{
  ℕ, Bool, true, false, not, ◌&&◌, ◌||◌, String, Option, none, some, List, [], ◌∷◌, if◌then◌else◌,
  leb, is_some, is_empty, truthy, get_or, prepend,
}
use frixel_connect.Portal.{AuthUser}
use frixel_connect.Queries.{Part}
use frixel_connect.Cache.{Mutation}
use frixel_connect.Cache.Writes.{use_create_router, use_update_router, use_delete_router}

pub data RouterStatus : Type 0 where
  online offline unknown pending_setup testing : RouterStatus

pub record MikrotikRouter : Type 0 where
  pub id : String
  pub name : String
  pub host : Option String
  pub port : Option ℕ
  pub username : Option String
  pub site_name : String
  pub status : RouterStatus

-- `port` is what the field is coerced to: none when that is no positive whole number.
pub record RouterFormValues : Type 0 where
  pub name : String
  pub host : String
  pub port : Option ℕ
  pub username : String
  pub password : Option String
  pub site_name : String

-- `RouterCreateRequest`, in whole or in part.
pub record RouterBody : Type 0 where
  pub name : String
  pub host : String
  pub port : ℕ
  pub username : String
  pub password : Option String
  pub site_name : String

pub record RouterForm : Type 0 where
  pub is_edit : Bool
  pub rotate_password : Bool
  pub values : RouterFormValues

pub record RoutersPage : Type 0 where
  pub is_dialog_open : Bool
  pub is_delete_dialog_open : Bool
  pub editing_router : Option MikrotikRouter
  pub deleting_router_id : Option String
  pub form : RouterForm
  pub is_pending : Bool
  pub sent : List (Mutation Part RouterBody)
  pub location : String
  pub toast : Option String

-- `defaultValues`: of a router, or of a new one.
unfoldable pub default_values : Option MikrotikRouter → RouterFormValues
default_values none = record {
  name = "";
  host = "";
  port = some 8728;
  username = "admin";
  password = some "";
  site_name = "";
}
default_values (some router) = record {
  name = router.name;
  host = get_or router.host "";
  port = some (get_or router.port 80);
  username = get_or router.username "admin";
  password = none;
  site_name = router.site_name;
}

unfoldable pub mount_form : Option MikrotikRouter → RouterForm
unfolding default_values
mount_form router = record {
  is_edit = is_some router;
  rotate_password = not (is_some router);
  values = default_values router;
}

-- `routerSchema`: of the password it takes every text, the empty one too, and none.
unfoldable pub is_valid : RouterFormValues → Bool
is_valid v =
    not (is_empty v.name)
    && (not (is_empty v.host)
        && (elim v.port [ none ↦ false | some port ↦ leb 1 port ]
            && (not (is_empty v.username) && not (is_empty v.site_name))))

-- `handleFormSubmit`.
unfoldable pub payload : RouterForm → RouterFormValues
payload f =
    if f.is_edit && not f.rotate_password then record f.values { password = none } else f.values

module _ (user : Option AuthUser) where
  unfoldable pub on_submit : RouterFormValues → RoutersPage → RoutersPage
  on_submit v p = elim p.editing_router [
    | none ↦ record p {
      is_pending = true;
      sent =
          use_create_router
            (record {
              name = v.name;
              host = v.host;
              port = get_or v.port 0;
              username = v.username;
              password = some (get_or (truthy v.password) "");
              site_name = v.site_name;
            })
            user
          ∷ p.sent;
    }
    | some router ↦ record p {
      is_pending = true;
      sent =
          use_update_router router.id
            (record {
              name = v.name;
              host = v.host;
              port = get_or v.port 0;
              username = v.username;
              password = truthy v.password;
              site_name = v.site_name;
            })
            user
          ∷ p.sent;
    }
  ]

  -- The button of the form, which is disabled while a request is under way.
  unfoldable pub handle_submit : RoutersPage → RoutersPage
  unfolding on_submit payload is_valid
  handle_submit p =
      if not p.is_dialog_open || p.is_pending || not (is_valid p.form.values)
      then p
      else on_submit (payload p.form) p

  unfoldable pub handle_delete : RoutersPage → RoutersPage
  handle_delete p = elim (truthy p.deleting_router_id) [
    | none ↦ p
    | some id ↦ record p { sent = use_delete_router id user ∷ p.sent }
  ]

-- The dialog opens on a router, and the form is mounted anew.
unfoldable pub handle_open_edit_dialog : MikrotikRouter → RoutersPage → RoutersPage
unfolding mount_form
handle_open_edit_dialog router p = record p {
  editing_router = some router;
  is_dialog_open = true;
  form = mount_form (some router);
}

-- The button of a row: a router whose set-up is not complete is set up further.
unfoldable pub press_row : MikrotikRouter → RoutersPage → RoutersPage
unfolding handle_open_edit_dialog
press_row router p = elim router.status [
  | pending_setup ↦ record p { location = prepend "/admin/onboarding/router?router_id=" router.id }
  | _ ↦ handle_open_edit_dialog router p
]

unfoldable pub handle_close_dialog : RoutersPage → RoutersPage
handle_close_dialog p = record p { is_dialog_open = false; editing_router = none }

unfoldable pub on_saved : RoutersPage → RoutersPage
unfolding handle_close_dialog
on_saved p = handle_close_dialog (record p {
  is_pending = false;
  toast = some (
      if is_some p.editing_router
      then "Router configuration updated"
      else "Router connected successfully");
})

unfoldable pub on_save_failed : Option String → RoutersPage → RoutersPage
on_save_failed detail p = record p {
  is_pending = false;
  toast = some (get_or (truthy detail) "Failed to save router details.");
}

unfoldable pub ask_delete : String → RoutersPage → RoutersPage
ask_delete id p = record p { deleting_router_id = some id; is_delete_dialog_open = true }

-- Whether the request succeeded or failed; a failure comes with its detail.
unfoldable pub on_deleted : RoutersPage → RoutersPage
on_deleted p = record p {
  is_delete_dialog_open = false;
  deleting_router_id = none;
  toast = some "Router profile removed";
}

unfoldable pub on_delete_failed : Option String → RoutersPage → RoutersPage
on_delete_failed detail p = record p {
  is_delete_dialog_open = false;
  deleting_router_id = none;
  toast = some (get_or (truthy detail) "Failed to remove router.");
}

abbrev pub first_render : RoutersPage
first_render = record {
  is_dialog_open = false;
  is_delete_dialog_open = false;
  editing_router = none;
  deleting_router_id = none;
  form = mount_form none;
  is_pending = false;
  sent = [];
  location = "/admin/routers";
  toast = none;
}

pub data Event : Type 0 where
  row : MikrotikRouter → Event
  change : RouterFormValues → Event
  rotate : Bool → Event
  submit close saved : Event
  dialog_open : Bool → Event
  save_failed : Option String → Event
  delete_of : String → Event
  delete_open : Bool → Event
  confirm_delete deleted : Event
  delete_failed : Option String → Event

-- What the admin does, and the answers. `change` is any change of the fields, `rotate` of the box of an edit; `dialog_open` and
-- `delete_open` are what the dialogs tell of themselves, which open by the buttons only.
unfoldable pub handle : Option AuthUser → RoutersPage → Event → RoutersPage
unfolding press_row handle_submit handle_close_dialog on_saved on_save_failed ask_delete
    handle_delete on_deleted on_delete_failed
handle user p (row router) = press_row router p
handle user p (change v) = record p { form = record p.form { values = v } }
handle user p (rotate b) =
    if p.form.is_edit then record p { form = record p.form { rotate_password = b } } else p
handle user p submit = handle_submit user p
handle user p close = if p.is_pending then p else handle_close_dialog p
handle user p saved = on_saved p
handle user p (dialog_open b) = if b then p else record p { is_dialog_open = false }
handle user p (save_failed detail) = on_save_failed detail p
handle user p (delete_of id) = ask_delete id p
handle user p (delete_open b) = if b then p else record p { is_delete_dialog_open = false }
handle user p confirm_delete = handle_delete user p
handle user p deleted = on_deleted p
handle user p (delete_failed detail) = on_delete_failed detail p

unfoldable pub handle_all : Option AuthUser → RoutersPage → List Event → RoutersPage
unfolding handle
handle_all user p [] = p
handle_all user p (e ∷ es) = handle_all user (handle user p e) es
