-- ===== src/RouterSetup/Resume.antt =====
-- What a reload of the router wizard finds of the router under way.
use frixel_connect.Base.{
  ◌≡◌, refl, ap, ◌≢◌, Bool, true, false, String, none, some, arith, get_or, if◌then◌else◌,
}
use frixel_connect.Storage.{Storage, get_item}
use frixel_connect.Storage.Laws.{get_item-set_item, get_item-remove_item}
use frixel_connect.Auth.Sessions.{truthy_of_ne}
use frixel_connect.RouterSetup.{
  MagicInit, Wizard, details, command, provision, id_key, token_key, command_key, expires_key,
  chr_key, name_key, site_key, default_range, mount, clear_local_storage, save_local_storage, Clock,
  is_future, stored_true, complete_data, resumable, resume, on_resume_status, on_polled_status,
  on_timer, trim, on_init_magic, back_to_details, handle_reset, on_provisioned,
}

-- A setup that can be resumed: the server left none of its texts empty.
pub record IsWhole (setup : MagicInit) : Type 0 where
  pub id : setup.router_id ≢ ""
  pub token : setup.setup_token ≢ ""
  pub command : setup.magic_command ≢ ""
  pub expires : setup.expires_at ≢ ""

ruleset wizard_laws = (get_item-set_item, get_item-remove_item)

stored_chr : (b : Bool) → stored_true (some (if b then "true" else "false")) ≡ b
stored_chr true = refl
stored_chr false = refl

module _ (setup : MagicInit) (name site : String) (s : Storage) where
  saved_id : get_item id_key (save_local_storage setup name site s) ≡ some setup.router_id
  unfolding save_local_storage
  saved_id = simp wizard_laws

  saved_token : get_item token_key (save_local_storage setup name site s) ≡ some setup.setup_token
  unfolding save_local_storage
  saved_token = simp wizard_laws

  saved_command :
      get_item command_key (save_local_storage setup name site s) ≡ some setup.magic_command
  unfolding save_local_storage
  saved_command = simp wizard_laws

  saved_expires :
      get_item expires_key (save_local_storage setup name site s) ≡ some setup.expires_at
  unfolding save_local_storage
  saved_expires = simp wizard_laws

  saved_chr :
      get_item chr_key (save_local_storage setup name site s)
      ≡ some (if setup.is_chr then "true" else "false")
  unfolding save_local_storage
  saved_chr = simp wizard_laws

  saved_name : get_item name_key (save_local_storage setup name site s) ≡ some name
  unfolding save_local_storage
  saved_name = simp wizard_laws

  saved_site : get_item site_key (save_local_storage setup name site s) ≡ some site
  unfolding save_local_storage
  saved_site = simp wizard_laws

  complete_saved :
      (id : String)
      → IsWhole setup
      → complete_data (save_local_storage setup name site s) id
        ≡ some (record setup { router_id = id })
  unfolding complete_data
  complete_saved id v =
      rw (saved_token, complete_data)
        (rw (truthy_of_ne setup.setup_token v.token, complete_data)
          (rw (saved_command, complete_data)
            (rw (truthy_of_ne setup.magic_command v.command, complete_data)
              (rw (saved_expires, complete_data)
                (rw (truthy_of_ne setup.expires_at v.expires, complete_data)
                  (rw (saved_chr, stored_chr setup.is_chr) refl))))))

  resumable_saved :
      IsWhole setup → resumable none (save_local_storage setup name site s) ≡ some setup
  unfolding resumable
  resumable_saved v =
      rw (saved_id, resumable)
        (rw (truthy_of_ne setup.router_id v.id, resumable) (complete_saved setup.router_id v))

expired_resume :
    (clock : Clock) (setup : MagicInit) (name site : String) (s : Storage)
    → IsWhole setup
    → is_future clock setup.expires_at ≡ false
    → let saved = save_local_storage setup name site s in
      resume clock none (mount saved)
      ≡ (record (mount (clear_local_storage saved)) { is_loading_resume = false }, none)
unfolding resume mount
expired_resume clock setup name site s v late =
    rw (resumable_saved setup name site s v, resume) (rw (late, resume) refl)

cleared_id : (s : Storage) → get_item id_key (clear_local_storage s) ≡ none
unfolding clear_local_storage
cleared_id s = simp wizard_laws

resumable_cleared : (s : Storage) → resumable none (clear_local_storage s) ≡ none
unfolding resumable
resumable_cleared s = ground (arith, cleared_id s)

-- A wizard that is left after the server has issued a setup resumes on its next mount, as long as
-- the setup has not expired: it asks for the status of that router, and the status `pending_setup`
-- brings it back to the command, with the setup and the trimmed names as they were. Where the router
-- has come online meanwhile it goes on to the provisioning, with the address range of its kind.
pub resume-on_init_magic :
    (clock : Clock) (setup : MagicInit) (w : Wizard)
    → IsWhole setup
    → is_future clock setup.expires_at ≡ true
    → let fresh = mount (on_init_magic setup w).local in
      let back = on_resume_status setup (some "pending_setup") fresh in
      let online = on_resume_status setup (some "online") fresh in
      (resume clock none fresh ≡ (fresh, some setup))
      × (back.step ≡ command)
      × (back.init_data ≡ (on_init_magic setup w).init_data)
      × (back.router_name ≡ trim w.router_name)
      × (back.site_name ≡ trim w.site_name)
      × (online.step ≡ provision)
      × (online.init_data ≡ (on_init_magic setup w).init_data)
      × (online.ip_range ≡ default_range setup.is_chr)
unfolding resume on_init_magic mount on_resume_status
resume-on_init_magic clock setup w v later = (
  rw (resumable_saved setup (trim w.router_name) (trim w.site_name) w.local v, resume)
      (rw (later, resume) refl),
  refl,
  refl,
  ap (λ o. get_or o "") (saved_name setup (trim w.router_name) (trim w.site_name) w.local),
  ap (λ o. get_or o "") (saved_site setup (trim w.router_name) (trim w.site_name) w.local),
  refl,
  refl,
  refl,
)

asks_nothing :
    (clock : Clock) (s : Storage) → (resume clock none (mount (clear_local_storage s))).1 ≡ none
unfolding resume mount
asks_nothing clock s = rw (resumable_cleared s, resume) refl

-- A wizard that was reset, whose router was provisioned, or whose resumed router was not found leaves
-- nothing to resume: the next mount asks for no status. A resume of a setup that has expired leaves
-- the state as it is but for the loading mark, asks nothing, and so does the mount after it.
pub nothing_to_resume :
    (clock : Clock) (w : Wizard) (setup : MagicInit)
    → IsWhole setup
    → is_future clock setup.expires_at ≡ false
    → let expired = resume clock none (mount (on_init_magic setup w).local) in
      ((resume clock none (mount (handle_reset w).local)).1 ≡ none)
      × ((resume clock none (mount (on_provisioned true w).local)).1 ≡ none)
      × ((resume clock none (mount (on_resume_status setup none w).local)).1 ≡ none)
      × (expired.1 ≡ none)
      × (expired.0.step ≡ details)
      × (expired.0.is_loading_resume ≡ false)
      × ((resume clock none (mount expired.0.local)).1 ≡ none)
unfolding mount handle_reset on_provisioned on_resume_status on_init_magic
nothing_to_resume clock w setup v late =
    let name = trim w.router_name in
    let site = trim w.site_name in
    let saved = save_local_storage setup name site w.local in
    rw (expired_resume clock setup name site w.local v late) (
      asks_nothing clock w.local,
      asks_nothing clock w.local,
      asks_nothing clock w.local,
      refl,
      refl,
      refl,
      asks_nothing clock saved,
    )

-- A resume of a CHR router whose script has not run leaves the address range of a physical router in the
-- form, where a resume after the script has run sets the one of a CHR: the same router, resumed while it waits
-- and provisioned when it comes online, is offered another range.
pub resumed_chr_range :
    (setup : MagicInit) (s : Storage)
    → setup.is_chr ≡ true
    → let waiting = on_resume_status setup (some "pending_setup") (mount s) in
      let arrived = on_timer (on_polled_status "online" waiting) in
      let online = on_resume_status setup (some "online") (mount s) in
      (arrived.step ≡ online.step)
      × (arrived.init_data ≡ online.init_data)
      × (arrived.is_chr ≡ true)
      × (arrived.ip_range ≡ "10.0.0.1/24")
      × (online.ip_range ≡ "10.10.10.1/24")
unfolding mount on_resume_status on_polled_status on_timer
resumed_chr_range setup s e = (refl, refl, e, refl, rw e refl)

-- With another router in the address than the one in the storage, the setup that is resumed names the
-- one of the address, but holds the token and the command of the one in the storage.
pub resume_of_other :
    (other name site : String) (setup : MagicInit) (s : Storage)
    → IsWhole setup
    → other ≢ ""
    → resumable (some other) (save_local_storage setup name site s)
      ≡ some (record setup { router_id = other })
unfolding resumable
resume_of_other other name site setup s v ne =
    rw (truthy_of_ne other ne, resumable) (complete_saved setup name site s other v)

-- The way back from the command does not stop the timer that an online router has started: the wizard
-- that shows the details is moved to the provisioning.
pub back_is_overtaken :
    (w : Wizard)
    → w.step ≡ command
    → let left = back_to_details (on_polled_status "online" w) in
      (left.step ≡ details) × ((on_timer left).step ≡ provision)
unfolding back_to_details on_polled_status on_timer
back_is_overtaken w e = (
  rw (e, back_to_details, on_polled_status) refl,
  rw (e, back_to_details, on_polled_status, on_timer) refl,
)
