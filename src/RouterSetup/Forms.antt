-- ===== src/RouterSetup/Forms.antt =====
-- What the forms of the router wizard send.
use Prim.Native.String.{String}
use frixel_connect.Base.{
  trim_start, trim_end, trim, ◌≡◌, refl, ◌∙◌, ap, ◌≢◌, some, arith, false, is_empty, of_not_empty,
}
use frixel_connect.RouterSetup.{Wizard, MagicRequest, submit_details}

trim_end-is_empty : (s : String) → is_empty (trim_end (trim_end s)) ≡ is_empty (trim_end s)
unfolding trim_end
trim_end-is_empty String.[] = refl
trim_end-is_empty (String.◌∷◌ c s) = ground (arith, trim_end-is_empty s)

trim_end_idempotent : (s : String) → trim_end (trim_end s) ≡ trim_end s
unfolding trim_end
trim_end_idempotent String.[] = refl
trim_end_idempotent (String.◌∷◌ c s) = ground (arith, trim_end_idempotent s)

trim_start-trim_end : (s : String) → trim_start (trim_end (trim_start s)) ≡ trim_end (trim_start s)
unfolding trim_start trim_end
trim_start-trim_end String.[] = refl
trim_start-trim_end (String.◌∷◌ c s) = ground (arith, trim_start-trim_end s)

trim_idempotent : (s : String) → trim (trim s) ≡ trim s
unfolding trim
trim_idempotent s = ap trim_end (trim_start-trim_end s) ∙ trim_end_idempotent (trim_start s)

trimmed : (s t : String) → s ≡ trim t → trim s ≡ s
trimmed s t e = rw e (trim_idempotent t)

sent_details :
    (w : Wizard) (r : MagicRequest)
    → (submit_details w).1 ≡ some r
    → (r.name ≡ trim w.router_name)
      × (r.site_name ≡ trim w.site_name)
      × (is_empty (trim w.router_name) ≡ false)
      × (is_empty (trim w.site_name) ≡ false)
      × ((submit_details w).0.name_error ≡ "")
      × ((submit_details w).0.site_error ≡ "")
unfolding submit_details
sent_details w r e = ground arith

-- What the form of the details sends is the two names without white space around them, neither empty;
-- with nothing sent, at least one message is shown, and with something sent none.
pub submitted_names :
    (w : Wizard) (r : MagicRequest)
    → (submit_details w).1 ≡ some r
    → (r.name ≢ "")
      × (r.site_name ≢ "")
      × (trim r.name ≡ r.name)
      × (trim r.site_name ≡ r.site_name)
      × ((submit_details w).0.name_error ≡ "")
      × ((submit_details w).0.site_error ≡ "")
submitted_names w r e =
    let (name, site, full, full', quiet, silent) = sent_details w r e in
    (
      of_not_empty r.name _ name full,
      of_not_empty r.site_name _ site full',
      trimmed r.name w.router_name name,
      trimmed r.site_name w.site_name site,
      quiet,
      silent,
    )
