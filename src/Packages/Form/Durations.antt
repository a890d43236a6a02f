-- ===== src/Packages/Form/Durations.antt =====
-- What duration the form of a package sends.
use frixel_connect.Base.{
  ℕ, ◌≡◌, refl, ◌⊎◌, inl, inr, Bool, true, false, Option, none, some, List, [], ◌∷◌, arith,
}
use frixel_connect.Onboarding.{ServiceType, hotspot, pppoe}
use frixel_connect.Packages.Form.{
  DurationForm, is_pppoe, open_form, after_change, select_service_type, select_duration,
  type_duration, Input, service, preset, typed, input, input_all,
}

-- A fiber package lasts 30 days, and what the list of presets shows is the duration.
abbrev pub IsCoherent : DurationForm → Type 0
IsCoherent f =
    ((is_pppoe f ≡ false) ⊎ (f.duration_minutes ≡ 43200))
    × ((f.duration_preset ≡ none) ⊎ (f.duration_preset ≡ some f.duration_minutes))

open_form-IsCoherent : (s : Option ServiceType) (allow : Bool) → IsCoherent (open_form s allow none)
unfolding open_form
open_form-IsCoherent none true = (inl refl, inr refl)
open_form-IsCoherent none false = (inl refl, inr refl)
open_form-IsCoherent (some hotspot) true = (inl refl, inr refl)
open_form-IsCoherent (some hotspot) false = (inl refl, inr refl)
open_form-IsCoherent (some pppoe) true = (inr refl, inr refl)
open_form-IsCoherent (some pppoe) false = (inr refl, inr refl)

input-IsCoherent : (f : DurationForm) (i : Input) → IsCoherent f → IsCoherent (input f i)
unfolding input select_service_type select_duration type_duration after_change
input-IsCoherent f (service pppoe) v = ground arith
input-IsCoherent f (service hotspot) v = ground arith
input-IsCoherent f (preset none) v = ground arith
input-IsCoherent f (preset (some m)) v = ground arith
input-IsCoherent f (typed n) v = ground arith

IsCoherent-input_all :
    (f : DurationForm) (is : List Input) → IsCoherent f → IsCoherent (input_all f is)
unfolding input_all
IsCoherent-input_all f [] v = v
IsCoherent-input_all f (i ∷ is) v = IsCoherent-input_all (input f i) is (input-IsCoherent f i v)

-- In the form of a new package, whatever is chosen and typed: a fiber package lasts 30 days, and the
-- duration that the list of presets shows, unless it shows 'Custom', is the one that is sent.
pub input_all-IsCoherent :
    (s : Option ServiceType) (allow : Bool) (is : List Input)
    → IsCoherent (input_all (open_form s allow none) is)
input_all-IsCoherent s allow is = IsCoherent-input_all _ is (open_form-IsCoherent s allow)

-- When a hotspot package is edited, the list of presets shows one day, whatever its duration is.
pub edited_preset :
    (allow : Bool) (d : ℕ)
    → let f = open_form (some hotspot) allow (some d) in
      (f.duration_preset ≡ some 1440) × (f.duration_minutes ≡ d)
unfolding open_form
edited_preset true d = (refl, refl)
edited_preset false d = (refl, refl)
