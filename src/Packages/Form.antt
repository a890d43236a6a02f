-- ===== src/Packages/Form.antt =====
-- The duration in the form of a package: frontend/src/components/admin/PackageForm.tsx. A fiber
-- package lasts 30 days; the duration of a hotspot package is a preset or typed. The other values
-- are sent as they were typed and are not modelled. The page gives a selected type back as the
-- property `serviceType`, which changes nothing then.
pub mod Durations
use frixel_connect.Base.{
  ℕ, Bool, true, false, Option, none, some, List, [], ◌∷◌, if◌then◌else◌, ◌==◌, any, get_or,
}
use frixel_connect.Onboarding.{ServiceType, hotspot, pppoe}

-- `HOTSPOT_DURATION_PRESETS`, without the last entry, which is for a custom duration.
abbrev pub hotspot_duration_presets : List ℕ
hotspot_duration_presets = 60 ∷ 180 ∷ 720 ∷ 1440 ∷ 10080 ∷ 43200 ∷ []

-- `duration_preset` is none for 'Custom', and `duration_minutes` the value of the field.
pub record DurationForm : Type 0 where
  pub service_type : Option ServiceType
  pub allow_service_type_select : Bool
  pub selected_service_type : ServiceType
  pub duration_preset : Option ℕ
  pub duration_minutes : ℕ

abbrev pub effective_service_type : DurationForm → Option ServiceType
effective_service_type f =
    if f.allow_service_type_select then some f.selected_service_type else f.service_type

abbrev pub is_pppoe : DurationForm → Bool
is_pppoe f = elim (effective_service_type f) [ some pppoe ↦ true | _ ↦ false ]

-- The first render, with the duration of the package that is edited.
unfoldable pub open_form : Option ServiceType → Bool → Option ℕ → DurationForm
open_form service_type allow duration =
    let f : DurationForm = record {
      service_type = service_type;
      allow_service_type_select = allow;
      selected_service_type = get_or service_type hotspot;
      duration_preset = some 1440;
      duration_minutes = get_or duration 1440;
    } in
    if is_pppoe f then record f { duration_preset = some 43200; duration_minutes = 43200 } else f

-- The effect on `isPppoe`, which runs when its value has changed.
unfoldable pub after_change : Bool → DurationForm → DurationForm
after_change was_pppoe f =
    if was_pppoe
    then f
    else if is_pppoe f
    then record f { duration_preset = some 43200; duration_minutes = 43200 }
    else f

-- The two buttons, which are there if the type can be selected.
unfoldable pub select_service_type : ServiceType → DurationForm → DurationForm
unfolding after_change
select_service_type s f =
    if f.allow_service_type_select
    then after_change (is_pppoe f) (record f { selected_service_type = s })
    else f

-- A choice of the list, which a fiber package does not show: a preset, or none for 'Custom'.
unfoldable pub select_duration : Option ℕ → DurationForm → DurationForm
select_duration none f = if is_pppoe f then f else record f { duration_preset = none }
select_duration (some minutes) f =
    if is_pppoe f
    then f
    else if any (λ m. m == minutes) hotspot_duration_presets
    then record f { duration_preset = some minutes; duration_minutes = minutes }
    else f

-- The field for a custom duration, which is there after 'Custom'.
unfoldable pub type_duration : ℕ → DurationForm → DurationForm
type_duration minutes f =
    if is_pppoe f
    then f
    else elim f.duration_preset [ some m ↦ f | none ↦ record f { duration_minutes = minutes } ]

pub data Input : Type 0 where
  service : ServiceType → Input
  preset : Option ℕ → Input
  typed : ℕ → Input

unfoldable pub input : DurationForm → Input → DurationForm
unfolding select_service_type select_duration type_duration
input f (service s) = select_service_type s f
input f (preset m) = select_duration m f
input f (typed n) = type_duration n f

unfoldable pub input_all : DurationForm → List Input → DurationForm
unfolding input
input_all f [] = f
input_all f (i ∷ is) = input_all (input f i) is
