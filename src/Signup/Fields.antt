-- ===== src/Signup/Fields.antt =====
-- The phone number of the sign-up form, and the errors that the form shows.
use frixel_connect.Base.{
  ◌≡◌, refl, sym, ap, ◌∙◌, true, String, List, [], ◌∷◌, none, some, arith, all_digits, prepend,
  text_take, text_drop, All,
}
use frixel_connect.Phone.{is_kenyan_phone, is_national, format_phone, group_digits}
use frixel_connect.Phone.Notation.{
  accepted, shown, format_phone_local, national-digits, all_digits-take, all_digits-drop,
  prepend-take-drop, drop_3-drop_4,
}
use frixel_connect.Signup.{
  accepts_phone, strip_spaces, SignupForm, register_body, ApiError, ApiFailure, field_of,
  last_segment, field_errors, on_register_failed,
}

strip_spaces_of_digits : (s : String) → all_digits s ≡ true → strip_spaces s ≡ s
unfolding strip_spaces
strip_spaces_of_digits String.[] h = refl
strip_spaces_of_digits (String.◌∷◌ c s) h = ground (arith, strip_spaces_of_digits s)

strip_spaces-prepend :
    (s t : String) → strip_spaces (prepend s t) ≡ prepend (strip_spaces s) (strip_spaces t)
unfolding strip_spaces
strip_spaces-prepend String.[] t = refl
strip_spaces-prepend (String.◌∷◌ c s) t = ground (arith, strip_spaces-prepend s t)

strip_spaces-group_digits : (s : String) → all_digits s ≡ true → strip_spaces (group_digits s) ≡ s
unfolding group_digits strip_spaces
strip_spaces-group_digits s h =
    let a = text_take 4 s in
    let b = text_take 3 (text_drop 4 s) in
    let c = text_drop 7 s in
    rw
      (
        strip_spaces-prepend a (String.◌∷◌ " " (prepend b (String.◌∷◌ " " c))),
        strip_spaces-prepend b (String.◌∷◌ " " c),
        strip_spaces_of_digits a (all_digits-take 4 s h),
        strip_spaces_of_digits b (all_digits-take 3 (text_drop 4 s) (all_digits-drop 4 s h)),
        strip_spaces_of_digits c (all_digits-drop 7 s h),
      )
      (ap (prepend a) (ap (prepend b) (sym (drop_3-drop_4 s)) ∙ prepend-take-drop 3 (text_drop 4 s))
        ∙ prepend-take-drop 4 s)

accepts_phone-strip_spaces : (v : String) → accepts_phone v ≡ is_kenyan_phone (strip_spaces v)
unfolding accepts_phone is_kenyan_phone
accepts_phone-strip_spaces v = ground arith

strip_spaces-shown : (s : String) → is_national s ≡ true → strip_spaces (shown s) ≡ prepend "0" s
unfolding shown
strip_spaces-shown s h = strip_spaces-group_digits (prepend "0" s) (national-digits s h).0

-- The sign-up accepts exactly the texts that the hotspot's pattern accepts once their white space is gone, and what
-- it sends is then such a text. In particular it accepts every number in the form in which the program shows it.
pub accepts_phone_lem :
    (form : SignupForm) (s : String)
    → is_national s ≡ true
    → (accepts_phone form.owner_phone ≡ is_kenyan_phone (register_body form).owner_phone)
      × (accepts_phone (format_phone (prepend "0" s)) ≡ true)
unfolding register_body
accepts_phone_lem form s h = (
  accepts_phone-strip_spaces form.owner_phone,
  accepts_phone-strip_spaces (format_phone (prepend "0" s))
      ∙ ap is_kenyan_phone (ap strip_spaces (format_phone_local s h) ∙ strip_spaces-shown s h)
      ∙ (accepted s h).0,
)

-- An error whose last segment names no field of the form.
abbrev pub IsForeign : ApiError → Type 0
IsForeign e = field_of (last_segment e.loc) ≡ none

no_field : (items : List ApiError) → All IsForeign items → field_errors items ≡ []
unfolding field_errors
no_field [] h = refl
no_field (item ∷ items) (h, hs) = rw (h, field_errors) (no_field items hs)

-- A 422 whose errors all name fields that the form does not map is shown nowhere: the form reports nothing at all, where
-- every failure with another status, or without a list of errors, reports one message.
pub silent_422 :
    (e : ApiFailure) (items : List ApiError)
    → e.status ≡ some 422
    → e.detail ≡ some items
    → All IsForeign items
    → on_register_failed e ≡ []
unfolding on_register_failed
silent_422 e items h k f = ground (arith, no_field items f)
