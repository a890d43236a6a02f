-- ===== src/Examples/Texts.antt =====
-- A faithful codec of the onboarding state: every text is written with a dot before each of its
-- characters and a mark after the last one.
use Prim.Native.Char.{Char, code}
use frixel_connect.Base.{
  ◌≡◌, refl, ap, Bool, true, false, String, List, [], ◌∷◌, Option, none, some, if◌then◌else◌, ◌==◌,
  ◌===◌, is_empty, of_not_empty,
}
use frixel_connect.Onboarding.{
  ServiceType, hotspot, pppoe, OnboardingStep, packages, router, complete, OnboardingState, Codec,
  service_text,
}
use frixel_connect.Onboarding.Progress.{IsFaithful}

abbrev pub write : String → String → String
write String.[] t = String.◌∷◌ "!" t
write (String.◌∷◌ c s) t = String.◌∷◌ "." (String.◌∷◌ c (write s t))

abbrev push : Char → List String → List String
push c [] = []
push c (s ∷ ss) = String.◌∷◌ c s ∷ ss

abbrev pub read : String → List String
read String.[] = []
read (String.◌∷◌ a String.[]) = if code a == b'!' then "" ∷ [] else []
read (String.◌∷◌ a (String.◌∷◌ c s)) =
    let one = read (String.◌∷◌ c s) in
    let two = read s in if code a == b'!' then "" ∷ one else push c two

pub read-write : (s t : String) → read (write s t) ≡ s ∷ read t
read-write String.[] String.[] = refl
read-write String.[] (String.◌∷◌ c t) = refl
read-write (String.◌∷◌ c s) t = ap (push c) (read-write s t)

pub write-is_empty : (s t : String) → is_empty (write s t) ≡ false
write-is_empty String.[] t = refl
write-is_empty (String.◌∷◌ c s) t = refl

abbrev flag_text : Bool → String
flag_text true = "1"
flag_text false = "0"

abbrev option_text : Option String → String
option_text none = ""
option_text (some s) = String.◌∷◌ "+" s

abbrev option_of : String → Option String
option_of String.[] = none
option_of (String.◌∷◌ c s) = some s

abbrev step_text : OnboardingStep → String
step_text packages = "packages"
step_text router = "router"
step_text complete = "complete"

abbrev step_of : String → OnboardingStep
step_of s = if s === "packages" then packages else if s === "router" then router else complete

abbrev pub service_of : String → ServiceType
service_of s = if s === "pppoe" then pppoe else hotspot

flag_lem : (b : Bool) → (flag_text b === "1") ≡ b
flag_lem true = refl
flag_lem false = refl

option_lem : (o : Option String) → option_of (option_text o) ≡ o
option_lem none = refl
option_lem (some s) = refl

step_lem : (s : OnboardingStep) → step_of (step_text s) ≡ s
step_lem packages = refl
step_lem router = refl
step_lem complete = refl

pub service_lem : (s : ServiceType) → service_of (service_text s) ≡ s
service_lem hotspot = refl
service_lem pppoe = refl

abbrev build : List String → Option OnboardingState
build (a ∷ b ∷ c ∷ d ∷ e ∷ f ∷ g ∷ h ∷ i ∷ []) = some (record {
  step = step_of a;
  packages_done = b === "1";
  router_done = c === "1";
  router_id = option_of d;
  package_id = option_of e;
  router_name = option_of f;
  package_name = option_of g;
  service_type = service_of h;
  started_at = i;
})
build _ = none

unfoldable pub codec : Codec OnboardingState
codec = record {
  encode = λ st. write (step_text st.step) (
      write (flag_text st.packages_done) (
        write (flag_text st.router_done) (
          write (option_text st.router_id) (
            write (option_text st.package_id) (
              write (option_text st.router_name) (
                write (option_text st.package_name)
                  (write (service_text st.service_type) (write st.started_at ""))))))));
  decode = λ s. build (read s);
}

pub codec-IsFaithful : IsFaithful codec
unfolding codec
codec-IsFaithful = record {
  reads_back = λ st.
      rw
        (
          read-write,
          read-write,
          read-write,
          read-write,
          read-write,
          read-write,
          read-write,
          read-write,
          read-write,
          step_lem st.step,
          flag_lem st.packages_done,
          flag_lem st.router_done,
          option_lem st.router_id,
          option_lem st.package_id,
          option_lem st.router_name,
          option_lem st.package_name,
          service_lem st.service_type,
        )
        refl;
  not_empty = λ st. of_not_empty _ _ refl (write-is_empty _ _);
}
