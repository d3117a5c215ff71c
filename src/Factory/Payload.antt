-- ===== src/Factory/Payload.antt =====
-- `EventFactory.build` of adapters/base.py: where an event holds what it was built from.
use mathlib.Core.Path.{subst}
use agentrust_telemetry.Base.{
  ◌≡◌, refl, sym, ap, ◌∙◌, inl, inr, Bool, true, false, String, Option, none, some, List, [], ◌∷◌,
  any, Bool-cases, str_eq, eq_iff, arith, if◌then◌else◌,
}
use agentrust_telemetry.Base.Integer.{ℤ}
use agentrust_telemetry.Base.Outcome.{ok, ◌>>=◌, >>=-eq-ok, raise_if, ok-injective, value_error}
use agentrust_telemetry.Value.{Value, int, str, dict, Fields, field, text, lookup}
use agentrust_telemetry.Value.Access.{get_item, get, has_key, or_key_error}
use agentrust_telemetry.Factory.{
  EventFactory, Envelope, is_reserved, unix_nano, payload_value, payload_fields, with_optional,
  time_or, required_fields, build,
}
use agentrust_telemetry.Factory.Build.{other_first}
use agentrust_telemetry.Factory.Optional.{with_optional_other}

-- The event is a dictionary with this value under the key.
abbrev pub Holds : Value → String → Value → Type 0
Holds event k v = (fs : Fields) × (event ≡ dict fs) × (lookup k fs ≡ some v)

-- a key has one value
pub Holds-injective :
    (event : Value) (k : String) {v w : Value} → Holds event k v → Holds event k w → v ≡ w
unfolding get_item
Holds-injective event k (fs, e, h) (gs, e', h') =
    ok-injective
      (sym (ap (or_key_error k) h) ∙ ap (λ d. get_item d k) (sym e ∙ e') ∙ ap (or_key_error k) h')

pub Holds-get_item :
    (event : Value) (k : String) {v : Value} → Holds event k v → get_item event k ≡ ok v
unfolding get_item
Holds-get_item event k (fs, e, h) = rw (e, h) refl

pub Holds-get : (event : Value) (k : String) {v : Value} → Holds event k v → get event k ≡ ok v
unfolding get
Holds-get event k (fs, e, h) = rw (e, h) refl

pub Holds-has_key :
    (event : Value) (k : String) {v : Value} → Holds event k v → has_key event k ≡ ok true
unfolding has_key
Holds-has_key event k (fs, e, h) = rw (e, h) refl

-- the value that `build` was given for a key of the payload
unfoldable pub find : String → List (String × Value) → Option Value
find k [] = none
find k ((j, v) ∷ ps) = if str_eq j k then some v else find k ps

unlike : (j k : String) → is_reserved j ≡ true → is_reserved k ≡ false → str_eq j k ≡ false
unlike j k r free = elim (Bool-cases (str_eq j k)) [
  | inl e ↦ let same = ap is_reserved ((eq_iff j k).0 e) in cc
  | inr e ↦ e
]

picked :
    (b : Bool) (o : Option Value) (u v : Value)
    → (if b then some u else o) ≡ some v
    → b ≡ true
    → u ≡ v
picked b o u v h t = ground arith

skipped :
    (b : Bool) (o : Option Value) (u v : Value)
    → (if b then some u else o) ≡ some v
    → b ≡ false
    → o ≡ some v
skipped b o u v h t = ground arith

first_here :
    (k j : String) (v : Value) (fs : Fields)
    → str_eq j k ≡ true
    → lookup k (field (text j) v fs) ≡ some v
unfolding lookup
first_here k j v fs t = rw t refl

lookup-find :
    (k : String) (ps : List (String × Value)) {fs : Fields} {v : Value}
    → find k ps ≡ some v
    → payload_fields ps ≡ ok fs
    → (w : Value) × (payload_value k v ≡ ok w) × (lookup k fs ≡ some w)
unfolding find payload_fields lookup
lookup-find k [] h e = cc
lookup-find k ((j, u) ∷ ps) {fs} {v} h e =
    let (w, read, e1) = >>=-eq-ok (payload_value j u) _ e in
    let (rest, others, e2) = >>=-eq-ok (payload_fields ps) _ e1 in
    elim (Bool-cases (str_eq j k)) [
      | inl t ↦
          let same : j ≡ k = (eq_iff j k).0 t in
          let uv = picked (str_eq j k) (find k ps) u v h t in
          (
            w,
            ap (λ i. payload_value i v) (sym same) ∙ ap (payload_value j) (sym uv) ∙ read,
            ap (lookup k) (sym (ok-injective e2)) ∙ first_here k j w rest t,
          )
      | inr t ↦
          let (x, value, held) =
            lookup-find k ps (skipped (str_eq j k) (find k ps) u v h t) others in
          (x, value, ap (lookup k) (sym (ok-injective e2)) ∙ other_first k j w rest t ∙ held)
    ]

-- The event of a build, written out.
pub build-eq-ok :
    (f : EventFactory) (e : Envelope) (now : ℤ) (fresh : String) {event : Value}
    → build f e now fresh ≡ ok event
    → (time : String) × (payload : Fields) × (unix_nano (time_or e.time_unix_nano now) ≡ ok time)
      × (payload_fields e.payload ≡ ok payload)
      × (event ≡ dict (with_optional e (required_fields f e fresh time payload)))
unfolding build
build-eq-ok f e now fresh h =
    let (_, free, h1) =
      >>=-eq-ok
        (raise_if (any (λ (k, v). is_reserved k) e.payload)
          (value_error "payload cannot override envelope fields"))
        _ h in
    let (time, timed, h2) = >>=-eq-ok (unix_nano (time_or e.time_unix_nano now)) _ h1 in
    let (payload, read, h3) = >>=-eq-ok (payload_fields e.payload) _ h2 in
    let (_, valid, h4) =
      >>=-eq-ok (f.validate (dict (with_optional e (required_fields f e fresh time payload)))) _
        h3 in
    (time, payload, timed, read, sym (ok-injective h4))

lookup-required_other :
    (k : String) (f : EventFactory) (e : Envelope) (fresh time : String) (payload : Fields)
    → is_reserved k ≡ false
    → lookup k (with_optional e (required_fields f e fresh time payload)) ≡ lookup k payload
unfolding required_fields is_reserved
lookup-required_other k f e fresh time payload free =
    with_optional_other k e _ (unlike _ k refl free) (unlike _ k refl free) (unlike _ k refl free)
      (unlike _ k refl free) (unlike _ k refl free) (unlike _ k refl free)
    ∙ other_first k "spec_version" _ _ (unlike "spec_version" k refl free)
    ∙ other_first k "event_id" _ _ (unlike "event_id" k refl free)
    ∙ other_first k "event_type" _ _ (unlike "event_type" k refl free)
    ∙ other_first k "time_unix_nano" _ _ (unlike "time_unix_nano" k refl free)
    ∙ other_first k "run_id" _ _ (unlike "run_id" k refl free)
    ∙ other_first k "producer" _ payload (unlike "producer" k refl free)

module _ (f : EventFactory) (e : Envelope) (now : ℤ) (fresh : String) {event : Value}
    (h : build f e now fresh ≡ ok event) where
  -- A built event holds each value of the payload, a time in its canonical form.
  pub build-Holds :
      (k : String) {v : Value}
      → is_reserved k ≡ false
      → find k e.payload ≡ some v
      → (w : Value) × (payload_value k v ≡ ok w) × Holds event k w
  build-Holds k free there =
      let (time, payload, timed, read, made) = build-eq-ok f e now fresh h in
      let (w, value, held) = lookup-find k e.payload there read in
      (w, value, (_, made, lookup-required_other k f e fresh time payload free ∙ held))

  pub build-Holds-event_type : Holds event "event_type" (str e.event_type)
  unfolding required_fields lookup
  build-Holds-event_type =
      let (time, payload, timed, read, made) = build-eq-ok f e now fresh h in
      (_, made, with_optional_other "event_type" e _ refl refl refl refl refl refl)

  pub build-Holds-time :
      (time : String) × (unix_nano (time_or e.time_unix_nano now) ≡ ok time)
      × Holds event "time_unix_nano" (str time)
  unfolding required_fields lookup
  build-Holds-time =
      let (time, payload, timed, read, made) = build-eq-ok f e now fresh h in
      (
        time,
        timed,
        (_, made, with_optional_other "time_unix_nano" e _ refl refl refl refl refl refl),
      )

  -- a value of the payload that `build` takes over as it is
  pub Holds-plain :
      (k : String) (v : Value)
      → is_reserved k ≡ false
      → find k e.payload ≡ some v
      → payload_value k v ≡ ok v
      → Holds event k v
  Holds-plain k v free there same =
      let (w, value, held) = build-Holds k free there in
      subst (Holds event k) (ok-injective (sym value ∙ same)) held

  -- a time of the payload, which `build` writes out
  pub Holds-time :
      (k : String) (n : ℤ)
      → is_reserved k ≡ false
      → find k e.payload ≡ some (int n)
      → payload_value k (int n) ≡ (unix_nano (int n) >>= λ t. ok (str t))
      → (t : String) × (unix_nano (int n) ≡ ok t) × Holds event k (str t)
  Holds-time k n free there same =
      let (w, value, held) = build-Holds k free there in
      let (t, written, made) = >>=-eq-ok (unix_nano (int n)) _ (sym same ∙ value) in
      (t, written, subst (Holds event k) (sym (ok-injective made)) held)
