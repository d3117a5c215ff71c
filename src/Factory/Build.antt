-- ===== src/Factory/Build.antt =====
-- `EventFactory.build` of adapters/base.py: the envelope of a built event.
use mathlib.Core.Option
use Prim.Native.String
use mathlib.Core.Path.{subst}
use agentrust_telemetry.Base.{
  ℕ, zero, suc, ◌<◌, ◌/◌, ◌≡◌, ◌≢◌, ◌⊎◌, refl, sym, ap, ◌∙◌, inl, inr, Bool, true, false, String,
  Option, none, some, List, [], ◌∷◌, any, length, ltb, Bool-cases, or_split, str_eq, eq_iff, arith,
}
use agentrust_telemetry.Base.Integer.{ℤ}
use agentrust_telemetry.Base.Outcome.{
  ok, >>=-eq-ok, raise_if, raise_if-eq-ok, ok-injective, value_error,
}
use agentrust_telemetry.Value.{Value, int, str, dict, Fields, field, text, lookup}
use agentrust_telemetry.Value.Words.{codes}
use agentrust_telemetry.Value.Access.{get_item, get, or_null}
use agentrust_telemetry.Factory.Optional.{
  with_optional_other, agent_lem, workflow_lem, parent_lem, task_lem, trace_lem, span_lem,
}
use agentrust_telemetry.Factory.{
  EventFactory, Envelope, decimal, is_reserved, is_canonical, canonical_text, integer_text,
  unix_nano, payload_value, payload_fields, with_optional, chosen_id, time_or, required_fields,
  build,
}

different : (k j : String) → is_reserved k ≡ true → is_reserved j ≡ false → str_eq j k ≡ false
different k j r free = elim (Bool-cases (str_eq j k)) [
  | inl e ↦ let same = ap is_reserved ((eq_iff j k).0 e) in cc
  | inr e ↦ e
]

pub other_first :
    (k j : String) (v : Value) (fs : Fields)
    → str_eq j k ≡ false
    → lookup k (field (text j) v fs) ≡ lookup k fs
unfolding lookup
other_first k j v fs h = rw h refl

-- A reserved name is no key of the payload.
lookup-payload_fields :
    (k : String) (ps : List (String × Value)) {fs : Fields}
    → is_reserved k ≡ true
    → any (λ (j, v). is_reserved j) ps ≡ false
    → payload_fields ps ≡ ok fs
    → lookup k fs ≡ none
unfolding payload_fields
lookup-payload_fields k [] r free e = ap (lookup k) (sym (ok-injective e)) ∙ (unfold lookup in refl)
lookup-payload_fields k ((j, v) ∷ ps) r free e =
    let (one, more) = or_split (is_reserved j) (any (λ (j, v). is_reserved j) ps) free in
    let (value, read, e1) = >>=-eq-ok (payload_value j v) _ e in
    let (others, rest, e2) = >>=-eq-ok (payload_fields ps) _ e1 in
    ap (lookup k) (sym (ok-injective e2))
    ∙ other_first k j value others (different k j r one)
    ∙ lookup-payload_fields k ps r more rest

canonical_text-eq-ok :
    (s : String) {t : String}
    → canonical_text s ≡ ok t
    → (is_canonical (codes t) ≡ true) × (ltb 20 (length (codes t)) ≡ false)
unfolding canonical_text
canonical_text-eq-ok s e = ground arith

pub unix_nano-eq-ok :
    (v : Value) {t : String}
    → unix_nano v ≡ ok t
    → (is_canonical (codes t) ≡ true) × (ltb 20 (length (codes t)) ≡ false)
unfolding unix_nano
unix_nano-eq-ok (int n) e = canonical_text-eq-ok (integer_text n) e
unix_nano-eq-ok (str s) e = canonical_text-eq-ok s e
unix_nano-eq-ok v e = cc

-- The text of a time: that of a given number, a given text itself, or the clock's where none is
-- given.
abbrev pub IsTimeText : Option Value → ℤ → String → Type 0
IsTimeText none now t = t ≡ integer_text now
IsTimeText (some (int n)) now t = t ≡ integer_text n
IsTimeText (some (str s)) now t = t ≡ s
IsTimeText (some v) now t = false ≡ true

-- The id of an event: the given one, or the fresh one where none or an empty one is given.
abbrev pub IsChosenId : Option String → String → String → Type 0
IsChosenId none fresh id = id ≡ fresh
IsChosenId (some s) fresh id = ((s ≡ "") × (id ≡ fresh)) ⊎ ((s ≢ "") × (id ≡ s))

chosen_id-IsChosenId :
    (given_id : Option String) (fresh : String)
    → IsChosenId given_id fresh (chosen_id given_id fresh)
unfolding chosen_id
chosen_id-IsChosenId none fresh = refl
chosen_id-IsChosenId (some s) fresh = elim (Bool-cases (str_eq s "")) [
  | inl e ↦ inl ((eq_iff s "").0 e, rw e refl)
  | inr e ↦ inr (λ same. let clash = (eq_iff s "").1 same in cc, rw e refl)
]

-- The envelope of an event, as `build` promises it.
pub record IsBuilt (f : EventFactory) (e : Envelope) (now : ℤ) (fresh : String) (event : Value)
    : Type 0 where
  pub valid : f.validate event ≡ ok tt
  pub typed : get_item event "event_type" ≡ ok (str e.event_type)
  pub of_run : get_item event "run_id" ≡ ok (str e.run_id)
  pub versioned : get_item event "spec_version" ≡ ok (str "0.1.0-alpha.6")
  pub produced : get_item event "producer" ≡ ok (dict f.producer)
  pub id : String
  pub named : get_item event "event_id" ≡ ok (str id)
  pub id_chosen : IsChosenId e.event_id fresh id
  pub time : String
  pub timed : get_item event "time_unix_nano" ≡ ok (str time)
  pub given_time : IsTimeText e.time_unix_nano now time
  pub canonical : is_canonical (codes time) ≡ true
  pub short : ltb 20 (length (codes time)) ≡ false
  pub of_agent : get event "agent_id" ≡ ok (or_null (Option.map str e.agent_id))
  pub of_workflow : get event "workflow_id" ≡ ok (or_null (Option.map str e.workflow_id))
  pub of_parent : get event "parent_agent_id" ≡ ok (or_null (Option.map str e.parent_agent_id))
  pub of_task : get event "task_id" ≡ ok (or_null (Option.map str e.task_id))
  pub of_trace : get event "trace_id" ≡ ok (or_null (Option.map str e.trace_id))
  pub of_span : get event "span_id" ≡ ok (or_null (Option.map str e.span_id))

found_item :
    (k : String) (fs : Fields) {v : Value} → lookup k fs ≡ some v → get_item (dict fs) k ≡ ok v
unfolding get_item
found_item k fs h = rw h refl

found_get :
    (k : String) (fs : Fields) {o : Option Value}
    → lookup k fs ≡ o
    → get (dict fs) k ≡ ok (or_null o)
unfolding get
found_get k fs h = ap (λ o. ok (or_null o)) h

built :
    (f : EventFactory) (e : Envelope) (now : ℤ) (fresh time : String) (payload : Fields)
    → f.validate (dict (with_optional e (required_fields f e fresh time payload))) ≡ ok tt
    → is_canonical (codes time) ≡ true
    → ltb 20 (length (codes time)) ≡ false
    → IsTimeText e.time_unix_nano now time
    → ((k : String) → is_reserved k ≡ true → lookup k payload ≡ none)
    → IsBuilt f e now fresh (dict (with_optional e (required_fields f e fresh time payload)))
unfolding required_fields lookup is_reserved
built f e now fresh time payload valid canonical short given_time free =
    let fs = required_fields f e fresh time payload in
    record {
      valid = valid;
      typed =
          found_item "event_type" _
            (with_optional_other "event_type" e fs refl refl refl refl refl refl);
      of_run =
          found_item "run_id" _ (with_optional_other "run_id" e fs refl refl refl refl refl refl);
      versioned =
          found_item "spec_version" _
            (with_optional_other "spec_version" e fs refl refl refl refl refl refl);
      produced =
          found_item "producer" _
            (with_optional_other "producer" e fs refl refl refl refl refl refl);
      id = chosen_id e.event_id fresh;
      id_chosen = chosen_id-IsChosenId e.event_id fresh;
      named =
          found_item "event_id" _
            (with_optional_other "event_id" e fs refl refl refl refl refl refl);
      time = time;
      timed =
          found_item "time_unix_nano" _
            (with_optional_other "time_unix_nano" e fs refl refl refl refl refl refl);
      given_time = given_time;
      canonical = canonical;
      short = short;
      of_agent = found_get "agent_id" _ (agent_lem e fs (free "agent_id" refl));
      of_workflow = found_get "workflow_id" _ (workflow_lem e fs (free "workflow_id" refl));
      of_parent = found_get "parent_agent_id" _ (parent_lem e fs (free "parent_agent_id" refl));
      of_task = found_get "task_id" _ (task_lem e fs (free "task_id" refl));
      of_trace = found_get "trace_id" _ (trace_lem e fs (free "trace_id" refl));
      of_span = found_get "span_id" _ (span_lem e fs (free "span_id" refl));
    }

canonical_text-same : (s : String) {t : String} → canonical_text s ≡ ok t → t ≡ s
unfolding canonical_text
canonical_text-same s e = ground arith

time_text :
    (given : Option Value) (now : ℤ) {t : String}
    → unix_nano (time_or given now) ≡ ok t
    → IsTimeText given now t
unfolding unix_nano
time_text none now e = canonical_text-same _ e
time_text (some (int n)) now e = canonical_text-same _ e
time_text (some (str s)) now e = canonical_text-same _ e
time_text (some v) now e = cc

-- An event that `build` returns passed the validator. It carries the version of the specification,
-- the producer of the factory, the given type and run, the given id, or the fresh one where none or
-- an empty one is given, the agent, workflow, parent agent, task, trace and span exactly if they are
-- given, and the text of the given time, or of the clock's where none is given, a canonical decimal
-- of at most 20 digits: no payload replaces any of them.
pub build-IsBuilt :
    (f : EventFactory) (e : Envelope) (now : ℤ) (fresh : String) {event : Value}
    → build f e now fresh ≡ ok event
    → IsBuilt f e now fresh event
unfolding build
build-IsBuilt f e now fresh {event} h =
    let (_, free, h1) =
      >>=-eq-ok
        (raise_if (any (λ (k, v). is_reserved k) e.payload)
          (value_error "payload cannot override envelope fields"))
        _ h in
    let (time, timed, h2) = >>=-eq-ok (unix_nano (time_or e.time_unix_nano now)) _ h1 in
    let (payload, read, h3) = >>=-eq-ok (payload_fields e.payload) _ h2 in
    let (_, valid, h4) =
      >>=-eq-ok (f.validate (dict (with_optional e (required_fields f e fresh time payload)))) _
        h3 in
    let (canonical, short) = unix_nano-eq-ok (time_or e.time_unix_nano now) timed in
    subst (IsBuilt f e now fresh) (ok-injective h4) (
      built f e now fresh time payload valid canonical short (time_text e.time_unix_nano now timed)
        (λ k r. lookup-payload_fields k e.payload r (raise_if-eq-ok _ _ free) read))

same_digits :
    (b : Bool) (last first r t : String)
    → (b ≡ false → r ≡ t)
    → (elim b [ true ↦ first | false ↦ String.◌++◌ r last ])
      ≡ (elim b [ true ↦ first | false ↦ String.◌++◌ t last ])
same_digits true last first r t h = refl
same_digits false last first r t h = ap (λ (s : String). String.◌++◌ s last) (h refl)

-- Fuel above the number is enough for its digits.
decimal_fuel : (f g n : ℕ) → n < f → n < g → decimal f n ≡ decimal g n
unfolding decimal
decimal_fuel zero g n p q = absurd (omega arith)
decimal_fuel (suc f) zero n p q = absurd (omega arith)
decimal_fuel (suc f) (suc g) n p q =
    same_digits (ltb n 10) _ _ (decimal f (n / 10)) (decimal g (n / 10))
      (λ t. decimal_fuel f g (n / 10) (ground arith) (ground arith))
