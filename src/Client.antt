-- ===== src/Client.antt =====
-- agentrust_telemetry/client.py, projection.py and context.py: the emission of an event. The span,
-- the exporters and the evidence sink are external: each acts on a world `W` and may raise.
pub mod Emit
pub mod Delivery
pub mod Projection
use agentrust_telemetry.Base.{
  ℕ, Bool, true, false, not, ◌||◌, ◌&&◌, String, Option, none, some, List, [], ◌∷◌, ◌++◌,
  if◌then◌else◌,
}
use agentrust_telemetry.Base.Integer.{ℤ}
use agentrust_telemetry.Base.Outcome.{
  Exn, Result, ok, err, ◌>>=◌, ◌>>◌, ◌|>◌, raise_if, context_mismatch_error,
}
use agentrust_telemetry.Value.{
  Value, null, bool, int, float, str, dict, Fields, end, text, record_of, assign,
}
use agentrust_telemetry.Value.Equality.{eq_value}
use agentrust_telemetry.Value.Access.{get_item, get, is_null}
use agentrust_telemetry.Value.Number.{to_int}
use agentrust_telemetry.Bytes.{hex, big_endian}

pub record ContextIds : Type 0 where
  pub trace_id : String
  pub span_id : String

-- `span.get_span_context()`: a trace id has 128 bits and a span id 64.
pub record SpanContext : Type 0 where
  pub is_valid : Bool
  pub trace_number : ℕ
  pub span_number : ℕ

pub record SpanLike (W : Type 0) : Type 0 where
  pub get_span_context : SpanContext
  pub add_event : Value → Fields → ℤ → W → Result (Unit {0}) × W

-- `f"{n:032x}"` and `f"{n:016x}"`
unfoldable pub context_ids : SpanContext → ContextIds
context_ids c = record {
  trace_id = hex (big_endian 16 c.trace_number);
  span_id = hex (big_endian 8 c.span_number);
}

unfoldable pub active_context_ids : {W : Type 0} → Option (SpanLike W) → Option ContextIds
active_context_ids none = none
active_context_ids (some span) =
    if span.get_span_context.is_valid then some (context_ids span.get_span_context) else none

abbrev pub direct_attributes : List (String × String)
direct_attributes =
    ("spec_version", "agentrust.telemetry.spec_version")
    ∷ ("event_id", "agentrust.event.id")
    ∷ ("run_id", "agentrust.run.id")
    ∷ ("workflow_id", "agentrust.workflow.id")
    ∷ ("agent_id", "gen_ai.agent.id")
    ∷ ("parent_agent_id", "agentrust.agent.parent.id")
    ∷ ("task_id", "agentrust.task.id")
    ∷ ("decision", "agentrust.policy.decision")
    ∷ ("approval_id", "agentrust.approval.id")
    ∷ ("scope", "agentrust.usage.scope")
    ∷ ("direction", "agentrust.data_flow.direction")
    ∷ ("policy_decision", "agentrust.data_flow.policy_decision")
    ∷ ("capture_profile", "agentrust.evidence.capture_profile")
    ∷ ("completeness", "agentrust.evidence.completeness")
    ∷ ("action_kind", "agentrust.action.kind")
    ∷ ("outcome", "agentrust.action.outcome")
    ∷ []

-- isinstance(value, (str, int, float, bool))
abbrev pub is_scalar : Value → Bool
is_scalar (str s) = true
is_scalar (int n) = true
is_scalar (float x) = true
is_scalar (bool b) = true
is_scalar _ = false

unfoldable pub project : List (String × String) → Value → Fields → Result Fields
project [] event projected = ok projected
project ((source, destination) ∷ table) event projected = get event source >>= λ value.
    project table event (if is_scalar value then assign destination value projected else projected)

unfoldable pub span_attributes : Value → Result Fields
unfolding project
span_attributes event = project direct_attributes event end

unfoldable pub with_context : Option ContextIds → Fields → Fields
with_context none fs = fs
with_context (some c) fs = assign "span_id" (str c.span_id) (assign "trace_id" (str c.trace_id) fs)

unfoldable pub log_record : Value → Option ContextIds → Result Fields
unfolding with_context
log_record event context = do
  event_name ← get_item event "event_type"
  timestamp_ns ← get_item event "time_unix_nano"
  ok (
      with_context context (
        record_of
          (("event_name", event_name) ∷ ("timestamp_ns", timestamp_ns) ∷ ("body", event) ∷ [])))

-- `value not in (None, expected)` raises
unfoldable pub check_context : Value → String → String → Result (Unit {0})
check_context event key expected = get event key >>= λ value.
    raise_if (not (is_null value || eq_value value (str expected))) (context_mismatch_error key)

unfoldable pub correlate : Option ContextIds → Value → Result (Unit {0})
unfolding check_context
correlate none event = ok tt
correlate (some c) event =
    check_context event "trace_id" c.trace_id >> check_context event "span_id" c.span_id

-- An entry of `projection_errors`, with the exception that it formats.
pub data ProjectionError : Type 0 where
  span_projection_failed log_projection_failed metric_projection_failed : Exn → ProjectionError

pub record EmitResult : Type 0 where
  pub accepted : Bool
  pub span_event_emitted : Bool
  pub log_emitted : Bool
  pub context : Option ContextIds
  pub projection_errors : List ProjectionError
  pub evidence_persisted : Bool
  pub metrics_emitted : Bool

-- The fields of a client. `resolver` is `span_resolver or current_span`.
pub record TelemetryClient (W : Type 0) : Type 0 where
  pub validate : Value → Result (Unit {0})
  pub resolver : W → Result (Option (SpanLike W)) × W
  pub log_emitter : Option (Fields → W → Result (Unit {0}) × W)
  pub evidence_sink : Option (Value → W → Result (Unit {0}) × W)
  pub metric_emitter : Option (Value → W → Result Bool × W)

-- what a projection leaves: the flag it sets, the errors it appends and the world
abbrev pub Projected : Type 0 → Type 0
Projected W = Bool × List ProjectionError × W

-- the arguments of `add_event`
unfoldable pub span_event : Value → Result (Value × Fields × ℤ)
span_event event = do
  name ← get_item event "event_type"
  attributes ← span_attributes event
  time ← get_item event "time_unix_nano"
  timestamp ← to_int time
  ok (name, attributes, timestamp)

module _ {W : Type 0} where
  -- `try: flag = call() except Exception as exc: errors.append(...)`
  unfoldable pub caught : (Exn → ProjectionError) → Result Bool × W → Projected W
  caught label (ok flag, w) = (flag, [], w)
  caught label (err e, w) = (false, label e ∷ [], w)

  -- an external call whose arguments may raise
  abbrev pub call : {A B : Type 0} → Result A → (A → W → Result B × W) → W → Result B × W
  call (err e) f w = (err e, w)
  call (ok a) f w = f a w

  abbrev pub emitted : Result (Unit {0}) × W → Result Bool × W
  emitted (ok _, w) = (ok true, w)
  emitted (err e, w) = (err e, w)

  unfoldable pub project_span : Option (SpanLike W) → Option ContextIds → Value → W → Projected W
  unfolding caught
  project_span (some span) (some c) event w = caught span_projection_failed (
      emitted (
        call (span_event event)
          (λ (name, attributes, timestamp). span.add_event name attributes timestamp) w))
  project_span _ _ event w = (false, [], w)

  unfoldable pub project_log :
      Option (Fields → W → Result (Unit {0}) × W) → Option ContextIds → Value → W → Projected W
  unfolding caught
  project_log none context event w = (false, [], w)
  project_log (some emit) context event w =
      caught log_projection_failed (emitted (call (log_record event context) emit w))

  unfoldable pub project_metric : Option (Value → W → Result Bool × W) → Value → W → Projected W
  unfolding caught
  project_metric none event w = (false, [], w)
  project_metric (some emit) event w = caught metric_projection_failed (emit event w)

  -- the projections, once the evidence is accepted
  unfoldable pub project_all :
      TelemetryClient W
      → Option (SpanLike W)
      → Option ContextIds
      → Bool
      → Value
      → W
      → EmitResult × W
  project_all c span context persisted event w =
      let (span_flag, span_errors, w1) = project_span span context event w in
      let (log_flag, log_errors, w2) = project_log c.log_emitter context event w1 in
      let (metric_flag, metric_errors, w3) = project_metric c.metric_emitter event w2 in
      (
        record {
          accepted = true;
          span_event_emitted = span_flag;
          log_emitted = log_flag;
          context = context;
          projection_errors = span_errors ++ (log_errors ++ metric_errors);
          evidence_persisted = persisted;
          metrics_emitted = metric_flag;
        },
        w3,
      )

  unfoldable pub append_evidence :
      Option (Value → W → Result (Unit {0}) × W) → Value → W → Result Bool × W
  append_evidence none event w = (ok false, w)
  append_evidence (some append) event w = emitted (append event w)

  -- `TelemetryClient.emit`
  unfoldable pub emit : TelemetryClient W → Value → W → Result EmitResult × W
  emit c event w =
      ((c.validate event, w) |> λ _ w. c.resolver w |> λ span w.
      let context = active_context_ids span in
      (correlate context event, w) |> λ _ w.
      append_evidence c.evidence_sink event w |> λ persisted w.
      let (r, w') = project_all c span context persisted event w in (ok r, w'))
