-- ===== src/Tests/BatchRuns.antt =====
-- Runs of adapters/agt.py, otel.py and conformance/runner/validate.py on the samples.
use agentrust_telemetry.Base.{
  ℕ, suc, ◌≡◌, ◌≢◌, ◌↔◌, refl, Bool, true, false, String, none, List, [], ◌∷◌, All,
}
use agentrust_telemetry.Base.Outcome.{Result, ok}
use agentrust_telemetry.Value.{Value, str, list, dict, nil, cons, Fields, record_of}
use agentrust_telemetry.Value.Words.{is_digit, is_upper, is_lower, is_alnum}
use agentrust_telemetry.Client.{EmitResult}
use agentrust_telemetry.Validation.{
  Schemas, validate, is_clean, json_shape_error, unlisted, attributes_of,
}
use agentrust_telemetry.Adapters.Agt.{
  AgtGovernanceEventSink, sink_emit, is_identifier_char, is_identifier, is_code, texts,
  has_duplicate, reason_codes,
}
use agentrust_telemetry.Adapters.Agt.Sink.{IsExported, sink_emit_lem}
use agentrust_telemetry.Adapters.Agt.Codes.{written, IsCodes, reason_codes-IsCodes}
use agentrust_telemetry.Otel.{Instrument, emit_metrics}
use agentrust_telemetry.Otel.Attributes.{IsBounded}
use agentrust_telemetry.Otel.Bounded.{emit_metrics-keeps}
use agentrust_telemetry.Conformance.{validate_record}
use agentrust_telemetry.Conformance.Agreement.{validate-validate_record}
use agentrust_telemetry.Tests.{first_event, second_event}

abbrev accepting : EmitResult
accepting = record {
  accepted = true;
  span_event_emitted = false;
  log_emitted = false;
  context = none;
  projection_errors = [];
  evidence_persisted = false;
  metrics_emitted = false;
}

abbrev batch_sink : AgtGovernanceEventSink ℕ Value Bool
batch_sink = record {
  client = λ event w. (ok accepting, suc w);
  mapper = λ source w. (ok (source ∷ []), w);
  success = true;
  failure = false;
}

apart : true ≢ false
apart e = cc

sink_emit_lem_example :
    (sink_emit batch_sink (first_event ∷ second_event ∷ []) 0 ≡ (true, 2))
    ↔ IsExported batch_sink (first_event ∷ second_event ∷ []) 0 2
sink_emit_lem_example = sink_emit_lem batch_sink apart (first_event ∷ second_event ∷ []) 0 2

codes_read : reason_codes (list (cons (str "a.b") (cons (str "c") nil))) ≡ ok ("a.b" ∷ "c" ∷ [])
unfolding reason_codes is_code is_identifier is_identifier_char is_alnum is_digit is_upper is_lower
    texts has_duplicate
codes_read = refl

reason_codes-IsCodes_example :
    (list (cons (str "a.b") (cons (str "c") nil)) ≡ list (written ("a.b" ∷ "c" ∷ [])))
    × IsCodes ("a.b" ∷ "c" ∷ [])
reason_codes-IsCodes_example =
    reason_codes-IsCodes (list (cons (str "a.b") (cons (str "c") nil))) codes_read

-- the calls that a meter saw, the last first
abbrev Calls : Type 0
Calls = List (Instrument × Fields)

abbrev logged : Instrument → Value → Fields → Calls → Result (Unit {0}) × Calls
logged i amount attributes calls = (ok tt, (i, attributes) ∷ calls)

abbrev configured : List String
configured = "public" ∷ []

abbrev AreBounded : Calls → Type 0
AreBounded calls = All (λ (i, attributes). IsBounded configured i attributes) calls

abbrev flow_event : Value
flow_event = dict (
    record_of (
      ("event_type", str "data_flow.observed")
      ∷ ("classification", dict (record_of (("value", str "secret_project") ∷ [])))
      ∷ ("direction", str "in")
      ∷ ("policy_decision", str "allow")
      ∷ []))

emit_metrics-keeps_example :
    AreBounded ((emit_metrics (λ v. ok v) logged configured flow_event []).1)
emit_metrics-keeps_example =
    emit_metrics-keeps configured (λ v. ok v) logged AreBounded
      (λ i amount attributes w bounded q. (bounded, q)) flow_event [] tt

abbrev plain_schemas : Schemas
plain_schemas = record {
  is_loaded = λ name. true;
  iter_errors = λ name event. [];
  allowed_attribute_keys = [];
  display = λ v. "";
}

abbrev action_fields : Fields
action_fields = record_of (("event_type", str "action.executed") ∷ ("run_id", str "r1") ∷ [])

validate-validate_record_example : (validate plain_schemas (dict action_fields) ≡ ok tt) ↔ (
    (is_clean (json_shape_error (dict action_fields)) ≡ true)
    × (unlisted [] (attributes_of action_fields) ≡ [])
    × (validate_record plain_schemas action_fields ≡ ok []))
validate-validate_record_example = validate-validate_record plain_schemas action_fields
