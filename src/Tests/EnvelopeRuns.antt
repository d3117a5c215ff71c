-- ===== src/Tests/EnvelopeRuns.antt =====
-- Runs of adapters/base.py and propagation.py on the samples.
use agentrust_telemetry.Base.{ℕ, ◌≡◌, refl, String, some, none, [], ◌∷◌}
use agentrust_telemetry.Base.Integer.{pos}
use agentrust_telemetry.Base.Outcome.{ok}
use agentrust_telemetry.Value.{Value, str, dict, Fields, record_of, assign, lookup}
use agentrust_telemetry.Value.Access.{get_item}
use agentrust_telemetry.Value.Words.{is_digit}
use agentrust_telemetry.Factory.{
  EventFactory, Envelope, build, is_reserved, unix_nano, integer_text, decimal, is_canonical,
  canonical_text, payload_fields, payload_value, with_optional, given, required_fields, chosen_id,
}
use agentrust_telemetry.Factory.Build.{IsBuilt, build-IsBuilt}
use agentrust_telemetry.Propagation.{
  Propagator, ExtractedContext, event_fields, header, inject_context, extract_context, set_header,
  set_workflow, safe_value, safe_text, has_line_break,
}
use agentrust_telemetry.Propagation.RoundTrip.{extract_context-inject_context, handoff_lem}
use agentrust_telemetry.Tests.{toy_validate}

abbrev factory : EventFactory
factory = record { validate = toy_validate; producer = record_of (("name", str "n") ∷ []) }

abbrev envelope : Envelope
envelope = record {
  event_type = "action.executed";
  run_id = "r1";
  agent_id = some "a1";
  workflow_id = none;
  parent_agent_id = none;
  task_id = none;
  trace_id = none;
  span_id = none;
  event_id = none;
  time_unix_nano = none;
  payload = ("outcome", str "success") ∷ [];
}

abbrev built_event : Value
built_event = dict (
    record_of (
      ("spec_version", str "0.1.0-alpha.6")
      ∷ ("event_id", str "e9")
      ∷ ("event_type", str "action.executed")
      ∷ ("time_unix_nano", str "170")
      ∷ ("run_id", str "r1")
      ∷ ("producer", dict (record_of (("name", str "n") ∷ [])))
      ∷ ("outcome", str "success")
      ∷ ("agent_id", str "a1")
      ∷ []))

built : build factory envelope (pos 170) "e9" ≡ ok built_event
unfolding build is_reserved unix_nano integer_text decimal is_canonical canonical_text
    payload_fields payload_value with_optional given required_fields chosen_id get_item lookup
    assign is_digit
built = refl

build-IsBuilt_example : IsBuilt factory envelope (pos 170) "e9" built_event
build-IsBuilt_example = build-IsBuilt factory envelope (pos 170) "e9" built

-- a propagator that writes one header
abbrev one_header : Propagator ℕ
one_header = record {
  inject = λ carrier. assign "traceparent" (str "00") carrier;
  extract = λ carrier. 0;
}

abbrev old_carrier : Fields
old_carrier = record_of (("x-agentrust-run-id", str "old") ∷ [])

abbrev new_carrier : Fields
new_carrier = record_of (
    ("x-agentrust-run-id", str "r1")
    ∷ ("traceparent", str "00")
    ∷ ("x-agentrust-agent-id", str "a1")
    ∷ ("x-agentrust-workflow-id", str "w1")
    ∷ [])

injected :
    inject_context one_header (str "r1") (str "a1") (some (str "w1")) old_carrier
    ≡ (ok tt, new_carrier)
unfolding inject_context set_header set_workflow safe_value safe_text has_line_break assign
injected = refl

extract_context-inject_context_example :
    (run : String) × (agent : String) × (workflow : String) × (str "r1" ≡ str run)
    × (str "a1" ≡ str agent)
    × (str "w1" ≡ str workflow)
    × (extract_context one_header new_carrier
        ≡ ok (record {
          otel_context = 0;
          run_id = some run;
          workflow_id = some workflow;
          upstream_agent_id = some agent;
        }))
extract_context-inject_context_example =
    extract_context-inject_context one_header (str "r1") (str "a1") (str "w1") old_carrier injected

abbrev remote : ExtractedContext ℕ
remote = record {
  otel_context = 0;
  run_id = some "r1";
  workflow_id = some "w1";
  upstream_agent_id = some "a1";
}

extracted : extract_context one_header new_carrier ≡ ok remote
unfolding extract_context header safe_value safe_text has_line_break lookup
extracted = refl

abbrev received_fields : Fields
received_fields = record_of (
    ("agent_id", str "b1")
    ∷ ("run_id", str "r1")
    ∷ ("workflow_id", str "w1")
    ∷ ("parent_agent_id", str "a1")
    ∷ [])

received : event_fields remote (str "b1") ≡ ok received_fields
unfolding event_fields safe_value safe_text has_line_break assign
received = refl

handoff_lem_example :
    received_fields
    ≡ record_of (
        ("agent_id", str "b1")
        ∷ ("run_id", str "r1")
        ∷ ("workflow_id", str "w1")
        ∷ ("parent_agent_id", str "a1")
        ∷ [])
handoff_lem_example =
    handoff_lem one_header "r1" "a1" "w1" "b1" old_carrier injected extracted received
