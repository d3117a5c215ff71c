-- ===== src/Tests/ClientRuns.antt =====
-- Runs of client.py and projection.py on the samples: a world counts the calls made.
use agentrust_telemetry.Base.{ℕ, suc, ◌≡◌, ◌↔◌, refl, true, false, some, none, [], ◌∷◌, All}
use agentrust_telemetry.Base.Outcome.{ok, err, evidence_error}
use agentrust_telemetry.Value.{Value, str, Fields, fields, record_of, lookup, assign}
use agentrust_telemetry.Value.Access.{get_item, get}
use agentrust_telemetry.Client.{
  EmitResult, TelemetryClient, emit, append_evidence, active_context_ids, correlate,
  span_attributes,
}
use agentrust_telemetry.Client.Emit.{IsEmitted, IsRefused, emit_lem, emit-IsRefused}
use agentrust_telemetry.Client.Projection.{IsDirect, span_attributes-IsDirect}
use agentrust_telemetry.Tests.{event_fields, toy_validate}

abbrev timed_event : Value
timed_event =
    event_fields "e1" (("event_type", str "action.executed") ∷ ("time_unix_nano", str "5") ∷ [])

-- a client with a log emitter, a sink and no active span
abbrev quiet_client : TelemetryClient ℕ
quiet_client = record {
  validate = toy_validate;
  resolver = λ w. (ok none, w);
  log_emitter = some (λ record_fields w. (ok tt, suc w));
  evidence_sink = some (λ event w. (ok tt, suc w));
  metric_emitter = none;
}

abbrev emitted_log : EmitResult
emitted_log = record {
  accepted = true;
  span_event_emitted = false;
  log_emitted = true;
  context = none;
  projection_errors = [];
  evidence_persisted = true;
  metrics_emitted = false;
}

emit_lem_example :
    (emit quiet_client timed_event 0 ≡ (ok emitted_log, 2))
    ↔ IsEmitted quiet_client timed_event 0 emitted_log 2
emit_lem_example = emit_lem quiet_client timed_event 0 emitted_log 2

-- a client whose evidence sink refuses
abbrev refusing_client : TelemetryClient ℕ
refusing_client = record quiet_client {
  evidence_sink = some (λ event w. (err (evidence_error "evidence run is sealed"), w));
}

refused_emit :
    emit refusing_client timed_event 0 ≡ (err (evidence_error "evidence run is sealed"), 0)
unfolding emit get_item lookup active_context_ids correlate append_evidence
refused_emit = refl

emit-IsRefused_example :
    IsRefused refusing_client timed_event 0 (evidence_error "evidence run is sealed") 0
emit-IsRefused_example =
    emit-IsRefused refusing_client timed_event 0 (evidence_error "evidence run is sealed") 0
      refused_emit

abbrev timed_attributes : Fields
timed_attributes =
    record_of (("agentrust.event.id", str "e1") ∷ ("agentrust.run.id", str "r1") ∷ [])

timed_attributes_of : span_attributes timed_event ≡ ok timed_attributes
unfolding span_attributes get lookup assign
timed_attributes_of = refl

span_attributes-IsDirect_example : All (IsDirect timed_event) (fields timed_attributes)
span_attributes-IsDirect_example =
    span_attributes-IsDirect timed_event timed_attributes timed_attributes_of
