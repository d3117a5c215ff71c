-- ===== src/Tests/AuditRuns.antt =====
-- Runs of adapters/agt_audit.py on the samples.
use agentrust_telemetry.Base.{ℕ, ◌≡◌, ◌≢◌, ◌↔◌, refl, String, none, [], ◌∷◌, Some}
use agentrust_telemetry.Base.Integer.{ℤ, pos, ◌+ℤ◌}
use agentrust_telemetry.Base.Outcome.{ok}
use agentrust_telemetry.Value.{Value, str, int, null, lookup, assign}
use agentrust_telemetry.Value.Access.{get_item}
use agentrust_telemetry.Value.Words.{is_digit, has_prefix}
use agentrust_telemetry.Factory.{
  build, is_reserved, unix_nano, integer_text, decimal, is_canonical, canonical_text,
  payload_fields, payload_value, with_optional, given, required_fields, chosen_id,
}
use agentrust_telemetry.Factory.Payload.{Holds}
use agentrust_telemetry.Adapters.Source.{
  plain, aware, Source, field_or, field_of, required_string, optional_string, datetime_ns, named,
  mapped,
}
use agentrust_telemetry.Adapters.AgtAudit.{
  DecisionArguments, ActionArguments, policy_decision, action_outcome, audit_duration, given_text,
  target_field, outcome_of, duration_of, agt_audit_policy_decision, agt_audit_action,
}
use agentrust_telemetry.Adapters.AgtAudit.Meaning.{
  agt_audit_action-duration, agt_audit_action-success,
}
use agentrust_telemetry.Adapters.AgtAudit.Decision.{agt_audit_policy_decision-allow}
use agentrust_telemetry.Tests.{sample_factory, event_of, object_with}

abbrev prefixed_uuid : String → String
prefixed_uuid s = s

abbrev action_row : Source
action_row = object_with (
    ("event_type", plain (str "tool_invocation"))
    ∷ ("entry_id", plain (str "n1"))
    ∷ ("outcome", plain (str "success"))
    ∷ ("issued_at", aware (pos 1) 0 0)
    ∷ ("completed_at", aware (pos 1) 2 0)
    ∷ ("timestamp", aware (pos 1) 2 0)
    ∷ ("agent_did", plain (str "a1"))
    ∷ ("action", plain (str "read"))
    ∷ [])

abbrev action_arguments : ActionArguments
action_arguments = record {
  run_id = "r1";
  action_digest = null;
  action_kind = "tool";
  operation = "call";
  duration_ns = none;
}

abbrev audited_action : Value
audited_action =
    event_of
      (agt_audit_action sample_factory prefixed_uuid action_row action_arguments (pos 0) "e0")

action_built :
    agt_audit_action sample_factory prefixed_uuid action_row action_arguments (pos 0) "e0"
    ≡ ok audited_action
unfolding agt_audit_action audit_duration target_field outcome_of action_outcome duration_of
    field_or field_of required_string optional_string datetime_ns named mapped ◌+ℤ◌ build
    is_reserved unix_nano integer_text decimal is_canonical canonical_text payload_fields
    payload_value with_optional given required_fields chosen_id get_item lookup assign is_digit
    has_prefix
action_built = refl

agt_audit_action-duration_example :
    (issued : ℤ) × (n : ℕ) × (datetime_ns (field_of action_row "issued_at") ≡ ok issued)
    × (datetime_ns (field_of action_row "completed_at") ≡ ok (issued +ℤ pos n))
    × Holds audited_action "duration_ns" (int (pos n))
agt_audit_action-duration_example =
    agt_audit_action-duration sample_factory prefixed_uuid action_row action_arguments (pos 0) "e0"
      action_built refl

agt_audit_action-success_example : (Holds audited_action "outcome" (str "success")) ↔ (
    (field_of action_row "event_type" ≢ plain (str "tool_blocked"))
    × (field_of action_row "outcome" ≡ plain (str "success")))
agt_audit_action-success_example =
    agt_audit_action-success sample_factory prefixed_uuid action_row action_arguments (pos 0) "e0"
      action_built

abbrev policy_row : Source
policy_row = object_with (
    ("event_type", plain (str "policy_evaluation"))
    ∷ ("entry_id", plain (str "n2"))
    ∷ ("policy_decision", plain (str "allowed"))
    ∷ ("timestamp", aware (pos 1) 2 0)
    ∷ ("agent_did", plain (str "a1"))
    ∷ ("action", plain (str "read"))
    ∷ [])

abbrev decision_arguments : DecisionArguments
decision_arguments = record {
  run_id = "r1";
  policy_engine_version = "1";
  bundle_digest = null;
  resource_type = "file";
  evaluation_duration_ns = int (pos 0);
  enforcement_mode = "enforce";
}

abbrev audited_decision : Value
audited_decision = event_of (
    agt_audit_policy_decision sample_factory prefixed_uuid policy_row decision_arguments (pos 0)
      "e0")

decision_built :
    agt_audit_policy_decision sample_factory prefixed_uuid policy_row decision_arguments
      (pos 0)
      "e0"
    ≡ ok audited_decision
unfolding agt_audit_policy_decision policy_decision given_text field_or field_of required_string
    optional_string datetime_ns named mapped ◌+ℤ◌ build is_reserved unix_nano integer_text decimal
    is_canonical canonical_text payload_fields payload_value with_optional given required_fields
    chosen_id get_item lookup assign is_digit has_prefix
decision_built = refl

agt_audit_policy_decision-allow_example :
    (Holds audited_decision "decision" (str "allow"))
    ↔ Some (λ k. field_of policy_row "policy_decision" ≡ plain (str k)) ("allow" ∷ "allowed" ∷ [])
agt_audit_policy_decision-allow_example =
    agt_audit_policy_decision-allow sample_factory prefixed_uuid policy_row decision_arguments
      (pos 0) "e0" decision_built
