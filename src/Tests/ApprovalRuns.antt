-- ===== src/Tests/ApprovalRuns.antt =====
-- Runs of adapters/agt_approval.py on the samples.
use agentrust_telemetry.Base.{◌≡◌, refl, String, none, [], ◌∷◌, arith}
use agentrust_telemetry.Base.Integer.{pos, ◌+ℤ◌}
use agentrust_telemetry.Base.Outcome.{ok}
use agentrust_telemetry.Value.{Value, str, lookup, assign}
use agentrust_telemetry.Value.Access.{get_item}
use agentrust_telemetry.Value.Words.{is_digit, has_prefix}
use agentrust_telemetry.Factory.{
  build, is_reserved, unix_nano, integer_text, decimal, is_canonical, canonical_text,
  payload_fields, payload_value, with_optional, given, required_fields, chosen_id,
}
use agentrust_telemetry.Adapters.Source.{
  Attribute, plain, member, aware, Source, field_or, field_of, enum_value, required_string,
  datetime_ns, digest, is_digest, digest_value, strip, is_hex,
}
use agentrust_telemetry.Adapters.AgtApproval.{
  Correlation, source_event_id, check_pairs, check_pair, verify_request_binding,
  verify_resolution_binding, outcome_type, optional_evidence, agt_approval_request,
  agt_approval_resolution,
}
use agentrust_telemetry.Adapters.AgtApproval.Answered.{bound_approvals-agt}
use agentrust_telemetry.Trace.Approvals.{bound_approvals}
use agentrust_telemetry.Tests.{sample_factory, event_of, object_with}

abbrev words : String → Attribute
words s = plain (str s)

abbrev action_digest : String
action_digest = "sha256:0123456789abcdef0123456789abcdef0123456789abcdef0123456789abcdef"

abbrev decision_record : Source
decision_record = object_with (
    ("policy_decision_id", words "p1")
    ∷ ("action_digest", words action_digest)
    ∷ ("policy_version", words "v1")
    ∷ ("approval_chain_id", words "c1")
    ∷ ("approval_chain_version", words "1")
    ∷ [])

abbrev asked : Source
asked = object_with (
    ("policy_decision_id", words "p1")
    ∷ ("action_digest", words action_digest)
    ∷ ("policy_version", words "v1")
    ∷ ("approval_chain_id", words "c1")
    ∷ ("approval_chain_version", words "1")
    ∷ ("approval_request_id", words "q1")
    ∷ ("agent_id", words "a1")
    ∷ ("requested_at", aware (pos 1) 0 0)
    ∷ ("expires_at", aware (pos 2) 0 0)
    ∷ [])

abbrev answered : Source
answered = object_with (
    ("approval_request_id", words "q1")
    ∷ ("action_digest", words action_digest)
    ∷ ("policy_version", words "v1")
    ∷ ("approval_chain_version", words "1")
    ∷ ("approval_resolution_id", words "s1")
    ∷ ("outcome", member (str "allow"))
    ∷ ("resolved_at", aware (pos 1) 30 5)
    ∷ [])

abbrev sample_uuid : String → String
sample_uuid s = s

abbrev in_run : Correlation
in_run = record { run_id = "r1"; trace_id = none; span_id = none }

abbrev request_event : Value
request_event =
    event_of
      (agt_approval_request sample_factory sample_uuid asked decision_record in_run (pos 0) "e0")

abbrev approval_event : Value
approval_event =
    event_of (agt_approval_resolution sample_factory sample_uuid answered asked in_run (pos 0) "e0")

request_built :
    agt_approval_request sample_factory sample_uuid asked decision_record in_run (pos 0) "e0"
    ≡ ok request_event
unfolding agt_approval_request verify_request_binding check_pairs check_pair field_of field_or
    enum_value required_string datetime_ns digest is_digest digest_value strip is_hex is_digit
    has_prefix source_event_id build is_reserved unix_nano integer_text decimal is_canonical
    canonical_text payload_fields payload_value with_optional given required_fields chosen_id
    get_item lookup assign ◌+ℤ◌
request_built = refl

approval_built :
    agt_approval_resolution sample_factory sample_uuid answered asked in_run (pos 0) "e0"
    ≡ ok approval_event
unfolding agt_approval_resolution verify_resolution_binding check_pairs check_pair field_of field_or
    enum_value required_string datetime_ns digest is_digest digest_value strip is_hex is_digit
    has_prefix source_event_id build is_reserved unix_nano integer_text decimal is_canonical
    canonical_text payload_fields payload_value with_optional given required_fields chosen_id
    get_item lookup assign outcome_type optional_evidence ◌+ℤ◌
approval_built = refl

allowed : enum_value (field_of answered "outcome") ≡ plain (str "allow")
unfolding enum_value field_of field_or
allowed = refl

resolved : datetime_ns (field_of answered "resolved_at") ≡ ok (pos 86430000005000)
unfolding datetime_ns field_of field_or ◌+ℤ◌
resolved = refl

expires : datetime_ns (field_of asked "expires_at") ≡ ok (pos 172800000000000)
unfolding datetime_ns field_of field_or ◌+ℤ◌
expires = refl

bound_approvals-agt_example :
    bound_approvals (request_event ∷ approval_event ∷ []) ≡ ok (approval_event ∷ [])
bound_approvals-agt_example =
    bound_approvals-agt sample_factory sample_factory sample_uuid asked decision_record answered
      in_run in_run (pos 0) (pos 0) "e0" "e0" (pos 86430000005000) (pos 172800000000000)
      request_built approval_built allowed resolved expires (omega arith)
