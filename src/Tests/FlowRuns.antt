-- ===== src/Tests/FlowRuns.antt =====
-- Runs of data_flow.py, adapters/agt_data.py and adapters/cedar.py on the samples.
use agentrust_telemetry.Base.{◌≡◌, refl, false, String, Option, some, none, [], ◌∷◌}
use agentrust_telemetry.Base.Integer.{pos, ◌+ℤ◌}
use agentrust_telemetry.Base.Ordered.{compare_text, insert_text, sorted_set}
use agentrust_telemetry.Base.Outcome.{Result, ok}
use agentrust_telemetry.Value.{Value, str, int, bool, null, lookup, assign}
use agentrust_telemetry.Value.Equality.{eq_value, amount, eq_amount}
use agentrust_telemetry.Value.Words.{
  is_digit, is_upper, is_lower, is_alnum, has_prefix, has_part, lower, lower_code, eq_codes,
}
use agentrust_telemetry.Value.Access.{get_item, check_hashable}
use agentrust_telemetry.Factory.{
  build, is_reserved, unix_nano, integer_text, decimal, is_canonical, canonical_text,
  payload_fields, payload_value, with_optional, given, required_fields, chosen_id,
}
use agentrust_telemetry.Factory.Extra.{is_given_twice, build_with}
use agentrust_telemetry.Usage.Record.{without_null}
use agentrust_telemetry.DataFlow.{
  ClassificationResult, DataEndpoint, FlowArguments, is_name_char, is_name, identifier,
  classification_result, endpoint_value, check_media_type, classified_data_flow,
}
use agentrust_telemetry.DataFlow.Closed.{IsFlow, classified_data_flow-IsFlow}
use agentrust_telemetry.Adapters.Source.{
  plain, aware, field_or, field_of, enum_value, required_string, datetime_ns,
}
use agentrust_telemetry.Adapters.Agt.{is_identifier, is_identifier_char}
use agentrust_telemetry.Adapters.AgtData.{
  AccessDecision, AccessArguments, level_from, level_of, agt_data_classification, boolean,
  is_repeated, agt_data_access_flow,
}
use agentrust_telemetry.Adapters.AgtData.Access.{IsAccess, agt_data_access_flow-IsAccess}
use agentrust_telemetry.Adapters.Cedar.{
  several, all_texts, CedarArguments, identifiers, normalized, only_policy, cedar_policy_decision,
}
use agentrust_telemetry.Adapters.Cedar.Reasons.{IsDecision, cedar_policy_decision-IsDecision}
use agentrust_telemetry.Tests.{sample_factory, event_of, object_with, nothing_more}

abbrev endpoint : String → DataEndpoint
endpoint kind = record { kind = kind; id = none }

abbrev flow : FlowArguments
flow = record {
  run_id = "r1";
  agent_id = "a1";
  direction = "in";
  source = endpoint "tool";
  destination = endpoint "model";
  purpose = "support";
  policy_decision = "allow";
  content_digest = null;
  size_bytes = null;
  token_count = null;
  media_type = null;
  transformation = null;
}

-- a classifier that gives every value one class
abbrev one_class : String → Result (Option ClassificationResult)
one_class value = ok (some (record { taxonomy = "t"; value = "public"; producer = "p" }))

abbrev flow_event : Value
flow_event =
    event_of
      (classified_data_flow sample_factory one_class "payload" flow nothing_more (pos 7) "e0")

flow_built :
    classified_data_flow sample_factory one_class "payload" flow nothing_more (pos 7) "e0"
    ≡ ok flow_event
unfolding classified_data_flow identifier is_name is_name_char has_part check_media_type build_with
    is_given_twice endpoint_value without_null build is_reserved unix_nano integer_text decimal
    is_canonical canonical_text payload_fields payload_value with_optional given required_fields
    chosen_id get_item lookup assign is_digit is_upper is_lower is_alnum has_prefix
flow_built = refl

classified_data_flow-IsFlow_example : IsFlow sample_factory one_class "payload" flow flow_event
classified_data_flow-IsFlow_example =
    classified_data_flow-IsFlow sample_factory one_class "payload" flow nothing_more (pos 7) "e0"
      flow_built

abbrev access : AccessDecision
access = record {
  own = object_with (
      ("allowed", plain (bool false))
      ∷ ("agent_id", plain (str "a1"))
      ∷ ("evaluated_at", aware (pos 1) 0 0)
      ∷ []);
  data_label = object_with (("classification", plain (int (pos 2))) ∷ []);
}

abbrev access_arguments : AccessArguments
access_arguments = record {
  run_id = "r1";
  direction = "in";
  source = endpoint "tool";
  destination = endpoint "model";
  purpose = "support";
  content_digest = null;
  size_bytes = null;
  token_count = null;
  media_type = null;
  transformation = null;
}

abbrev access_event : Value
access_event =
    event_of (agt_data_access_flow sample_factory access access_arguments nothing_more (pos 7) "e0")

access_built :
    agt_data_access_flow sample_factory access access_arguments nothing_more (pos 7) "e0"
    ≡ ok access_event
unfolding agt_data_access_flow agt_data_classification level_of level_from boolean is_repeated
    field_or field_of enum_value required_string datetime_ns ◌+ℤ◌ eq_value amount eq_amount
    classification_result classified_data_flow identifier is_name is_name_char has_part
    check_media_type build_with is_given_twice endpoint_value without_null build is_reserved
    unix_nano integer_text decimal is_canonical canonical_text payload_fields payload_value
    with_optional given required_fields chosen_id get_item lookup assign is_digit is_upper is_lower
    is_alnum has_prefix
access_built = refl

agt_data_access_flow-IsAccess_example : IsAccess access access_event
agt_data_access_flow-IsAccess_example =
    agt_data_access_flow-IsAccess sample_factory access access_arguments nothing_more (pos 7) "e0"
      access_built

abbrev answer : CedarArguments
answer = record {
  run_id = "r1";
  agent_id = "a1";
  decision = "Deny";
  cedar_version = "4";
  bundle_digest = null;
  action_type = "read";
  resource_type = "file";
  evaluation_duration_ns = int (pos 9);
  determining_policy_ids = several (str "p2" ∷ str "p1" ∷ str "p2" ∷ []);
  error_codes = several (str "e1" ∷ []);
  enforcement_mode = "enforce";
  input_digest = null;
}

abbrev cedar_event : Value
cedar_event = event_of (cedar_policy_decision sample_factory answer nothing_more (pos 7) "e0")

cedar_built : cedar_policy_decision sample_factory answer nothing_more (pos 7) "e0" ≡ ok cedar_event
unfolding cedar_policy_decision identifiers all_texts check_hashable normalized only_policy
    compare_text insert_text sorted_set lower lower_code eq_codes is_identifier is_identifier_char
    build_with is_given_twice build is_reserved unix_nano integer_text decimal is_canonical
    canonical_text payload_fields payload_value with_optional given required_fields chosen_id
    get_item lookup assign is_digit is_upper is_lower is_alnum has_prefix
cedar_built = refl

cedar_policy_decision-IsDecision_example : IsDecision answer cedar_event
cedar_policy_decision-IsDecision_example =
    cedar_policy_decision-IsDecision sample_factory answer nothing_more (pos 7) "e0" cedar_built
