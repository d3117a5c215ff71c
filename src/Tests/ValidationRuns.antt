-- ===== src/Tests/ValidationRuns.antt =====
-- Runs of validation.py and usage.py on the samples.
use agentrust_telemetry.Base.{◌≡◌, ◌↔◌, refl, true, false, some, [], ◌∷◌}
use agentrust_telemetry.Base.Outcome.{ok}
use agentrust_telemetry.Value.{Value, str, int, list, float, nan, nil, cons, lookup}
use agentrust_telemetry.Value.Access.{get_item, get, has_key}
use agentrust_telemetry.Value.Equality.{eq_value}
use agentrust_telemetry.Base.Integer.{pos}
use agentrust_telemetry.Validation.{Schemas, validate, json_shape_error, is_infinite}
use agentrust_telemetry.Validation.Shape.{well_shaped, verdict, json_shape_error_lem}
use agentrust_telemetry.Validation.Accepts.{IsAccepted, validate_lem}
use agentrust_telemetry.Usage.{
  UsageAccumulator, add, find_event, check_usage, check_tokens, check_cost, event_id_of,
}
use agentrust_telemetry.Usage.Add.{IsValid, Added, add-IsValid, add_twice}
use agentrust_telemetry.Tests.{event_fields, toy_validate}

abbrev action_event : Value
action_event = event_fields "e1" (("event_type", str "action.executed") ∷ ("prompt", str "x") ∷ [])

abbrev all_schemas : Schemas
all_schemas = record {
  is_loaded = λ name. true;
  iter_errors = λ name event. [];
  allowed_attribute_keys = "k" ∷ [];
  display = λ v. "";
}

validate_lem_example :
    (validate all_schemas action_event ≡ ok tt) ↔ IsAccepted all_schemas action_event
validate_lem_example = validate_lem all_schemas action_event

abbrev odd_value : Value
odd_value = list (cons (int (pos 1)) (cons (float nan) nil))

json_shape_error_lem_example : verdict (json_shape_error odd_value) ≡ some false
unfolding well_shaped is_infinite
json_shape_error_lem_example = json_shape_error_lem odd_value

abbrev usage_event : Value
usage_event = event_fields "u1" (
    ("event_type", str "usage.recorded")
    ∷ ("scope", str "model_call")
    ∷ ("input_tokens", int (pos 12))
    ∷ [])

abbrev taken : UsageAccumulator
taken = ("u1", usage_event) ∷ []

first_add : add toy_validate usage_event [] ≡ (ok true, taken)
unfolding add check_usage check_tokens check_cost event_id_of find_event lookup get_item get has_key
    eq_value
first_add = refl

usage_event_same : eq_value usage_event usage_event ≡ true
unfolding eq_value lookup
usage_event_same = refl

add-IsValid_example :
    Added toy_validate usage_event [] (add toy_validate usage_event [])
    × IsValid toy_validate ((add toy_validate usage_event []).1)
add-IsValid_example = add-IsValid toy_validate usage_event [] (tt, tt)

add_twice_example : add toy_validate usage_event taken ≡ (ok false, taken)
add_twice_example = add_twice toy_validate usage_event [] taken first_add usage_event_same
