-- ===== src/Conformance.antt =====
-- conformance/runner/validate.py: what the conformance runner reports for a record and for a run.
-- It is given decoded JSON; the schemas and the messages of the JSON Schema library are the ones of
-- `Validation.Schemas`.
pub mod Agreement
use agentrust_telemetry.Base.{
  ℕ, suc, Bool, true, false, not, String, Option, none, some, List, [], ◌∷◌, ◌++◌, map, any, str_eq,
  if◌then◌else◌,
}
use agentrust_telemetry.Base.Outcome.{
  Result, ok, err, ◌>>=◌, ◌>>◌, raise_if, value_error, attribute_error, external_error,
}
use agentrust_telemetry.Value.{
  text, foreign, Value, null, str, list, dict, Items, nil, cons, Fields, end, field, lookup,
}
use agentrust_telemetry.Value.Words.{codes, lower, eq_codes, has_prefix}
use agentrust_telemetry.Value.Access.{check_hashable, or_null}
use agentrust_telemetry.Value.Equality.{eq_value}
use agentrust_telemetry.Validation.{JsonPath, at_key, at_index, Schemas, event_type_text}

-- `EVENT_SCHEMAS` and `PROHIBITED_METADATA_KEYS`
abbrev pub event_schemas : List (String × String)
event_schemas =
    ("action.executed", "action.schema.json")
    ∷ ("policy.decision", "policy-decision.schema.json")
    ∷ ("usage.recorded", "usage.schema.json")
    ∷ ("data_flow.observed", "data-flow.schema.json")
    ∷ []

abbrev pub prohibited_metadata_keys : List String
prohibited_metadata_keys =
    "prompt" ∷ "completion" ∷ "source_code" ∷ "tool_arguments" ∷ "tool_result" ∷ "authorization"
    ∷ "credential" ∷ "secret" ∷ "access_token" ∷ "refresh_token" ∷ []

unfoldable pub schema_file : String → List (String × String) → Result String
schema_file event_type [] =
    if has_prefix (codes "approval.") (codes event_type)
    then ok "approval.schema.json"
    else if has_prefix (codes "evidence.") (codes event_type)
    then ok "evidence.schema.json"
    else err (value_error "unsupported event_type")
schema_file event_type ((known, name) ∷ rest) =
    let others = schema_file event_type rest in if str_eq known event_type then ok name else others

-- `schema_name`
unfoldable pub schema_name : String → Result String
unfolding schema_file
schema_name event_type = schema_file event_type event_schemas

-- key.lower() in PROHIBITED_METADATA_KEYS
unfoldable pub is_prohibited : String → Bool
is_prohibited key = any (λ p. eq_codes (lower (codes key)) (codes p)) prohibited_metadata_keys

-- `prohibited_paths`
unfoldable mutual
  unfolding is_prohibited

  pub prohibited_paths : Value → JsonPath → Result (List JsonPath)
  prohibited_paths (dict fs) prefix = prohibited_fields fs prefix
  prohibited_paths (list vs) prefix = prohibited_items vs 0 prefix
  prohibited_paths v prefix = ok []

  pub prohibited_fields : Fields → JsonPath → Result (List JsonPath)
  prohibited_fields end prefix = ok []
  prohibited_fields (field (foreign t) v fs) prefix = err (attribute_error "lower")
  prohibited_fields (field (text k) v fs) prefix =
      prohibited_paths v (at_key k ∷ prefix) >>= λ inner. prohibited_fields fs prefix >>= λ others.
      ok ((if is_prohibited k then (at_key k ∷ prefix) ∷ inner else inner) ++ others)

  pub prohibited_items : Items → ℕ → JsonPath → Result (List JsonPath)
  prohibited_items nil index prefix = ok []
  prohibited_items (cons v vs) index prefix =
      prohibited_paths v (at_index index ∷ prefix) >>= λ inner.
      prohibited_items vs (suc index) prefix >>= λ others. ok (inner ++ others)

-- an entry of the list of errors
pub data RecordError : Type 0 where
  unsupported : RecordError
  invalid : String → RecordError
  prohibited : JsonPath → RecordError
  not_an_object : RecordError

-- `load_validator` of a schema that is not there raises, with an error that is no ValueError.
unfoldable pub record_errors : Schemas → Fields → Result String → Result (List RecordError)
unfolding prohibited_paths
record_errors s fs (err e) = ok (unsupported ∷ [])
record_errors s fs (ok name) = do
  raise_if (not (s.is_loaded name)) (external_error "FileNotFoundError")
  paths ← prohibited_paths (dict fs) []
  ok (map invalid (s.iter_errors name (dict fs)) ++ map prohibited paths)

-- `validate_record`
unfoldable pub validate_record : Schemas → Fields → Result (List RecordError)
unfolding record_errors schema_name
validate_record s fs = record_errors s fs (schema_name (event_type_text s fs))

-- `validate_fixture`, once the file is decoded
unfoldable pub validate_fixture : Schemas → Value → Result (List RecordError)
unfolding validate_record
validate_fixture s (dict fs) = validate_record s fs
validate_fixture s v = ok (not_an_object ∷ [])

abbrev pub appraisal_statuses : List String
appraisal_statuses = "affirming" ∷ "warning" ∷ "contraindicated" ∷ "none" ∷ []

-- an entry of the list of errors of a case
pub data CaseError : Type 0 where
  not_a_case : CaseError
  bad_expectation : CaseError
  in_event : ℕ → RecordError → CaseError

-- the loop over the events
unfoldable pub case_events : Schemas → ℕ → Items → Result (List CaseError)
unfolding validate_fixture
case_events s index nil = ok []
case_events s index (cons event events) = do
  own ← validate_fixture s event
  others ← case_events s (suc index) events
  ok (map (in_event index) own ++ others)

unfoldable pub expectation_errors : Value → Result (List CaseError)
expectation_errors v = do
  status ← check_hashable v
  ok (if any (λ s. eq_value status (str s)) appraisal_statuses then [] else bad_expectation ∷ [])

-- `validate_appraisal_case`, once the file is decoded
unfoldable pub validate_appraisal_case : Schemas → Value → Result (List CaseError)
unfolding case_events expectation_errors
validate_appraisal_case s (dict fs) = elim (lookup "events" fs) [
  | some (list events) ↦ do
    expectation ← expectation_errors (or_null (lookup "expected_appraisal" fs))
    others ← case_events s 0 events
    ok (expectation ++ others)
  | _ ↦ ok (not_a_case ∷ [])
]
validate_appraisal_case s v = ok (not_a_case ∷ [])
