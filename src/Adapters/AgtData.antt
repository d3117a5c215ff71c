-- ===== src/Adapters/AgtData.antt =====
-- agentrust_telemetry/adapters/agt_data.py: AGT's data labels as classifications, and its data
-- access decisions as data flows.
pub mod Access
use agentrust_telemetry.Base.{
  ℕ, suc, any, ◌||◌, Bool, true, false, not, String, Option, none, some, List, [], ◌∷◌, str_eq,
  if◌then◌else◌,
}
use agentrust_telemetry.Base.Integer.{ℤ, pos}
use agentrust_telemetry.Base.Outcome.{
  Result, ok, err, ◌>>=◌, ◌>>◌, raise_if, type_error, value_error,
}
use agentrust_telemetry.Value.{Value, int, float, bool, str}
use agentrust_telemetry.Value.Equality.{eq_value}
use agentrust_telemetry.Value.Access.{is_some}
use agentrust_telemetry.Factory.{EventFactory}
use agentrust_telemetry.Factory.Extra.{Extra}
use agentrust_telemetry.DataFlow.{
  ClassificationResult, classification_result, DataEndpoint, FlowArguments, classified_data_flow,
}
use agentrust_telemetry.Adapters.Source.{
  Attribute, plain, Source, field_of, enum_value, required_string, datetime_ns,
}

-- `_LEVELS`, in order
abbrev pub levels : List String
levels = "public" ∷ "internal" ∷ "confidential" ∷ "restricted" ∷ "top_secret" ∷ []

-- the level whose number the value is
unfoldable pub level_from : ℕ → List String → Value → Option String
level_from n [] v = none
level_from n (level ∷ rest) v =
    let others = level_from (suc n) rest v in
    if eq_value v (int (pos n)) then some level else others

-- `isinstance(raw, bool) or not isinstance(raw, (int, float)) or raw not in _LEVELS` raises
unfoldable pub level_of : Attribute → Option String
unfolding level_from
level_of (plain (int n)) = level_from 0 levels (int n)
level_of (plain (float x)) = level_from 0 levels (float x)
level_of a = none

-- The label, an object or a dictionary with its own fields, or None, which has none.
unfoldable pub agt_data_classification : Source → Result ClassificationResult
unfolding level_of
agt_data_classification label = elim (level_of (enum_value (field_of label "classification"))) [
  | none ↦ err (value_error "unsupported AGT data classification")
  | some level ↦ classification_result "agt.data_classification.v1" level "agt.data_label"
]

-- a decision, with the fields of its label
pub record AccessDecision : Type 0 where
  pub own : Source
  pub data_label : Source

-- the keyword arguments of `agt_data_access_flow`, null for None
pub record AccessArguments : Type 0 where
  pub run_id : String
  pub direction : String
  pub source : DataEndpoint
  pub destination : DataEndpoint
  pub purpose : String
  pub content_digest : Value
  pub size_bytes : Value
  pub token_count : Value
  pub media_type : Value
  pub transformation : Value

-- isinstance(allowed, bool)
unfoldable pub boolean : Attribute → Result Bool
boolean (plain (bool b)) = ok b
boolean a = err (value_error "AGT data access allowed must be a boolean")

-- what the decision adds to the arguments of the flow
abbrev pub flow_arguments : AccessArguments → String → Bool → FlowArguments
flow_arguments p agent_id allowed = record {
  run_id = p.run_id;
  agent_id = agent_id;
  direction = p.direction;
  source = p.source;
  destination = p.destination;
  purpose = p.purpose;
  policy_decision = if allowed then "allow" else "deny";
  content_digest = p.content_digest;
  size_bytes = p.size_bytes;
  token_count = p.token_count;
  media_type = p.media_type;
  transformation = p.transformation;
}

-- what the call of `classified_data_flow` gives besides the envelope
abbrev pub flow_names : List String
flow_names =
    "factory" ∷ "classifier" ∷ "value" ∷ "run_id" ∷ "agent_id" ∷ "direction" ∷ "source"
    ∷ "destination" ∷ "purpose" ∷ "policy_decision" ∷ "content_digest" ∷ "size_bytes"
    ∷ "token_count" ∷ "media_type" ∷ "transformation" ∷ []

unfoldable pub is_repeated : Extra → Bool
is_repeated x = is_some x.time_unix_nano || any (λ (k, v). any (str_eq k) flow_names) x.others

-- `FixedClassifier`
abbrev pub fixed : ClassificationResult → Unit {0} → Result (Option ClassificationResult)
fixed result value = ok (some result)

module _ (f : EventFactory) where
  unfoldable pub agt_data_access_flow :
      AccessDecision → AccessArguments → Extra → ℤ → String → Result Value
  unfolding agt_data_classification
  agt_data_access_flow decision p x now fresh = do
    allowed ← boolean (field_of decision.own "allowed")
    result ← agt_data_classification decision.data_label
    agent_id ← required_string (field_of decision.own "agent_id")
    time ← datetime_ns (field_of decision.own "evaluated_at")
    raise_if (is_repeated x) (type_error "got multiple values for keyword argument")
    classified_data_flow f (fixed result) tt (flow_arguments p agent_id allowed)
        (record x { time_unix_nano = some (int time) }) now fresh
