-- ===== src/Adapters/AgtApproval.antt =====
-- agentrust_telemetry/adapters/agt_approval.py: AGT's policy decision records, approval requests
-- and resolutions as events. `uuid5` stands for the uuid5 of a text in the adapter's namespace.
pub mod Binding
pub mod Agreement
pub mod Answered
use Prim.Native.String
use agentrust_telemetry.Base.{
  ℕ, Bool, true, false, not, String, Option, none, some, List, [], ◌∷◌, ◌++◌, str_eq, if◌then◌else◌,
}
use agentrust_telemetry.Base.Integer.{ℤ, ltb_ℤ}
use agentrust_telemetry.Base.Outcome.{Result, ok, err, ◌>>=◌, ◌>>◌, raise_if, value_error}
use agentrust_telemetry.Value.{Value, null, int, str, list, dict, record_of, cons, nil}
use agentrust_telemetry.Factory.{EventFactory, Envelope, build}
use agentrust_telemetry.Adapters.Source.{
  Attribute, plain, member, naive, aware, Source, field_of, enum_value, required_string,
  datetime_ns, digest, join, bare,
}

-- the keyword arguments of a policy record
pub record PolicyArguments : Type 0 where
  pub run_id : String
  pub agent_id : String
  pub action_type : String
  pub resource_type : String
  pub policy_engine_version : String
  pub bundle_digest : Value
  pub evaluation_duration_ns : Value
  pub enforcement_mode : String
  pub trace_id : Option String
  pub span_id : Option String

-- the keyword arguments of the other two
pub record Correlation : Type 0 where
  pub run_id : String
  pub trace_id : Option String
  pub span_id : Option String

-- the attribute is a text, and this one
unfoldable pub is_text : String → Attribute → Bool
is_text t (plain (str s)) = str_eq s t
is_text t a = false

unfoldable pub source_event_id : (String → String) → String → String → String
source_event_id uuid5 kind id = uuid5 (join kind id)

module _ (f : EventFactory) (uuid5 : String → String) where
  unfoldable pub agt_policy_decision_record : Source → PolicyArguments → ℤ → String → Result Value
  agt_policy_decision_record source p now fresh = do
    raise_if (not (is_text "require_approval" (enum_value (field_of source "verdict"))))
        (value_error "verdict must be require_approval")
    source_id ← required_string (field_of source "policy_decision_id")
    decided_at ← datetime_ns (field_of source "decided_at")
    rule_id ← required_string (field_of source "policy_rule_id")
    build f
        (record (bare "policy.decision" p.run_id p.agent_id (
          ("decision", str "challenge")
          ∷ (
            "policy",
            dict (
                record_of (
                  ("engine", str "agt")
                  ∷ ("engine_version", str p.policy_engine_version)
                  ∷ ("policy_id", str rule_id)
                  ∷ ("bundle_digest", p.bundle_digest)
                  ∷ [])),
          )
          ∷ ("action_type", str p.action_type)
          ∷ ("resource_type", str p.resource_type)
          ∷ ("enforcement_mode", str p.enforcement_mode)
          ∷ ("evaluation_duration_ns", p.evaluation_duration_ns)
          ∷ ("reason_codes", list (cons (str "agt.verdict:require_approval") nil))
          ∷ [])) {
            event_id = some (source_event_id uuid5 "policy" source_id);
            time_unix_nano = some (int decided_at);
            trace_id = p.trace_id;
            span_id = p.span_id;
          })
        now fresh

-- left != right, for one pair of fields
unfoldable pub check_pair : Source → Source → String → Result (Unit {0})
check_pair left_source right_source name = do
  left ← required_string (enum_value (field_of left_source name))
  right ← required_string (enum_value (field_of right_source name))
  raise_if (not (str_eq left right)) (value_error "does not match")

-- Every pair of the two functions names the same field on both sides.
unfoldable pub check_pairs : List String → Source → Source → Result (Unit {0})
unfolding check_pair
check_pairs [] left right = ok tt
check_pairs (name ∷ names) left right = check_pair left right name >> check_pairs names left right

abbrev pub request_pairs : List String
request_pairs =
    "policy_decision_id" ∷ "action_digest" ∷ "policy_version" ∷ "approval_chain_id"
    ∷ "approval_chain_version" ∷ []

abbrev pub resolution_pairs : List String
resolution_pairs =
    "approval_request_id" ∷ "action_digest" ∷ "policy_version" ∷ "approval_chain_version" ∷ []

unfoldable pub verify_request_binding : Source → Source → Result (Unit {0})
unfolding check_pairs
verify_request_binding request policy = check_pairs request_pairs request policy

unfoldable pub verify_resolution_binding : Source → Source → Result (Unit {0})
unfolding check_pairs
verify_resolution_binding resolution request = check_pairs resolution_pairs resolution request

-- what both events carry of the request
abbrev pub request_fields : String → String → String → String → List (String × Value)
request_fields approval_id policy_event_id chain_id chain_version =
    ("approval_id", str approval_id)
    ∷ ("policy_event_id", str policy_event_id)
    ∷ ("chain_id", str chain_id)
    ∷ ("chain_version", str chain_version)
    ∷ []

abbrev pub time_fields : ℤ → ℤ → List (String × Value)
time_fields requested_at expires_at =
    ("requested_at_unix_nano", int requested_at) ∷ ("expires_at_unix_nano", int expires_at) ∷ []

-- the texts `approval.approved` and so on, by the outcome
unfoldable pub outcome_type : Attribute → Result (String × String)
outcome_type (plain (str s)) =
    if str_eq s "allow"
    then ok ("approval.approved", s)
    else if str_eq s "deny"
    then ok ("approval.rejected", s)
    else if str_eq s "expired"
    then ok ("approval.expired", s)
    else err (value_error "unsupported AGT approval outcome")
outcome_type a = err (value_error "unsupported AGT approval outcome")

-- `final_digest is not None`
unfoldable pub optional_evidence : Attribute → Result (List (String × Value))
optional_evidence (plain null) = ok []
optional_evidence a = digest a >>= λ d. ok (("approval_evidence_digest", d) ∷ [])

-- the envelope of an approval event
abbrev pub approval_envelope :
    String → Correlation → String → String → ℤ → List (String × Value) → Envelope
approval_envelope event_type c agent_id event_id time payload =
    record (bare event_type c.run_id agent_id payload) {
      event_id = some event_id;
      time_unix_nano = some (int time);
      trace_id = c.trace_id;
      span_id = c.span_id;
    }

abbrev pub request_payload :
    String → String → String → String → Value → ℤ → ℤ → List (String × Value)
request_payload approval_id policy_event_id chain_id chain_version action_digest requested_at
      expires_at =
    request_fields approval_id policy_event_id chain_id chain_version
    ++ (("action_digest", action_digest)
        ∷ ("actor_type", str "policy")
        ∷ (time_fields requested_at expires_at
            ++ ("reason_codes", list (cons (str "agt.approval:requested") nil)) ∷ []))

abbrev pub resolution_payload :
    String
    → String
    → String
    → String
    → Value
    → ℤ
    → ℤ
    → String
    → String
    → List (String × Value)
    → List (String × Value)
resolution_payload approval_id policy_event_id chain_id chain_version action_digest requested_at
      expires_at resolution_id outcome evidence =
    request_fields approval_id policy_event_id chain_id chain_version
    ++ (("resolution_id", str resolution_id)
        ∷ ("action_digest", action_digest)
        ∷ ("actor_type", str "system")
        ∷ (time_fields requested_at expires_at
            ++ (("reason_codes", list (cons (str (String.◌++◌ "agt.outcome:" outcome)) nil))
                ∷ evidence)))

module _ (f : EventFactory) (uuid5 : String → String) where
  unfoldable pub agt_approval_request : Source → Source → Correlation → ℤ → String → Result Value
  agt_approval_request source policy_decision c now fresh = do
    verify_request_binding source policy_decision
    approval_id ← required_string (field_of source "approval_request_id")
    policy_id ← required_string (field_of source "policy_decision_id")
    agent_id ← required_string (field_of source "agent_id")
    requested_at ← datetime_ns (field_of source "requested_at")
    chain_id ← required_string (field_of source "approval_chain_id")
    chain_version ← required_string (field_of source "approval_chain_version")
    action_digest ← digest (field_of source "action_digest")
    expires_at ← datetime_ns (field_of source "expires_at")
    build f
        (approval_envelope "approval.requested" c agent_id
          (source_event_id uuid5 "approval.requested" approval_id) requested_at
          (request_payload approval_id (source_event_id uuid5 "policy" policy_id) chain_id
            chain_version action_digest requested_at expires_at))
        now fresh

  unfoldable pub agt_approval_resolution : Source → Source → Correlation → ℤ → String → Result Value
  agt_approval_resolution resolution request c now fresh = do
    verify_resolution_binding resolution request
    (event_type, outcome) ← outcome_type (enum_value (field_of resolution "outcome"))
    approval_id ← required_string (field_of resolution "approval_request_id")
    resolved_at ← datetime_ns (field_of resolution "resolved_at")
    requested_at ← datetime_ns (field_of request "requested_at")
    raise_if (ltb_ℤ resolved_at requested_at)
        (value_error "AGT approval resolution cannot predate its request")
    evidence ← optional_evidence (field_of resolution "final_entry_digest")
    policy_id ← required_string (field_of request "policy_decision_id")
    resolution_id ← required_string (field_of resolution "approval_resolution_id")
    agent_id ← required_string (field_of request "agent_id")
    chain_id ← required_string (field_of request "approval_chain_id")
    chain_version ← required_string (field_of request "approval_chain_version")
    action_digest ← digest (field_of resolution "action_digest")
    expires_at ← datetime_ns (field_of request "expires_at")
    build f
        (approval_envelope event_type c agent_id
          (source_event_id uuid5 "approval.resolution" resolution_id) resolved_at
          (resolution_payload approval_id (source_event_id uuid5 "policy" policy_id) chain_id
            chain_version action_digest requested_at expires_at resolution_id outcome evidence))
        now fresh
