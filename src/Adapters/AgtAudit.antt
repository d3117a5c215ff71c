-- ===== src/Adapters/AgtAudit.antt =====
-- agentrust_telemetry/adapters/agt_audit.py: rows of AGT's audit log as policy decisions and
-- actions. `uuid5` stands for the uuid5 of a text in the adapter's namespace.
pub mod Meaning
pub mod Decision
use Prim.Native.String
use agentrust_telemetry.Base.{
  ℕ, ◌+◌, Bool, true, false, not, String, Option, none, some, List, [], ◌∷◌, ◌++◌, any, str_eq,
  if◌then◌else◌,
}
use agentrust_telemetry.Base.Integer.{ℤ, sub_ℕ, pos_part, neg_part, ltb_ℤ}
use agentrust_telemetry.Base.Outcome.{Result, ok, err, ◌>>=◌, ◌>>◌, raise_if, value_error}
use agentrust_telemetry.Value.{Value, null, int, str, list, dict, record_of, cons, nil}
use agentrust_telemetry.Factory.{EventFactory, Envelope, build}
use agentrust_telemetry.Adapters.Source.{
  Attribute, plain, Source, field_of, required_string, optional_string, datetime_ns, mapped, join,
  bare,
}

abbrev pub policy_events : List String
policy_events = "policy_evaluation" ∷ "policy_violation" ∷ []

abbrev pub action_events : List String
action_events = "tool_invocation" ∷ "tool_blocked" ∷ "action" ∷ []

abbrev pub policy_decisions : List (String × String)
policy_decisions =
    ("allow", "allow")
    ∷ ("allowed", "allow")
    ∷ ("deny", "deny")
    ∷ ("denied", "deny")
    ∷ ("require_approval", "challenge")
    ∷ ("requires_approval", "challenge")
    ∷ ("review", "challenge")
    ∷ ("not_applicable", "not_applicable")
    ∷ ("error", "error")
    ∷ []

abbrev pub action_outcomes : List (String × String)
action_outcomes =
    ("success", "success")
    ∷ ("failure", "error")
    ∷ ("error", "error")
    ∷ ("denied", "denied")
    ∷ ("cancelled", "cancelled")
    ∷ ("timeout", "timeout")
    ∷ []

-- `_policy_decision`
unfoldable pub policy_decision : Attribute → Result String
unfolding mapped
policy_decision value =
    mapped (value_error "unsupported AGT audit policy decision") policy_decisions value

-- `_action_outcome`
unfoldable pub action_outcome : Attribute → Result String
unfolding mapped
action_outcome value =
    mapped (value_error "unsupported AGT audit action outcome") action_outcomes value

-- completed_ns - issued_ns
abbrev pub minus : ℤ → ℤ → ℤ
minus a b = sub_ℕ (pos_part a + neg_part b) (neg_part a + pos_part b)

-- `value is None`
abbrev is_none : Attribute → Bool
is_none (plain null) = true
is_none a = false

-- `_audit_duration`
unfoldable pub audit_duration : Source → Result ℤ
audit_duration source = do
  raise_if (is_none (field_of source "issued_at"))
      (value_error "AGT action audit requires duration_ns or both issued_at and completed_at")
  raise_if (is_none (field_of source "completed_at"))
      (value_error "AGT action audit requires duration_ns or both issued_at and completed_at")
  issued_ns ← datetime_ns (field_of source "issued_at")
  completed_ns ← datetime_ns (field_of source "completed_at")
  raise_if (ltb_ℤ completed_ns issued_ns) (value_error "AGT completed_at cannot predate issued_at")
  ok (minus completed_ns issued_ns)

-- the keyword arguments of the two functions
pub record DecisionArguments : Type 0 where
  pub run_id : String
  pub policy_engine_version : String
  pub bundle_digest : Value
  pub resource_type : String
  pub evaluation_duration_ns : Value
  pub enforcement_mode : String

pub record ActionArguments : Type 0 where
  pub run_id : String
  pub action_digest : Value
  pub action_kind : String
  pub operation : String
  pub duration_ns : Option ℤ

-- a field of the policy or the target, where the source's field is not None
unfoldable pub given_text : String → Attribute → Result (List (String × Value))
unfolding optional_string
given_text key a =
    optional_string a >>= λ value. elim value [ none ↦ ok [] | some s ↦ ok ((key, str s) ∷ []) ]

-- `{"target": {"kind": "agent", "id": ...}}`, where there is a target
unfoldable pub target_field : Attribute → Result (List (String × Value))
unfolding optional_string
target_field a = optional_string a >>= λ value. elim value [
  | none ↦ ok []
  | some s ↦ ok (("target", dict (record_of (("kind", str "agent") ∷ ("id", str s) ∷ []))) ∷ [])
]

-- "denied" if event_type == "tool_blocked" else _action_outcome(...)
unfoldable pub outcome_of : String → Source → Result String
outcome_of event_type source =
    if str_eq event_type "tool_blocked"
    then ok "denied"
    else action_outcome (field_of source "outcome")

unfoldable pub duration_of : Option ℤ → Source → Result ℤ
duration_of none source = audit_duration source
duration_of (some n) source = ok n

-- the payloads of the two events
abbrev pub decision_payload :
    DecisionArguments
    → String
    → String
    → String
    → List (String × Value)
    → String
    → String
    → List (String × Value)
decision_payload p event_type decision engine_version policy_id action resource_type =
    ("decision", str decision)
    ∷ (
      "policy",
      dict (
          record_of (
            ("engine", str "agt")
            ∷ ("engine_version", str engine_version)
            ∷ ("bundle_digest", p.bundle_digest)
            ∷ policy_id)),
    )
    ∷ ("action_type", str action)
    ∷ ("resource_type", str resource_type)
    ∷ ("enforcement_mode", str p.enforcement_mode)
    ∷ ("evaluation_duration_ns", p.evaluation_duration_ns)
    ∷ ("reason_codes", list (cons (str (String.◌++◌ "agt.audit:" event_type)) nil))
    ∷ []

abbrev pub action_payload :
    ActionArguments
    → String
    → String
    → String
    → String
    → ℤ
    → List (String × Value)
    → List (String × Value)
action_payload p entry_id action operation outcome duration target =
    ("action_id", str entry_id)
    ∷ ("action_kind", str p.action_kind)
    ∷ ("action_name", str action)
    ∷ ("operation", str operation)
    ∷ ("outcome", str outcome)
    ∷ ("duration_ns", int duration)
    ∷ ("action_digest", p.action_digest)
    ∷ target

-- the envelope of an audit event
abbrev pub audit_envelope :
    String → String → String → String → ℤ → Option String → List (String × Value) → Envelope
audit_envelope event_type run_id agent_id event_id time trace_id payload =
    record (bare event_type run_id agent_id payload) {
      event_id = some event_id;
      time_unix_nano = some (int time);
      trace_id = trace_id;
    }

-- event_type not in events
abbrev pub is_other : String → List String → Bool
is_other event_type events = not (any (str_eq event_type) events)

module _ (f : EventFactory) (uuid5 : String → String) where
  unfoldable pub agt_audit_policy_decision : Source → DecisionArguments → ℤ → String → Result Value
  agt_audit_policy_decision source p now fresh = do
    event_type ← required_string (field_of source "event_type")
    raise_if (is_other event_type policy_events)
        (value_error "AGT audit event is not a policy event")
    decision ← policy_decision (field_of source "policy_decision")
    entry_id ← required_string (field_of source "entry_id")
    engine_version ← required_string (plain (str p.policy_engine_version))
    policy_id ← given_text "policy_id" (field_of source "matched_rule")
    agent_id ← required_string (field_of source "agent_did")
    time ← datetime_ns (field_of source "timestamp")
    trace_id ← optional_string (field_of source "trace_id")
    action ← required_string (field_of source "action")
    resource_type ← required_string (plain (str p.resource_type))
    build f
        (audit_envelope "policy.decision" p.run_id agent_id (uuid5 (join "policy" entry_id)) time
          trace_id
          (decision_payload p event_type decision engine_version policy_id action resource_type))
        now fresh

  unfoldable pub agt_audit_action : Source → ActionArguments → ℤ → String → Result Value
  agt_audit_action source p now fresh = do
    event_type ← required_string (field_of source "event_type")
    raise_if (is_other event_type action_events)
        (value_error "AGT audit event is not an action event")
    entry_id ← required_string (field_of source "entry_id")
    outcome ← outcome_of event_type source
    duration ← duration_of p.duration_ns source
    target ← target_field (field_of source "target_did")
    agent_id ← required_string (field_of source "agent_did")
    time ← datetime_ns (field_of source "timestamp")
    trace_id ← optional_string (field_of source "trace_id")
    action ← required_string (field_of source "action")
    operation ← required_string (plain (str p.operation))
    build f
        (audit_envelope "action.executed" p.run_id agent_id (uuid5 (join "action" entry_id)) time
          trace_id (action_payload p entry_id action operation outcome duration target))
        now fresh
