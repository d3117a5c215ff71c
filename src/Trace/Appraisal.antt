-- ===== src/Trace/Appraisal.antt =====
-- `_appraisal` of trace_adapter.py: what the evidence of a run says of it.
pub mod Laws
pub mod Decisions
use agentrust_telemetry.Base.{
  ℕ, ◌≡◌, Bool, true, false, not, ◌||◌, ◌&&◌, String, Option, none, some, List, [], ◌∷◌, map, any,
  str_eq, if◌then◌else◌,
}
use agentrust_telemetry.Base.Outcome.{Result, ok, err, ◌>>=◌, ◌>>◌, traverse}
use agentrust_telemetry.Value.{Value, str}
use agentrust_telemetry.Value.Equality.{eq_value}
use agentrust_telemetry.Value.Access.{get_item, check_hashable}
use agentrust_telemetry.Trace.Events.{
  of_type, has_type, is_approval, filter_result, Mapping, assign_key, among, to_set, hashed,
}
use agentrust_telemetry.Trace.Approvals.{bound_approvals}
use agentrust_telemetry.Trace.Actions.{
  ActionBinding, bound, unresolved, contradicted, action_approval_binding,
}
use agentrust_telemetry.Trace.Policy.{to_text}

pub data Appraisal : Type 0 where
  contraindicated warning affirming not_appraised : Appraisal

-- the text that the record carries
unfoldable pub appraisal_status : Appraisal → String
appraisal_status contraindicated = "contraindicated"
appraisal_status warning = "warning"
appraisal_status affirming = "affirming"
appraisal_status not_appraised = "none"

-- {event["event_id"]: event["decision"] for event in events if it is a policy decision}
unfoldable pub decisions_from : Mapping → List Value → Result Mapping
decisions_from m [] = ok m
decisions_from m (event ∷ events) = do
  is_decision ← has_type "policy.decision" event
  m' ←
      (if is_decision
        then (do
          id ← get_item event "event_id"
          decision ← get_item event "decision"
          key ← check_hashable id
          ok (assign_key key decision m))
        else ok m)
  decisions_from m' events

abbrev pub among_texts : List String → Value → Bool
among_texts names v = any (λ name. eq_value v (str name)) names

-- whether a set of values meets some texts
abbrev pub meets : List Value → List String → Bool
meets vs names = any (among_texts names) vs

-- {event_id for event_id, decision in decisions.items() if ...} is not empty
abbrev pub some_unresolved : List Value → Mapping → Bool
some_unresolved approved [] = false
some_unresolved approved ((event_id, decision) ∷ m) =
    eq_value decision (str "challenge") && not (among event_id approved)
    || some_unresolved approved m

abbrev pub is_empty {ℓ} : {A : Type ℓ} → List A → Bool
is_empty [] = true
is_empty (x ∷ xs) = false

abbrev pub is_contradicted : ActionBinding → Bool
is_contradicted contradicted = true
is_contradicted _ = false

abbrev pub is_unresolved : ActionBinding → Bool
is_unresolved unresolved = true
is_unresolved _ = false

-- the ladder of the returns
unfoldable pub grade : Mapping → List Value → List Value → ActionBinding → Appraisal
grade decisions types approved_policy_events binding =
    if meets (map (λ (d : Value × Value). d.1) decisions) ("deny" ∷ "error" ∷ [])
      || meets types ("approval.rejected" ∷ "approval.expired" ∷ "approval.execution_failed" ∷ [])
      || is_contradicted binding
    then contraindicated
    else if some_unresolved approved_policy_events decisions
        || meets types ("approval.cancelled" ∷ [])
        || is_unresolved binding
    then warning
    else if not (is_empty decisions) || not (is_empty types)
    then affirming
    else not_appraised

-- str(event["policy_event_id"])
unfoldable pub policy_event_text : (Value → String) → Value → Result Value
policy_event_text display event = do
  id ← get_item event "policy_event_id"
  ok (str (to_text display id))

unfoldable pub appraisal : (Value → String) → List Value → Result Appraisal
appraisal display events = do
  decisions ← decisions_from [] events
  approvals ← filter_result is_approval events
  types ← traverse (hashed (λ event. get_item event "event_type")) approvals
  bound_ones ← bound_approvals approvals
  binding ← action_approval_binding decisions events approvals
  values ← traverse check_hashable (map (λ (d : Value × Value). d.1) decisions)
  approved_policy_events ← traverse (policy_event_text display) bound_ones
  ok (grade decisions types approved_policy_events binding)
