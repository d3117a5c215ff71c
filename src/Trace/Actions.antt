-- ===== src/Trace/Actions.antt =====
-- `_action_approval_binding` of trace_adapter.py: every executed action that needed an approval is
-- held against the approval that it ran under.
pub mod Laws
use agentrust_telemetry.Base.{
  ℕ, ◌≡◌, Bool, true, false, not, ◌||◌, ◌&&◌, String, Option, none, some, List, [], ◌∷◌, str_eq,
  if◌then◌else◌,
}
use agentrust_telemetry.Base.Integer.{ℤ, leb_ℤ, ltb_ℤ}
use agentrust_telemetry.Base.Outcome.{Result, ok, err, ◌>>=◌, ◌>>◌, type_error, value_error}
use agentrust_telemetry.Value.{Value, str, dict}
use agentrust_telemetry.Value.Equality.{eq_value}
use agentrust_telemetry.Value.Access.{get_item, get, is_null, check_hashable}
use agentrust_telemetry.Value.Number.{to_int}
use agentrust_telemetry.Trace.Events.{of_type, has_type, filter_result, Mapping, find_key}
use agentrust_telemetry.Trace.Approvals.{same_digest, is_bound}

pub data ActionBinding : Type 0 where
  bound unresolved contradicted : ActionBinding

-- event["event_type"] == "action.executed" and event["outcome"] != "denied"
unfoldable pub has_run : Value → Result Bool
has_run event = do
  executed ← has_type "action.executed" event
  if executed
      then (do outcome ← get_item event "outcome"; ok (not (eq_value outcome (str "denied"))))
      else ok false

-- decisions.get(key)
unfoldable pub decision_of : Mapping → Value → Result Value
decision_of decisions key = do k ← check_hashable key; ok (find_key k decisions)

-- approval_id is not None or decisions.get(policy_event_id) == "challenge"
unfoldable pub is_gated : Mapping → Value → Value → Result Bool
is_gated decisions approval_id policy_event_id =
    if is_null approval_id
    then (do
      decision ← decision_of decisions policy_event_id
      ok (eq_value decision (str "challenge")))
    else ok true

-- the condition on the candidates for an action
unfoldable pub is_candidate : Value → Value → Value → Result Bool
is_candidate approval_id policy_event_id approval =
    if is_null approval_id
    then (do named ← get approval "policy_event_id"; ok (eq_value named policy_event_id))
    else (do named ← get_item approval "approval_id"; ok (eq_value named approval_id))

-- policy_event_id is not None and approval_policy is not None and they differ
abbrev pub other_policy : Value → Value → Bool
other_policy approval_policy policy_event_id =
    not (is_null policy_event_id)
    && not (is_null approval_policy)
    && not (eq_value approval_policy policy_event_id)

-- The condition under which a candidate contradicts the action.
unfoldable pub contradicts : Value → Value → ℤ → Value → Result Bool
contradicts action policy_event_id completed_at approval = do
  approval_policy ← get approval "policy_event_id"
  approved_digest ← get_item approval "action_digest"
  action_digest ← get_item action "action_digest"
  if not (same_digest approved_digest action_digest) || other_policy approval_policy policy_event_id
      then ok true
      else (do
        resolved ← get_item approval "time_unix_nano"
        resolved_at ← to_int resolved
        ok (ltb_ℤ completed_at resolved_at))

-- what the loop over the candidates finds
pub record Verdict : Type 0 where
  pub contradicted : Bool
  pub satisfied : Bool

-- `contradicted = True`, or `satisfied = True` for a bound approval
unfoldable pub judge : List Value → Value → Value → ℤ → Value → Verdict → Result Verdict
judge requests action policy_event_id completed_at approval v = do
  against ← contradicts action policy_event_id completed_at approval
  if against then ok (record v { contradicted = true }) else (do
    is_bound_here ← is_bound requests approval
    ok (if is_bound_here then record v { satisfied = true } else v))

unfoldable pub judge_all : List Value → Value → Value → ℤ → List Value → Verdict → Result Verdict
judge_all requests action policy_event_id completed_at [] v = ok v
judge_all requests action policy_event_id completed_at (approval ∷ approvals) v = do
  v' ← judge requests action policy_event_id completed_at approval v
  judge_all requests action policy_event_id completed_at approvals v'

-- one gated action, against the approvals that were approved
unfoldable pub action_verdict : List Value → List Value → Value → Value → Value → Result Verdict
action_verdict requests approved action approval_id policy_event_id = do
  candidates ← filter_result (is_candidate approval_id policy_event_id) approved
  completed ← get_item action "time_unix_nano"
  completed_at ← to_int completed
  judge_all requests action policy_event_id completed_at candidates
      (record { contradicted = false; satisfied = false })

-- an action that ran, with the ids that it names
unfoldable pub ran_binding :
    Mapping → List Value → List Value → Value → Value → Value → Result ActionBinding
ran_binding decisions requests approved action approval_id policy_event_id = do
  gated ← is_gated decisions approval_id policy_event_id
  if gated
      then (do
        v ← action_verdict requests approved action approval_id policy_event_id
        ok (if v.satisfied then bound else if v.contradicted then contradicted else unresolved))
      else ok bound

-- What one event of the run contributes: `bound` goes on to the next with nothing to report.
unfoldable pub action_binding : Mapping → List Value → List Value → Value → Result ActionBinding
action_binding decisions requests approved event = do
  ran ← has_run event
  if ran
      then (do
        approval_id ← get event "approval_id"
        policy_event_id ← get event "policy_event_id"
        ran_binding decisions requests approved event approval_id policy_event_id)
      else ok bound

-- the loop over the events; `result` is what it has found so far
unfoldable pub bind_actions :
    Mapping → List Value → List Value → List Value → ActionBinding → Result ActionBinding
bind_actions decisions requests approved [] result = ok result
bind_actions decisions requests approved (event ∷ events) result = do
  one ← action_binding decisions requests approved event
  elim one [
    | bound ↦ bind_actions decisions requests approved events result
    | unresolved ↦ bind_actions decisions requests approved events unresolved
    | contradicted ↦ ok contradicted
  ]

unfoldable pub action_approval_binding : Mapping → List Value → List Value → Result ActionBinding
action_approval_binding decisions events approvals = do
  approved ← of_type "approval.approved" approvals
  requests ← of_type "approval.requested" approvals
  bind_actions decisions requests approved events bound
