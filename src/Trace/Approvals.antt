-- ===== src/Trace/Approvals.antt =====
-- `_same_digest` and `_bound_approvals` of trace_adapter.py: the approvals that a complete,
-- unexpired pair of request and resolution stands behind.
pub mod Laws
use agentrust_telemetry.Base.{
  ℕ, ◌≡◌, Bool, true, false, not, ◌||◌, ◌&&◌, String, Option, none, some, List, [], ◌∷◌, str_eq,
  if◌then◌else◌,
}
use agentrust_telemetry.Base.Integer.{ℤ, leb_ℤ}
use agentrust_telemetry.Base.Outcome.{Result, ok, err, ◌>>=◌, ◌>>◌, type_error, value_error}
use agentrust_telemetry.Value.{Value, str, dict}
use agentrust_telemetry.Value.Equality.{eq_value}
use agentrust_telemetry.Value.Access.{get_item, get, has_key, is_dict, or_null}
use agentrust_telemetry.Value.{lookup}
use agentrust_telemetry.Value.Number.{to_int}
use agentrust_telemetry.Trace.Events.{of_type, has_type, filter_result}

-- `get` on dictionaries, which raises nothing
unfoldable pub same_digest : Value → Value → Bool
same_digest (dict l) (dict r) =
    eq_value (or_null (lookup "algorithm" l)) (or_null (lookup "algorithm" r))
    && eq_value (or_null (lookup "value" l)) (or_null (lookup "value" r))
same_digest _ _ = false

abbrev pub binding_fields : List String
binding_fields =
    "approval_id" ∷ "policy_event_id" ∷ "action_digest" ∷ "chain_id" ∷ "chain_version"
    ∷ "requested_at_unix_nano" ∷ "expires_at_unix_nano" ∷ []

-- field not in approval or field not in request or approval[field] != request[field]
unfoldable pub field_differs : Value → Value → String → Result Bool
field_differs approval request name = do
  in_approval ← has_key approval name
  in_request ← (if in_approval then has_key request name else ok false)
  if in_approval && in_request
      then (do
        left ← get_item approval name
        right ← get_item request name
        ok (not (eq_value left right)))
      else ok true

unfoldable pub some_differs : List String → Value → Value → Result Bool
some_differs [] approval request = ok false
some_differs (name ∷ names) approval request = do
  differs ← field_differs approval request name
  elim differs [ true ↦ ok true | false ↦ some_differs names approval request ]

-- `except (TypeError, ValueError): continue`
unfoldable pub or_continue : Result Bool → Result Bool
or_continue (err (type_error m)) = ok false
or_continue (err (value_error m)) = ok false
or_continue r = r

-- requested_at <= approved_at <= expires_at
unfoldable pub in_window : Value → Value → Result Bool
in_window approval request = do
  requested ← get_item request "requested_at_unix_nano"
  requested_at ← to_int requested
  approved ← get_item approval "time_unix_nano"
  approved_at ← to_int approved
  expires ← get_item request "expires_at_unix_nano"
  expires_at ← to_int expires
  ok (leb_ℤ requested_at approved_at && leb_ℤ approved_at expires_at)

unfoldable pub answers : Value → Value → Result Bool
answers approval request = do
  differs ← some_differs binding_fields approval request
  if differs then ok false else or_continue (in_window approval request)

unfoldable pub some_answered : Value → List Value → Result Bool
some_answered approval [] = ok false
some_answered approval (request ∷ requests) = do
  answered ← answers approval request
  elim answered [ true ↦ ok true | false ↦ some_answered approval requests ]

-- What the loop decides of one approval. It depends on the event alone, so the test
-- `id(approval) in bound_ids` of the caller is this test on the approval.
unfoldable pub is_bound : List Value → Value → Result Bool
is_bound requests approval = do
  approved ← has_type "approval.approved" approval
  elim approved [ true ↦ some_answered approval requests | false ↦ ok false ]

unfoldable pub bound_approvals : List Value → Result (List Value)
bound_approvals approvals = do
  requests ← of_type "approval.requested" approvals
  filter_result (is_bound requests) approvals
