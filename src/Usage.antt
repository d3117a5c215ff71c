-- ===== src/Usage.antt =====
-- agentrust_telemetry/usage.py: which usage events an accumulator takes, and what it keeps.
pub mod Add
pub mod Record
pub mod Rollup
use agentrust_telemetry.Base.{
  ℕ, suc, ◌-◌, ◌^◌, Bool, true, false, not, ◌&&◌, String, Option, none, some, List, [], ◌∷◌, ◌++◌,
  str_eq, leb, if◌then◌else◌,
}
use agentrust_telemetry.Base.Integer.{ℤ, pos, negsuc}
use agentrust_telemetry.Base.Outcome.{
  Result, ok, err, ◌>>=◌, ◌>>◌, raise_if, type_error, value_error, overflow_error,
}
use agentrust_telemetry.Value.{
  Float, nan, infinity, minus_infinity, finite, Value, null, int, float, str,
}
use agentrust_telemetry.Value.Equality.{eq_value}
use agentrust_telemetry.Value.Access.{get_item, get, has_key, is_null, is_plain_int}

abbrev pub token_fields : List String
token_fields =
    "input_tokens" ∷ "output_tokens" ∷ "cache_read_tokens" ∷ "cache_write_tokens"
    ∷ "reasoning_tokens" ∷ []

-- `self._events`, in insertion order; `self._validator` is a parameter of `add`.
abbrev pub UsageAccumulator : Type 0
UsageAccumulator = List (String × Value)

unfoldable pub find_event : String → UsageAccumulator → Option Value
find_event k [] = none
find_event k ((j, event) ∷ events) = if str_eq j k then some event else find_event k events

unfoldable pub check_tokens : List String → Value → Result (Unit {0})
check_tokens [] event = ok tt
check_tokens (k ∷ ks) event = get event k >>= λ value.
    raise_if (not (is_null value) && not (is_plain_int value))
      (type_error "must be a non-negative integer")
    >> check_tokens ks event

magnitude : ℤ → ℕ
magnitude (pos n) = n
magnitude (negsuc n) = suc n

-- `not math.isfinite(amount) or amount < 0` raises; `isfinite` converts an integer to a double,
-- which raises from the middle between the largest double and 2^1024 on.
unfoldable pub check_amount : Value → Result (Unit {0})
unfolding magnitude
check_amount (int n) =
    raise_if (leb (2 ^ 1024 - 2 ^ 970) (magnitude n))
      (overflow_error "int too large to convert to float")
    >> elim n [
      | pos m ↦ ok tt
      | negsuc m ↦ err (value_error "cost amount must be a finite non-negative number")
    ]
check_amount (float (finite (pos m) k)) = ok tt
check_amount (float x) = err (value_error "cost amount must be a finite non-negative number")
check_amount _ = err (type_error "cost amount must be a finite non-negative number")

unfoldable pub check_cost : Value → Result (Unit {0})
unfolding check_amount
check_cost event = has_key event "cost" >>= λ there.
    if there
    then (get_item event "cost" >>= λ cost.
        get_item cost "amount" >>= λ amount. check_amount amount)
    else ok tt

-- `not isinstance(event_id, str) or not event_id` raises
unfoldable pub event_id_of : Value → Result String
event_id_of (str s) =
    if str_eq s "" then err (value_error "usage event must have a non-empty event_id") else ok s
event_id_of _ = err (value_error "usage event must have a non-empty event_id")

-- the checks of `add`, up to the event's id
unfoldable pub check_usage : (Value → Result (Unit {0})) → Value → Result String
check_usage validate event = do
  validate event
  event_type ← get event "event_type"
  raise_if (not (eq_value event_type (str "usage.recorded")))
      (value_error "only usage.recorded events can be accumulated")
  scope ← get event "scope"
  raise_if (not (eq_value scope (str "model_call")))
      (value_error "only model_call leaf events can be accumulated")
  id ← get event "event_id"
  event_id ← event_id_of id
  check_tokens token_fields event
  check_cost event
  ok event_id

-- `if event_id in self._events`, and what follows
unfoldable pub found :
    Value → UsageAccumulator → String → Option Value → Result Bool × UsageAccumulator
found event events event_id none = (ok true, events ++ (event_id, event) ∷ [])
found event events event_id (some known) = (
  if eq_value known event
      then ok false
      else err (value_error "event_id was reused with different usage data"),
  events,
)

unfoldable pub keep : Value → UsageAccumulator → Result String → Result Bool × UsageAccumulator
unfolding found
keep event events (err e) = (err e, events)
keep event events (ok event_id) = found event events event_id (find_event event_id events)

-- `UsageAccumulator.add`
unfoldable pub add :
    (Value → Result (Unit {0})) → Value → UsageAccumulator → Result Bool × UsageAccumulator
unfolding keep
add validate event events = keep event events (check_usage validate event)
