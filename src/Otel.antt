-- ===== src/Otel.antt =====
-- agentrust_telemetry/otel.py: events on OpenTelemetry's logs and metrics. The logger and the
-- instruments of the meter are external: each call acts on a world `W` and may raise. `seconds`
-- stands for the division of a duration by 1_000_000_000.
pub mod Attributes
pub mod Bounded
use Prim.Native.String
use agentrust_telemetry.Base.{
  ℕ, Bool, true, false, not, ◌||◌, String, Option, none, some, List, [], ◌∷◌, ◌++◌, any, length,
  ltb, ◌==◌, str_eq, if◌then◌else◌,
}
use agentrust_telemetry.Base.Integer.{ℤ, pos}
use agentrust_telemetry.Base.Outcome.{
  Result, ok, err, ◌>>=◌, ◌>>◌, ◌|>◌, raise_if, value_error, attribute_error,
}
use agentrust_telemetry.Value.{Value, int, str, dict, Fields, record_of, lookup}
use agentrust_telemetry.Value.Equality.{eq_value}
use agentrust_telemetry.Value.Access.{get_item, get, has_key, check_hashable}
use agentrust_telemetry.Value.Number.{to_int}
use agentrust_telemetry.Value.Words.{codes, has_prefix}
use agentrust_telemetry.Client.{span_attributes}
use agentrust_telemetry.Adapters.Source.{strip}

-- the arguments of the logger's `emit`
pub record LogCall : Type 0 where
  pub timestamp : ℤ
  pub event_name : Value
  pub body : Value
  pub attributes : Fields

-- `OTelLogEmitter.emit`, up to the call of the logger
unfoldable pub log_call : Value → Result LogCall
log_call record_value = do
  event ← get_item record_value "body"
  time ← get_item record_value "timestamp_ns"
  timestamp ← to_int time
  name ← get_item record_value "event_name"
  attributes ← span_attributes event
  ok (record { timestamp = timestamp; event_name = name; body = event; attributes = attributes })

-- the instruments that `OTelMetricEmitter.__init__` creates
pub data Instrument : Type 0 where
  policy_count policy_duration approval_count action_count : Instrument
  action_duration data_flow_count token_count cost : Instrument

-- the checks of `OTelMetricEmitter.__init__`; the frozen set is a list
unfoldable pub check_values : List String → Result (Unit {0})
check_values values = do
  raise_if (ltb 64 (length values))
      (value_error "classification_values cannot contain more than 64 entries")
  raise_if (any (λ s. str_eq s "" || ltb 128 (length (codes s))) values)
      (value_error "classification_values must be non-empty and at most 128 characters")
  ok tt

-- `value if value in self._classification_values else "_other"`
unfoldable pub classification_of : List String → Value → Result Value
classification_of values v = check_hashable v >>= λ value.
    ok (if any (λ s. eq_value value (str s)) values then value else str "_other")

-- `event.get(key, default)`
unfoldable pub get_or : Value → Value → String → Result Value
get_or default (dict fs) k = ok (elim (lookup k fs) [ none ↦ default | some v ↦ v ])
get_or default v k = get v k

-- the token fields and their types
abbrev pub token_types : List (String × String)
token_types =
    ("input_tokens", "input")
    ∷ ("output_tokens", "output")
    ∷ ("cache_read_tokens", "cache_read")
    ∷ ("cache_write_tokens", "cache_write")
    ∷ ("reasoning_tokens", "reasoning")
    ∷ []

-- The attributes of the two policy and the two action instruments, by two fields of the event.
unfoldable pub two_fields : String → String → String → String → Value → Result Fields
two_fields name field name' field' event = do
  a ← get_item event field
  b ← get_item event field'
  ok (record_of ((name, a) ∷ (name', b) ∷ []))

unfoldable pub approval_attributes : String → Value → Result Fields
approval_attributes event_type event = do
  actor ← get_item event "actor_type"
  ok (
      record_of (
        ("agentrust.approval.phase", str (strip 9 event_type))
        ∷ ("agentrust.approval.actor_type", actor)
        ∷ []))

unfoldable pub flow_attributes : List String → Value → Result Fields
unfolding classification_of get_or
flow_attributes values event = do
  whole ← get_item event "classification"
  value ← get_item whole "value"
  classification ← classification_of values value
  direction ← get_item event "direction"
  decision ← get_item event "policy_decision"
  transformation ← get_or (str "none") event "transformation"
  ok (
      record_of (
        ("agentrust.data_flow.direction", direction)
        ∷ ("agentrust.data_flow.policy_decision", decision)
        ∷ ("agentrust.data_flow.classification", classification)
        ∷ ("agentrust.data_flow.transformation", transformation)
        ∷ []))

unfoldable pub cost_call : Value → Value → Result (Value × Fields)
cost_call scope event = do
  whole ← get_item event "cost"
  amount ← get_item whole "amount"
  currency ← get_item whole "currency"
  source ← get_item whole "source"
  ok (
    amount,
    record_of (
        ("agentrust.usage.scope", scope)
        ∷ ("agentrust.cost.currency", currency)
        ∷ ("agentrust.cost.source", source)
        ∷ []),
  )

module _ {W : Type 0} (seconds : Value → Result Value)
    (measure : Instrument → Value → Fields → W → Result (Unit {0}) × W) where
  -- a count of one and then a duration, with the same attributes
  unfoldable pub count_and_time :
      Instrument → Instrument → String → Result Fields → Value → W → Result Bool × W
  count_and_time count duration field attributes event w = (attributes, w) |> λ attributes w.
      measure count (int (pos 1)) attributes w |> λ _ w.
      ((get_item event field >>= seconds), w) |> λ time w.
      measure duration time attributes w |> λ _ w. (ok true, w)

  unfoldable pub count_one : Instrument → Result Fields → W → Result Bool × W
  count_one count attributes w = (attributes, w) |> λ attributes w.
      measure count (int (pos 1)) attributes w |> λ _ w. (ok true, w)

  -- `if field in event: self._token_count.add(...)`
  unfoldable pub count_token : Value → Value → String → String → W → Result (Unit {0}) × W
  count_token scope event field token_type w = (has_key event field, w) |> λ there w.
      if there
      then ((get_item event field, w) |> λ tokens w.
          measure token_count tokens
            (record_of
              (("agentrust.usage.scope", scope) ∷ ("gen_ai.token.type", str token_type) ∷ []))
            w)
      else (ok tt, w)

  unfoldable pub count_tokens : List (String × String) → Value → Value → W → Result (Unit {0}) × W
  unfolding count_token
  count_tokens [] scope event w = (ok tt, w)
  count_tokens ((field, token_type) ∷ rest) scope event w =
      count_token scope event field token_type w |> λ _ w. count_tokens rest scope event w

  unfoldable pub add_cost : Value → Value → W → Result (Unit {0}) × W
  add_cost scope event w = (has_key event "cost", w) |> λ there w.
      if there
      then ((cost_call scope event, w) |> λ (amount, attributes) w.
          measure cost amount attributes w)
      else (ok tt, w)

  unfoldable pub count_usage : Value → W → Result Bool × W
  unfolding count_tokens add_cost
  count_usage event w = (get_item event "scope", w) |> λ scope w.
      count_tokens token_types scope event w |> λ _ w. add_cost scope event w |> λ _ w. (ok true, w)

  -- `OTelMetricEmitter.emit` of an event type that is a text
  unfoldable pub emit_kind : List String → String → Value → W → Result Bool × W
  unfolding count_one count_and_time count_usage
  emit_kind values event_type event w =
      let policy =
        count_and_time policy_count policy_duration "evaluation_duration_ns"
          (two_fields "agentrust.policy.decision" "decision" "agentrust.policy.enforcement_mode"
            "enforcement_mode" event)
          event w in
      let approval = count_one approval_count (approval_attributes event_type event) w in
      let action =
        count_and_time action_count action_duration "duration_ns"
          (two_fields "agentrust.action.kind" "action_kind" "agentrust.action.outcome" "outcome"
            event)
          event w in
      let flow = count_one data_flow_count (flow_attributes values event) w in
      let usage = count_usage event w in
      if str_eq event_type "policy.decision"
      then policy
      else if has_prefix (codes "approval.") (codes event_type)
      then approval
      else if str_eq event_type "action.executed"
      then action
      else if str_eq event_type "data_flow.observed"
      then flow
      else if str_eq event_type "usage.recorded"
      then usage
      else (ok false, w)

  unfoldable pub emit_type : List String → Value → Value → W → Result Bool × W
  emit_type values (str event_type) event w = emit_kind values event_type event w
  emit_type values v event w = (err (attribute_error "startswith"), w)

  -- `OTelMetricEmitter.emit`
  unfoldable pub emit_metrics : List String → Value → W → Result Bool × W
  unfolding emit_type
  emit_metrics values event w =
      (get_item event "event_type", w) |> λ event_type w. emit_type values event_type event w
