-- ===== src/Usage/Rollup.antt =====
-- `UsageAccumulator.rollup` of usage.py. `decimal_sum` stands for the float of the sum of the
-- amounts as decimals, which may raise. `add` keeps no event with a token count that is neither an
-- integer nor None, or with a currency or a source that is no text, so that these raise here.
pub mod Order
pub mod Tally
pub mod Totals
use agentrust_telemetry.Base.{
  ℕ, Bool, true, false, not, ◌&&◌, String, Option, none, some, List, [], ◌∷◌, ◌++◌, map, all,
  length, ◌==◌, str_eq, if◌then◌else◌,
}
use agentrust_telemetry.Base.Integer.{ℤ, pos, ◌+ℤ◌}
use agentrust_telemetry.Base.Ordered.{sorted_set}
use agentrust_telemetry.Base.Outcome.{
  Result, ok, err, ◌>>=◌, ◌>>◌, raise_if, traverse, type_error, value_error,
}
use agentrust_telemetry.Value.{Value, int, str, list, dict, record_of, from_items}
use agentrust_telemetry.Value.Equality.{eq_value}
use agentrust_telemetry.Value.Access.{get_item, get, has_key}
use agentrust_telemetry.Trace.Events.{filter_result}
use agentrust_telemetry.Factory.{EventFactory, Envelope, build}
use agentrust_telemetry.Usage.{UsageAccumulator, token_fields}

-- the arguments of `rollup`
pub record RollupArguments : Type 0 where
  pub scope : String
  pub run_id : String
  pub operation : String
  pub agent_id : String
  pub workflow_id : Option String

-- `test and next`
abbrev pub and_then : Bool → Result Bool → Result Bool
and_then false next = ok false
and_then true next = next

unfoldable pub of_agent : RollupArguments → Value → Result Bool
of_agent p event =
    if str_eq p.scope "workflow_run"
    then ok true
    else (get event "agent_id" >>= λ v. ok (eq_value v (str p.agent_id)))

unfoldable pub of_workflow : RollupArguments → Value → Result Bool
of_workflow p event = elim p.workflow_id [
  | none ↦ ok true
  | some w ↦ get event "workflow_id" >>= λ v. ok (eq_value v (str w))
]

-- the condition of `matches`
unfoldable pub is_match : RollupArguments → Value → Result Bool
unfolding of_agent of_workflow
is_match p event = do
  run ← get_item event "run_id"
  and_then (eq_value run (str p.run_id))
      (of_agent p event >>= λ own. and_then own (of_workflow p event))

-- [event[field] for event in matches if field in event]
abbrev pub observe : String → Value → Result (List Value)
observe k event =
    has_key event k >>= λ there. if there then (get_item event k >>= λ v. ok (v ∷ [])) else ok []

unfoldable pub observed : String → List Value → Result (List Value)
observed k [] = ok []
observed k (event ∷ events) = do
  own ← observe k event
  others ← observed k events
  ok (own ++ others)

-- `sum`, from a start
abbrev pub plus : ℤ → Value → Result ℤ
plus n (int m) = ok (n +ℤ m)
plus n v = err (type_error "unsupported operand type for +")

unfoldable pub sum_from : ℤ → List Value → Result ℤ
sum_from n [] = ok n
sum_from n (v ∷ vs) = plus n v >>= λ m. sum_from m vs

-- What one token field comes to: its sum, where some event has it, and the number of events that do.
unfoldable pub roll_field : String → List Value → Result (Option ℤ × ℕ)
unfolding observed sum_from
roll_field k matches = do
  values ← observed k matches
  total ← sum_from (pos 0) values
  ok (elim values [ [] ↦ none | v ∷ vs ↦ some total ], length values)

-- the loop over `TOKEN_FIELDS`
unfoldable pub roll_tokens : List String → List Value → Result (List (String × Option ℤ × ℕ))
unfolding roll_field
roll_tokens [] matches = ok []
roll_tokens (k ∷ ks) matches = do
  (total, count) ← roll_field k matches
  rest ← roll_tokens ks matches
  ok ((k, total, count) ∷ rest)

-- what the loop adds to `payload` and to `coverage`
abbrev pub token_totals : List (String × Option ℤ × ℕ) → List (String × Value)
token_totals [] = []
token_totals ((k, none, count) ∷ rest) = token_totals rest
token_totals ((k, some total, count) ∷ rest) = (k, int total) ∷ token_totals rest

abbrev pub token_coverage : List (String × Option ℤ × ℕ) → List (String × Value)
token_coverage [] = []
token_coverage ((k, total, count) ∷ rest) = (k, int (pos count)) ∷ token_coverage rest

-- a text, as a member of a set of texts
abbrev pub text_of : Value → Result String
text_of (str s) = ok s
text_of v = err (type_error "no text")

unfoldable pub text_at : String → Value → Result String
text_at k v = get_item v k >>= text_of

-- `len(currencies) > 1`
abbrev pub are_mixed : List String → Bool
are_mixed [] = false
are_mixed (c ∷ cs) = not (all (str_eq c) cs)

abbrev pub events_of : UsageAccumulator → List Value
events_of [] = []
events_of ((event_id, event) ∷ events) = event ∷ events_of events

abbrev pub lacks_workflow : RollupArguments → Bool
lacks_workflow p =
    str_eq p.scope "workflow_run" && elim p.workflow_id [ none ↦ true | some w ↦ false ]

module _ (decimal_sum : List Value → Result Value) where
  -- `payload["cost"]`, where there are costs
  unfoldable pub cost_total : List Value → List String → Result (List (String × Value))
  cost_total costs [] = ok []
  cost_total costs (currency ∷ currencies) = do
    amounts ← traverse (λ cost. get_item cost "amount") costs
    amount ← decimal_sum amounts
    ok (
        (
          "cost",
          dict (
              record_of (
                ("amount", amount)
                ∷ ("currency", str currency)
                ∷ ("source", str "aggregate")
                ∷ [])),
        )
        ∷ [])

  -- the payload of a rollup of the events
  unfoldable pub rollup_payload : RollupArguments → List Value → Result (List (String × Value))
  unfolding roll_tokens cost_total text_at observed sorted_set
  rollup_payload p matches = do
    tokens ← roll_tokens token_fields matches
    costs ← observed "cost" matches
    currencies ← traverse (text_at "currency") costs
    raise_if (are_mixed currencies) (value_error "cannot roll up costs with mixed currencies")
    cost ← cost_total costs currencies
    sources ← traverse (text_at "source") costs
    ok (
        (("scope", str p.scope) ∷ ("operation", str p.operation) ∷ [])
        ++ token_totals tokens
        ++ cost
        ++ (
          "aggregation",
          dict (
              record_of (
                ("method", str "sum")
                ∷ ("event_count", int (pos (length matches)))
                ∷ ("token_coverage", dict (record_of (token_coverage tokens)))
                ∷ ("cost_coverage", int (pos (length costs)))
                ∷ ("cost_sources", list (from_items (map str (sorted_set sources))))
                ∷ [])),
        )
          ∷ [])

  unfoldable pub rollup :
      EventFactory → UsageAccumulator → RollupArguments → ℤ → String → Result Value
  unfolding is_match rollup_payload
  rollup f events p now fresh = do
    raise_if (lacks_workflow p) (value_error "workflow_id is required for workflow_run rollups")
    matches ← filter_result (is_match p) (events_of events)
    raise_if (length matches == 0) (value_error "no matching model_call usage events")
    payload ← rollup_payload p matches
    build f
        (record {
          event_type = "usage.recorded";
          run_id = p.run_id;
          agent_id = some p.agent_id;
          workflow_id = p.workflow_id;
          parent_agent_id = none;
          task_id = none;
          trace_id = none;
          span_id = none;
          event_id = none;
          time_unix_nano = none;
          payload = payload;
        })
        now fresh
