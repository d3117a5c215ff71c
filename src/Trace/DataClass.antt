-- ===== src/Trace/DataClass.antt =====
-- `_highest_data_class` of trace_adapter.py: the highest classification among the data flows.
pub mod Laws
use agentrust_telemetry.Base.{
  ℕ, ◌+◌, ◌≡◌, Bool, true, false, not, ◌||◌, String, Option, none, some, List, [], ◌∷◌, ltb, length,
  any, str_eq, if◌then◌else◌,
}
use agentrust_telemetry.Base.Outcome.{
  Result, ok, err, ◌>>=◌, ◌>>◌, raise_if, traverse, key_error, value_error,
  trace_finalization_error,
}
use agentrust_telemetry.Value.{Value, str}
use agentrust_telemetry.Value.Equality.{eq_value}
use agentrust_telemetry.Value.Access.{get_item, check_hashable}
use agentrust_telemetry.Trace.Events.{of_type, to_set}

-- event["classification"][name]
unfoldable pub classified : String → Value → Result Value
classified name event = do
  classification ← get_item event "classification"
  get_item classification name

-- any(taxonomy != config.classification_taxonomy for event in flows)
unfoldable pub some_foreign : String → List Value → Result Bool
some_foreign taxonomy [] = ok false
some_foreign taxonomy (event ∷ events) = do
  found ← classified "taxonomy" event
  elim (eq_value found (str taxonomy)) [ true ↦ some_foreign taxonomy events | false ↦ ok true ]

-- `{value: index for index, value in enumerate(order)}`: a later index replaces an earlier one.
unfoldable pub rank_from : ℕ → List String → String → Option ℕ
rank_from n [] k = none
rank_from n (v ∷ vs) k = elim (rank_from (n + 1) vs k) [
  | some r ↦ some r
  | none ↦ if str_eq v k then some n else none
]

unfoldable pub rank : List String → Value → Option ℕ
rank order (str s) = rank_from 0 order s
rank order _ = none

abbrev pub is_ranked : Option ℕ → Bool
is_ranked none = false
is_ranked (some r) = true

-- rank.__getitem__
unfoldable pub rank_item : List String → Value → Result ℕ
rank_item order v = elim (rank order v) [ none ↦ err (key_error "unranked value") | some r ↦ ok r ]

-- The rounds of `max(values, key=rank.__getitem__)` after the first: the best value so far with its
-- rank. A later value replaces it only with a greater rank.
unfoldable pub highest_from : List String → Value → ℕ → List Value → Result Value
highest_from order best n [] = ok best
highest_from order best n (v ∷ vs) = do
  k ← rank_item order v
  highest_from order (if ltb n k then v else best) (if ltb n k then k else n) vs

unfoldable pub highest : List String → List Value → Result Value
highest order [] = err (value_error "max() arg is an empty sequence")
highest order (v ∷ vs) = do n ← rank_item order v; highest_from order v n vs

unfoldable pub rank_flows : String → List String → List Value → Result Value
rank_flows taxonomy order [] =
    err (trace_finalization_error "no classified data-flow evidence is present")
rank_flows taxonomy order (first ∷ others) = do
  let flows = first ∷ others
  foreign_flow ← some_foreign taxonomy flows
  raise_if foreign_flow
      (trace_finalization_error "data-flow taxonomy conflicts with TRACE configuration")
  values ← traverse (classified "value") flows
  hashable ← traverse check_hashable values
  raise_if (any (λ v. not (is_ranked (rank order v))) (to_set hashable))
      (trace_finalization_error "unranked data classifications are present")
  highest order values

unfoldable pub highest_data_class : String → List String → List Value → Result Value
highest_data_class taxonomy order events = do
  flows ← of_type "data_flow.observed" events
  rank_flows taxonomy order flows
