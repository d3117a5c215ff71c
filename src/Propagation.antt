-- ===== src/Propagation.antt =====
-- agentrust_telemetry/propagation.py: the headers that carry a run across a call. OpenTelemetry's
-- propagator is a parameter; `C` is its context. A carrier is a dictionary.
pub mod RoundTrip
use agentrust_telemetry.Base.{
  ℕ, Bool, true, false, not, ◌||◌, String, Option, none, some, List, [], ◌∷◌, any, length, ltb,
  ◌==◌, str_eq, if◌then◌else◌,
}
use agentrust_telemetry.Base.Outcome.{
  Result, ok, err, ◌>>=◌, ◌>>◌, ◌|>◌, raise_if, attribute_error, propagation_error,
}
use agentrust_telemetry.Value.{Value, null, str, Fields, end, field, text, foreign, lookup, assign}
use agentrust_telemetry.Value.Access.{or_null}
use agentrust_telemetry.Value.Words.{codes, lower, eq_codes}

abbrev pub run_id_header : String
run_id_header = "x-agentrust-run-id"

abbrev pub workflow_id_header : String
workflow_id_header = "x-agentrust-workflow-id"

abbrev pub upstream_agent_id_header : String
upstream_agent_id_header = "x-agentrust-agent-id"

abbrev pub max_value_length : ℕ
max_value_length = 512

unfoldable pub has_line_break : List ℕ → Bool
has_line_break s = any (λ c. c == 13) s || any (λ c. c == 10) s

unfoldable pub safe_text : String → Result String
safe_text s = do
  raise_if (str_eq s "") (propagation_error "must not be empty")
  raise_if (ltb max_value_length (length (codes s))) (propagation_error "exceeds 512 characters")
  raise_if (has_line_break (codes s)) (propagation_error "contains a prohibited line break")
  ok s

-- `_safe_value`; every call passes `required=True`
unfoldable pub safe_value : Value → Result String
unfolding safe_text
safe_value (str s) = safe_text s
safe_value v = err (propagation_error "must be a string")

-- What OpenTelemetry does to a carrier, and what it reads from one.
pub record Propagator (C : Type 0) : Type 0 where
  pub inject : Fields → Fields
  pub extract : Fields → C

-- carrier[name] = _safe_value(...)
unfoldable pub set_header : String → Value → Fields → Result (Unit {0}) × Fields
set_header name value carrier =
    ((safe_value value, carrier) |> λ s carrier. (ok tt, assign name (str s) carrier))

unfoldable pub set_workflow : Option Value → Fields → Result (Unit {0}) × Fields
unfolding set_header
set_workflow none carrier = (ok tt, carrier)
set_workflow (some value) carrier = set_header workflow_id_header value carrier

-- the first item whose key is the name but for case
unfoldable pub any_case : String → Fields → Result (Option Value)
any_case name end = ok none
any_case name (field (foreign t) v fs) = err (attribute_error "lower")
any_case name (field (text k) v fs) = elim (eq_codes (lower (codes k)) (codes name)) [
  | true ↦ ok (some v)
  | false ↦ any_case name fs
]

-- None, or the checked text
unfoldable pub checked : Value → Result (Option String)
checked null = ok none
checked v = safe_value v >>= λ s. ok (some s)

-- what `carrier.get(name)` gave, or else the item whose key differs in case
unfoldable pub header_from : String → Fields → Value → Result (Option String)
unfolding checked
header_from name carrier null = any_case name carrier >>= λ found. checked (or_null found)
header_from name carrier v = checked v

-- `_header`
unfoldable pub header : Fields → String → Result (Option String)
unfolding header_from
header carrier name = header_from name carrier (or_null (lookup name carrier))

pub record ExtractedContext (C : Type 0) : Type 0 where
  pub otel_context : C
  pub run_id : Option String
  pub workflow_id : Option String
  pub upstream_agent_id : Option String

module _ {C : Type 0} where
  unfoldable pub inject_context :
      Propagator C → Value → Value → Option Value → Fields → Result (Unit {0}) × Fields
  inject_context p run_id agent_id workflow_id carrier =
      (set_header run_id_header run_id (p.inject carrier) |> λ _ carrier.
      set_header upstream_agent_id_header agent_id carrier |> λ _ carrier.
      set_workflow workflow_id carrier)

  unfoldable pub extract_context : Propagator C → Fields → Result (ExtractedContext C)
  extract_context p carrier = do
    run_id ← header carrier run_id_header
    workflow_id ← header carrier workflow_id_header
    upstream_agent_id ← header carrier upstream_agent_id_header
    ok (record {
      otel_context = p.extract carrier;
      run_id = run_id;
      workflow_id = workflow_id;
      upstream_agent_id = upstream_agent_id;
    })

-- `if value is not None: fields[name] = value`
unfoldable pub put : String → Option String → Fields → Fields
put name none fs = fs
put name (some s) fs = assign name (str s) fs

-- `ExtractedContext.event_fields`
unfoldable pub event_fields : {C : Type 0} → ExtractedContext C → Value → Result Fields
unfolding put
event_fields x agent_id = safe_value agent_id >>= λ agent. ok (
    put "parent_agent_id" x.upstream_agent_id (
      put "workflow_id" x.workflow_id
        (put "run_id" x.run_id (field (text "agent_id") (str agent) end))))
