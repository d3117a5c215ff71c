-- ===== src/Adapters/Agt.antt =====
-- agentrust_telemetry/adapters/agt.py: the sink that takes AGT's governance events, and the checks
-- on a policy event's decision and reason codes. The mapper and the client act on a world `W` and
-- may raise.
pub mod Sink
pub mod Codes
use agentrust_telemetry.Base.{
  ℕ, Bool, true, false, not, ◌||◌, ◌&&◌, String, Option, none, some, List, [], ◌∷◌, ◌++◌, all, any,
  length, ltb, leb, ◌==◌, str_eq, if◌then◌else◌,
}
use agentrust_telemetry.Base.Integer.{ℤ}
use agentrust_telemetry.Base.Outcome.{Result, ok, err, ◌>>=◌, ◌>>◌, ◌|>◌, raise_if, value_error}
use agentrust_telemetry.Value.{Value, str, list, Items, nil, cons, items}
use agentrust_telemetry.Value.Words.{codes, is_alnum}
use agentrust_telemetry.Client.{EmitResult}
use agentrust_telemetry.Adapters.Source.{Attribute, plain, enum_value, mapped}

-- The sink's fields. Its client answers with the results of client.py; `S` is the type of AGT's
-- events and `R` that of its results.
pub record AgtGovernanceEventSink (W S R : Type 0) : Type 0 where
  pub client : Value → W → Result EmitResult × W
  pub mapper : S → W → Result (List Value) × W
  pub success : R
  pub failure : R

-- `if getattr(result, "projection_errors", ())`
abbrev pub has_errors : EmitResult → Bool
has_errors r = elim r.projection_errors [ [] ↦ false | e ∷ es ↦ true ]

module _ {W S : Type 0} where
  -- [item for source in events for item in self._mapper(source)]
  unfoldable pub normalize :
      (S → W → Result (List Value) × W) → List S → W → Result (List Value) × W
  normalize mapper [] w = (ok [], w)
  normalize mapper (source ∷ events) w = mapper source w |> λ own w1.
      normalize mapper events w1 |> λ others w2. (ok (own ++ others), w2)

-- `except Exception: return self._failure`
unfoldable pub or_failure : {W R : Type 0} → R → Result R × W → R × W
or_failure failure (ok r, w) = (r, w)
or_failure failure (err e, w) = (failure, w)

module _ {W S R : Type 0} where
  -- the loop over the normalized events
  unfoldable pub emit_all : AgtGovernanceEventSink W S R → List Value → W → Result R × W
  emit_all sink [] w = (ok sink.success, w)
  emit_all sink (event ∷ events) w = sink.client event w |> λ result w1.
      let rest = emit_all sink events w1 in
      if not result.accepted
      then (ok sink.failure, w1)
      else if has_errors result
      then (ok sink.failure, w1)
      else rest

  -- `AgtGovernanceEventSink.emit`
  unfoldable pub sink_emit : AgtGovernanceEventSink W S R → List S → W → R × W
  unfolding or_failure
  sink_emit sink events w =
      or_failure sink.failure
        (normalize sink.mapper events w |> λ normalized w1. emit_all sink normalized w1)

-- `_decision`
abbrev pub decisions : List (String × String)
decisions =
    ("allow", "allow")
    ∷ ("allowed", "allow")
    ∷ ("deny", "deny")
    ∷ ("denied", "deny")
    ∷ ("block", "deny")
    ∷ ("blocked", "deny")
    ∷ ("require_approval", "challenge")
    ∷ ("requires_approval", "challenge")
    ∷ ("review", "challenge")
    ∷ []

unfoldable pub decision_of : Attribute → Result String
unfolding mapped
decision_of value =
    mapped (value_error "unsupported AGT policy decision") decisions (enum_value value)

-- a character of `_IDENTIFIER`
unfoldable pub is_identifier_char : ℕ → Bool
is_identifier_char c = is_alnum c || c == b'_' || c == b'.' || c == b':' || c == b'-'

-- `_IDENTIFIER.fullmatch(value)`
unfoldable pub is_identifier : String → Bool
unfolding is_identifier_char
is_identifier s =
    leb 1 (length (codes s)) && leb (length (codes s)) 128 && all is_identifier_char (codes s)

-- isinstance(value, str) and it is an identifier
unfoldable pub is_code : Value → Bool
is_code (str s) = is_identifier s
is_code v = false

-- The texts of a list of texts.
unfoldable pub texts : List Value → List String
texts [] = []
texts (str s ∷ vs) = s ∷ texts vs
texts (v ∷ vs) = texts vs

-- `len(values) != len(set(values))`, where all are texts
unfoldable pub has_duplicate : List String → Bool
has_duplicate [] = false
has_duplicate (s ∷ ss) = any (str_eq s) ss || has_duplicate ss

-- `_reason_codes`
unfoldable pub reason_codes : Value → Result (List String)
reason_codes (list values) = do
  raise_if (ltb 32 (length (items values)) || not (all is_code (items values)))
      (value_error "AGT reason_codes must contain at most 32 identifiers")
  raise_if (has_duplicate (texts (items values))) (value_error "AGT reason_codes must be unique")
  ok (texts (items values))
reason_codes v = err (value_error "AGT reason_codes must be an array")
