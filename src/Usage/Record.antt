-- ===== src/Usage/Record.antt =====
-- agentrust_telemetry/usage.py: a cost and one usage event. `to_float` stands for `float(amount)`,
-- which may raise.
use agentrust_telemetry.Base.{
  Bool, true, false, not, ◌&&◌, String, Option, none, some, List, [], ◌∷◌, ◌++◌, any, all, length,
  ◌==◌, leb, str_eq, if◌then◌else◌,
}
use agentrust_telemetry.Base.Integer.{ℤ, pos}
use agentrust_telemetry.Base.Outcome.{Result, ok, ◌>>=◌, ◌>>◌, raise_if, type_error, value_error}
use agentrust_telemetry.Value.{Float, finite, Value, float, str, dict, record_of}
use agentrust_telemetry.Value.Access.{is_null, is_plain_int}
use agentrust_telemetry.Value.Words.{codes, is_upper, is_lower}
use agentrust_telemetry.Factory.{EventFactory, build}

-- The amount is an `A`: an int, a float or a Decimal.
pub record CostObservation (A : Type 0) : Type 0 where
  pub amount : A
  pub currency : String
  pub source : String
  pub pricing_version : Option String

-- math.isfinite(amount) and not amount < 0
abbrev pub is_cost : Float → Bool
is_cost (finite (pos n) k) = true
is_cost x = false

-- Three ASCII characters, one of them a capital letter and none of them a small one.
unfoldable pub is_currency : String → Bool
unfolding is_upper is_lower
is_currency s =
    length (codes s) == 3
    && all (λ c. leb c 127) (codes s)
    && any is_upper (codes s)
    && not (any is_lower (codes s))

abbrev pub cost_sources : List String
cost_sources = "provider" ∷ "caller" ∷ "price_resolver" ∷ "estimate" ∷ []

abbrev pricing : Option String → Result (List (String × Value))
pricing none = ok []
pricing (some v) =
    raise_if (str_eq v "") (value_error "pricing_version must be non-empty")
    >> ok (("pricing_version", str v) ∷ [])

module _ {A : Type 0} (is_bool : A → Bool) (to_float : A → Result Float) where
  unfoldable pub as_event_value : CostObservation A → Result Value
  as_event_value c = do
    raise_if (is_bool c.amount) (type_error "cost amount must be a finite non-negative number")
    amount ← to_float c.amount
    raise_if (not (is_cost amount)) (value_error "cost amount must be a finite non-negative number")
    raise_if (not (is_currency c.currency))
        (value_error "cost currency must be a three-letter uppercase ASCII code")
    raise_if (not (any (str_eq c.source) cost_sources)) (value_error "cost source is not supported")
    version ← pricing c.pricing_version
    ok (
        dict (
          record_of (
            ("amount", float amount)
            ∷ ("currency", str c.currency)
            ∷ ("source", str c.source)
            ∷ version)))

-- The arguments of `usage_record`. `counts` are the five token counts, None where there is none.
pub record UsageArguments (A : Type 0) : Type 0 where
  pub run_id : String
  pub agent_id : String
  pub scope : String
  pub operation : String
  pub workflow_id : Option String
  pub parent_agent_id : Option String
  pub task_id : Option String
  pub provider : Option String
  pub request_model : Option String
  pub response_model : Option String
  pub input_tokens : Value
  pub output_tokens : Value
  pub cache_read_tokens : Value
  pub cache_write_tokens : Value
  pub reasoning_tokens : Value
  pub cost : Option (CostObservation A)
  pub trace_id : Option String
  pub span_id : Option String

-- the token counts by their names
abbrev pub counts : {A : Type 0} → UsageArguments A → List (String × Value)
counts p =
    ("input_tokens", p.input_tokens)
    ∷ ("output_tokens", p.output_tokens)
    ∷ ("cache_read_tokens", p.cache_read_tokens)
    ∷ ("cache_write_tokens", p.cache_write_tokens)
    ∷ ("reasoning_tokens", p.reasoning_tokens)
    ∷ []

-- The loop over `TOKEN_FIELDS`, in the order of the counts.
unfoldable pub check_counts : List (String × Value) → Result (Unit {0})
check_counts [] = ok tt
check_counts ((name, value) ∷ rest) =
    raise_if (not (is_null value) && not (is_plain_int value))
      (type_error "must be a non-negative integer")
    >> check_counts rest

-- {key: value ... if value is not None}
unfoldable pub without_null : List (String × Value) → List (String × Value)
without_null [] = []
without_null ((k, v) ∷ rest) =
    let others = without_null rest in if is_null v then others else (k, v) ∷ others

abbrev pub text_field : String → Option String → List (String × Value)
text_field k none = []
text_field k (some s) = (k, str s) ∷ []

module _ {A : Type 0} (is_bool : A → Bool) (to_float : A → Result Float) where
  unfoldable pub cost_field : Option (CostObservation A) → Result (List (String × Value))
  cost_field none = ok []
  cost_field (some c) = as_event_value is_bool to_float c >>= λ value. ok (("cost", value) ∷ [])

  unfoldable pub usage_record : EventFactory → UsageArguments A → ℤ → String → Result Value
  usage_record f p now fresh = do
    check_counts (counts p)
    cost ← cost_field p.cost
    build f
        (record {
          event_type = "usage.recorded";
          run_id = p.run_id;
          agent_id = some p.agent_id;
          workflow_id = p.workflow_id;
          parent_agent_id = p.parent_agent_id;
          task_id = p.task_id;
          trace_id = p.trace_id;
          span_id = p.span_id;
          event_id = none;
          time_unix_nano = none;
          payload =
              (("scope", str p.scope) ∷ ("operation", str p.operation) ∷ [])
              ++ text_field "provider" p.provider
              ++ text_field "request_model" p.request_model
              ++ text_field "response_model" p.response_model
              ++ without_null (counts p)
              ++ cost;
        })
        now fresh
