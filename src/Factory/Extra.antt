-- ===== src/Factory/Extra.antt =====
-- `factory.build(..., **envelope)`: a call of `EventFactory.build` with the keyword arguments that a
-- caller of an adapter adds to the adapter's own.
use agentrust_telemetry.Base.{Bool, String, Option, some, List, ◌∷◌, ◌++◌, any, map, str_eq}
use agentrust_telemetry.Base.Integer.{ℤ}
use agentrust_telemetry.Base.Outcome.{Result, ◌>>◌, raise_if, type_error}
use agentrust_telemetry.Value.{Value}
use agentrust_telemetry.Factory.{EventFactory, build}

-- The named ones among them, None where there is none, and the others.
pub record Extra : Type 0 where
  pub workflow_id : Option String
  pub parent_agent_id : Option String
  pub task_id : Option String
  pub trace_id : Option String
  pub span_id : Option String
  pub event_id : Option String
  pub time_unix_nano : Option Value
  pub others : List (String × Value)

-- Python refuses a keyword that the call already gives.
unfoldable pub is_given_twice : List (String × Value) → List (String × Value) → Bool
is_given_twice payload others =
    any (λ (k, v). any (str_eq k) ("self" ∷ "event_type" ∷ map (λ (j, w). j) payload)) others

unfoldable pub build_with :
    EventFactory
    → String
    → String
    → String
    → List (String × Value)
    → Extra
    → ℤ
    → String
    → Result Value
unfolding is_given_twice
build_with f event_type run_id agent_id payload x now fresh = do
  raise_if (is_given_twice payload x.others) (type_error "got multiple values for keyword argument")
  build f
      (record {
        event_type = event_type;
        run_id = run_id;
        agent_id = some agent_id;
        workflow_id = x.workflow_id;
        parent_agent_id = x.parent_agent_id;
        task_id = x.task_id;
        trace_id = x.trace_id;
        span_id = x.span_id;
        event_id = x.event_id;
        time_unix_nano = x.time_unix_nano;
        payload = payload ++ x.others;
      })
      now fresh
