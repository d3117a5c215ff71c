-- ===== src/Tests/UsageRuns.antt =====
-- Runs of `rollup` of usage.py on the samples.
use mathlib.Core.List.{Permᴰ}
use agentrust_telemetry.Base.{ℕ, ◌≡◌, refl, String, Option, some, none, List, [], ◌∷◌}
use agentrust_telemetry.Base.Integer.{ℤ, pos, ◌+ℤ◌}
use agentrust_telemetry.Base.Ordered.{sorted_set}
use agentrust_telemetry.Base.Outcome.{Result, ok, ◌>>=◌}
use agentrust_telemetry.Value.{Value, str, int, lookup, assign}
use agentrust_telemetry.Value.Equality.{eq_value}
use agentrust_telemetry.Value.Words.{is_digit, has_prefix}
use agentrust_telemetry.Value.Access.{get, has_key}
use agentrust_telemetry.Value.Access.{get_item}
use agentrust_telemetry.Factory.{
  build, is_reserved, unix_nano, integer_text, decimal, is_canonical, canonical_text,
  payload_fields, payload_value, with_optional, given, required_fields, chosen_id,
}
use agentrust_telemetry.Trace.Events.{filter_result}
use agentrust_telemetry.Usage.{UsageAccumulator, token_fields}
use agentrust_telemetry.Usage.Rollup.{
  RollupArguments, is_match, of_agent, of_workflow, observed, sum_from, roll_field, roll_tokens,
  cost_total, rollup_payload, rollup,
}
use agentrust_telemetry.Usage.Rollup.Order.{rollup_order}
use agentrust_telemetry.Usage.Rollup.Totals.{IsRollup, rollup-IsRollup}
use agentrust_telemetry.Tests.{sample_factory, event_of, event_fields}

abbrev call_one : Value
call_one =
    event_fields "u1" (
      ("agent_id", str "a1") ∷ ("input_tokens", int (pos 12)) ∷ ("output_tokens", int (pos 3)) ∷ [])

abbrev call_two : Value
call_two = event_fields "u2" (("agent_id", str "a1") ∷ ("input_tokens", int (pos 5)) ∷ [])

abbrev both_calls : UsageAccumulator
both_calls = ("u1", call_one) ∷ ("u2", call_two) ∷ []

abbrev agent_run : RollupArguments
agent_run = record {
  scope = "agent_run";
  run_id = "r1";
  operation = "chat";
  agent_id = "a1";
  workflow_id = none;
}

abbrev no_costs : List Value → Result Value
no_costs amounts = ok (int (pos 0))

abbrev rolled_event : Value
rolled_event = event_of (rollup no_costs sample_factory both_calls agent_run (pos 7) "e0")

rolled_up : rollup no_costs sample_factory both_calls agent_run (pos 7) "e0" ≡ ok rolled_event
unfolding rollup filter_result is_match of_agent of_workflow observed sum_from roll_field
    roll_tokens cost_total rollup_payload sorted_set eq_value get has_key ◌+ℤ◌ build is_reserved
    unix_nano integer_text decimal is_canonical canonical_text payload_fields payload_value
    with_optional given required_fields chosen_id get_item lookup assign is_digit has_prefix
rolled_up = refl

rollup-IsRollup_example : IsRollup agent_run both_calls rolled_event
rollup-IsRollup_example =
    rollup-IsRollup no_costs sample_factory both_calls agent_run (pos 7) "e0" rolled_up

abbrev counted : List (String × Option ℤ × ℕ)
counted =
    ("input_tokens", some (pos 17), 2)
    ∷ ("output_tokens", some (pos 3), 1)
    ∷ ("cache_read_tokens", none, 0)
    ∷ ("cache_write_tokens", none, 0)
    ∷ ("reasoning_tokens", none, 0)
    ∷ []

counted_in_order :
    (filter_result (is_match agent_run) (call_one ∷ call_two ∷ []) >>= roll_tokens token_fields)
    ≡ ok counted
unfolding filter_result is_match of_agent of_workflow observed sum_from roll_field roll_tokens
    eq_value get has_key get_item lookup ◌+ℤ◌
counted_in_order = refl

rollup_order_example :
    (filter_result (is_match agent_run) (call_two ∷ call_one ∷ []) >>= roll_tokens token_fields)
    ≡ ok counted
rollup_order_example = rollup_order agent_run (Permᴰ.swap refl refl) counted_in_order
