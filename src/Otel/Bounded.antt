-- ===== src/Otel/Bounded.antt =====
-- `OTelMetricEmitter.emit` of otel.py: with which attributes it calls an instrument.
use agentrust_telemetry.Base.{
  ◌≡◌, refl, Bool, true, false, String, List, [], ◌∷◌, str_eq, if◌then◌else◌,
}
use agentrust_telemetry.Base.Outcome.{Result, ok, err, ◌>>=◌, ◌|>◌}
use agentrust_telemetry.Value.{Value, str, Fields}
use agentrust_telemetry.Value.Access.{get_item, has_key}
use agentrust_telemetry.Value.Words.{codes, has_prefix}
use agentrust_telemetry.Otel.{
  Instrument, policy_count, policy_duration, approval_count, action_count, action_duration,
  data_flow_count, token_count, cost, token_types, cost_call, count_and_time, count_one,
  count_token, count_tokens, add_cost, count_usage, emit_kind, emit_type, emit_metrics,
}
use agentrust_telemetry.Otel.Attributes.{
  IsBounded, two_fields-names, approval_attributes-IsBounded, cost_call-IsBounded,
  flow_attributes-IsBounded,
}

module _ (values : List String) where
  module _ {W : Type 0} (seconds : Value → Result Value)
      (measure : Instrument → Value → Fields → W → Result (Unit {0}) × W) (Q : W → Type 0)
      (keeps : (i : Instrument) (amount : Value) (attributes : Fields) (w : W)
        → IsBounded values i attributes
        → Q w
        → Q (measure i amount attributes w).1) where
    -- a computation that does not touch the world, and what follows
    after :
        {A B : Type 0} (r : Result A) (w : W) (f : A → W → Result B × W)
        → Q w
        → ((a : A) → r ≡ ok a → Q (f a w).1)
        → Q ((r, w) |> f).1
    after (ok a) w f q next = next a refl
    after (err e) w f q next = q

    -- a call, and what follows
    then_keeps :
        {A B : Type 0} (m : Result A × W) (f : A → W → Result B × W)
        → Q m.1
        → ((a : A) (w : W) → Q w → Q (f a w).1)
        → Q (m |> f).1
    then_keeps (ok a, w) f q next = next a w q
    then_keeps (err e, w) f q next = q

    if_keeps :
        {B : Type 0} (b : Bool) (m n : Result B × W) → Q m.1 → Q n.1 → Q (if b then m else n).1
    if_keeps true m n p q = p
    if_keeps false m n p q = q

    count_one-keeps :
        (i : Instrument) (attributes : Result Fields) (w : W)
        → ((a : Fields) → attributes ≡ ok a → IsBounded values i a)
        → Q w
        → Q (count_one seconds measure i attributes w).1
    unfolding count_one
    count_one-keeps i attributes w bounded q =
        after attributes w _ q
          (λ a e. then_keeps (measure i _ a w) _ (keeps i _ a w (bounded a e) q) (λ _ w' q'. q'))

    count_and_time-keeps :
        (i j : Instrument) (field : String) (attributes : Result Fields) (event : Value) (w : W)
        → ((a : Fields) → attributes ≡ ok a → IsBounded values i a)
        → ((a : Fields) → attributes ≡ ok a → IsBounded values j a)
        → Q w
        → Q (count_and_time seconds measure i j field attributes event w).1
    unfolding count_and_time
    count_and_time-keeps i j field attributes event w bounded bounded' q =
        after attributes w _ q (λ a e.
          then_keeps (measure i _ a w) _ (keeps i _ a w (bounded a e) q) (λ _ w1 q1.
            after (get_item event field >>= seconds) w1 _ q1 (λ time _.
              then_keeps (measure j time a w1) _ (keeps j time a w1 (bounded' a e) q1)
                (λ _ w2 q2. q2))))

    count_token-keeps :
        (scope event : Value) (field token_type : String) (w : W)
        → Q w
        → Q (count_token seconds measure scope event field token_type w).1
    unfolding count_token
    count_token-keeps scope event field token_type w q =
        after (has_key event field) w _ q (λ there _.
          if_keeps there _ _
            (after (get_item event field) w _ q
              (λ tokens _. keeps token_count tokens _ w (refl, tt) q))
            q)

    count_tokens-keeps :
        (table : List (String × String)) (scope event : Value) (w : W)
        → Q w
        → Q (count_tokens seconds measure table scope event w).1
    unfolding count_tokens
    count_tokens-keeps [] scope event w q = q
    count_tokens-keeps ((field, token_type) ∷ table) scope event w q =
        then_keeps (count_token seconds measure scope event field token_type w) _
          (count_token-keeps scope event field token_type w q)
          (λ _ w' q'. count_tokens-keeps table scope event w' q')

    add_cost-keeps :
        (scope event : Value) (w : W) → Q w → Q (add_cost seconds measure scope event w).1
    unfolding add_cost
    add_cost-keeps scope event w q = after (has_key event "cost") w _ q (λ there _.
        if_keeps there _ _
          (after (cost_call scope event) w _ q
            (λ call e. keeps cost call.0 call.1 w (cost_call-IsBounded values scope event e) q))
          q)

    count_usage-keeps : (event : Value) (w : W) → Q w → Q (count_usage seconds measure event w).1
    unfolding count_usage
    count_usage-keeps event w q = after (get_item event "scope") w _ q (λ scope _.
        then_keeps (count_tokens seconds measure token_types scope event w) _
          (count_tokens-keeps token_types scope event w q)
          (λ _ w1 q1.
            then_keeps (add_cost seconds measure scope event w1) _
              (add_cost-keeps scope event w1 q1) (λ _ w2 q2. q2)))

    emit_kind-keeps :
        (event_type : String) (event : Value) (w : W)
        → Q w
        → Q (emit_kind seconds measure values event_type event w).1
    unfolding emit_kind
    emit_kind-keeps event_type event w q =
        if_keeps (str_eq event_type "policy.decision") _ _
          (count_and_time-keeps policy_count policy_duration "evaluation_duration_ns" _ event w
            (λ a e. (
              two_fields-names values "agentrust.policy.decision" "decision"
                  "agentrust.policy.enforcement_mode" "enforcement_mode" event e,
              tt,
            ))
            (λ a e. (
              two_fields-names values "agentrust.policy.decision" "decision"
                  "agentrust.policy.enforcement_mode" "enforcement_mode" event e,
              tt,
            ))
            q)
          (if_keeps (has_prefix (codes "approval.") (codes event_type)) _ _
            (count_one-keeps approval_count _ w
              (λ a e. approval_attributes-IsBounded values event_type event e) q)
            (if_keeps (str_eq event_type "action.executed") _ _
              (count_and_time-keeps action_count action_duration "duration_ns" _ event w
                (λ a e. (
                  two_fields-names values "agentrust.action.kind" "action_kind"
                      "agentrust.action.outcome" "outcome" event e,
                  tt,
                ))
                (λ a e. (
                  two_fields-names values "agentrust.action.kind" "action_kind"
                      "agentrust.action.outcome" "outcome" event e,
                  tt,
                ))
                q)
              (if_keeps (str_eq event_type "data_flow.observed") _ _
                (count_one-keeps data_flow_count _ w
                  (λ a e. flow_attributes-IsBounded values event e) q)
                (if_keeps (str_eq event_type "usage.recorded") _ (ok false, w)
                  (count_usage-keeps event w q) q))))

    emit_type-keeps :
        (t event : Value) (w : W) → Q w → Q (emit_type seconds measure values t event w).1
    unfolding emit_type
    emit_type-keeps (str event_type) event w q = emit_kind-keeps event_type event w q
    emit_type-keeps t event w q = q

    -- Whatever an event holds and wherever its projection stops, each instrument is called with its
    -- own attributes only, and the classification of a data flow is a configured value or "_other":
    -- what such calls keep of the world, the projection of an event keeps.
    pub emit_metrics-keeps :
        (event : Value) (w : W) → Q w → Q (emit_metrics seconds measure values event w).1
    unfolding emit_metrics
    emit_metrics-keeps event w q =
        after (get_item event "event_type") w _ q (λ t _. emit_type-keeps t event w q)
