-- ===== src/Otel/Attributes.antt =====
-- otel.py: the attributes that an instrument is called with.
use mathlib.Core.Path.{subst}
use agentrust_telemetry.Base.{
  ◌≡◌, refl, sym, ap, ◌⊎◌, inl, inr, true, String, some, List, [], ◌∷◌, map, any, Some, Bool-cases,
  arith, if◌then◌else◌,
}
use agentrust_telemetry.Base.Outcome.{ok, >>=-eq-ok, ok-injective}
use agentrust_telemetry.Value.{Key, text, Value, str, Fields, fields, lookup}
use agentrust_telemetry.Value.Equality.{eq_value}
use agentrust_telemetry.Value.Access.{get_item, check_hashable}
use agentrust_telemetry.Otel.{
  Instrument, policy_count, policy_duration, approval_count, action_count, action_duration,
  data_flow_count, token_count, cost, classification_of, get_or, two_fields, approval_attributes,
  flow_attributes, cost_call,
}

abbrev pub names : Fields → List Key
names fs = map (λ p. p.0) (fields fs)

-- The attributes that each instrument has, whatever the event.
abbrev pub attribute_names : Instrument → List Key
attribute_names policy_count =
    text "agentrust.policy.decision" ∷ text "agentrust.policy.enforcement_mode" ∷ []
attribute_names policy_duration =
    text "agentrust.policy.decision" ∷ text "agentrust.policy.enforcement_mode" ∷ []
attribute_names approval_count =
    text "agentrust.approval.phase" ∷ text "agentrust.approval.actor_type" ∷ []
attribute_names action_count = text "agentrust.action.kind" ∷ text "agentrust.action.outcome" ∷ []
attribute_names action_duration =
    text "agentrust.action.kind" ∷ text "agentrust.action.outcome" ∷ []
attribute_names data_flow_count =
    text "agentrust.data_flow.direction"
    ∷ text "agentrust.data_flow.policy_decision"
    ∷ text "agentrust.data_flow.classification"
    ∷ text "agentrust.data_flow.transformation"
    ∷ []
attribute_names token_count = text "agentrust.usage.scope" ∷ text "gen_ai.token.type" ∷ []
attribute_names cost =
    text "agentrust.usage.scope"
    ∷ text "agentrust.cost.currency"
    ∷ text "agentrust.cost.source"
    ∷ []

module _ (values : List String) where
  -- The classification is one of the configured values, or "_other".
  abbrev pub IsKnown : Value → Type 0
  IsKnown v = Some (λ s. eq_value v (str s) ≡ true) values ⊎ (v ≡ str "_other")

  abbrev pub IsClassified : Instrument → Fields → Type 0
  IsClassified data_flow_count attributes =
      (v : Value) × (lookup "agentrust.data_flow.classification" attributes ≡ some v) × IsKnown v
  IsClassified instrument attributes = Unit

  -- The attributes are the instrument's own, and a data flow's classification is a known one.
  abbrev pub IsBounded : Instrument → Fields → Type 0
  IsBounded instrument attributes =
      (names attributes ≡ attribute_names instrument) × IsClassified instrument attributes

  any-Some :
      (v : Value) (ss : List String)
      → any (λ s. eq_value v (str s)) ss ≡ true
      → Some (λ s. eq_value v (str s) ≡ true) ss
  any-Some v [] h = cc
  any-Some v (s ∷ ss) h = elim (Bool-cases (eq_value v (str s))) [
    | inl t ↦ inl t
    | inr f ↦ inr (any-Some v ss (ground arith))
  ]

  kept_value :
      (v : Value) → IsKnown (if any (λ s. eq_value v (str s)) values then v else str "_other")
  kept_value v = elim (Bool-cases (any (λ s. eq_value v (str s)) values)) [
    | inl t ↦ rw t (inl (any-Some v values t))
    | inr f ↦ rw f (inr refl)
  ]

  classification_of-IsKnown :
      (v : Value) {c : Value} → classification_of values v ≡ ok c → IsKnown c
  unfolding classification_of
  classification_of-IsKnown v e =
      let (hashed, _, e1) = >>=-eq-ok (check_hashable v) _ e in
      subst IsKnown (ok-injective e1) (kept_value hashed)

  pub flow_attributes-IsBounded :
      (event : Value) {attributes : Fields}
      → flow_attributes values event ≡ ok attributes
      → IsBounded data_flow_count attributes
  unfolding flow_attributes lookup
  flow_attributes-IsBounded event e =
      let (whole, _, e1) = >>=-eq-ok (get_item event "classification") _ e in
      let (value, _, e2) = >>=-eq-ok (get_item whole "value") _ e1 in
      let (c, known, e3) = >>=-eq-ok (classification_of values value) _ e2 in
      let (direction, _, e4) = >>=-eq-ok (get_item event "direction") _ e3 in
      let (decision, _, e5) = >>=-eq-ok (get_item event "policy_decision") _ e4 in
      let (transformation, _, e6) = >>=-eq-ok (get_or (str "none") event "transformation") _ e5 in
      subst (IsBounded data_flow_count) (ok-injective e6)
        (refl, (c, refl, classification_of-IsKnown value known))

  pub two_fields-names :
      (n k n' k' : String) (event : Value) {attributes : Fields}
      → two_fields n k n' k' event ≡ ok attributes
      → names attributes ≡ text n ∷ text n' ∷ []
  unfolding two_fields
  two_fields-names n k n' k' event e =
      let (a, _, e1) = >>=-eq-ok (get_item event k) _ e in
      let (b, _, e2) = >>=-eq-ok (get_item event k') _ e1 in ap names (sym (ok-injective e2))

  pub approval_attributes-IsBounded :
      (t : String) (event : Value) {attributes : Fields}
      → approval_attributes t event ≡ ok attributes
      → IsBounded approval_count attributes
  unfolding approval_attributes
  approval_attributes-IsBounded t event e =
      let (actor, _, e1) = >>=-eq-ok (get_item event "actor_type") _ e in
      (ap names (sym (ok-injective e1)), tt)

  pub cost_call-IsBounded :
      (scope event : Value) {call : Value × Fields}
      → cost_call scope event ≡ ok call
      → IsBounded cost call.1
  unfolding cost_call
  cost_call-IsBounded scope event e =
      let (whole, _, e1) = >>=-eq-ok (get_item event "cost") _ e in
      let (amount, _, e2) = >>=-eq-ok (get_item whole "amount") _ e1 in
      let (currency, _, e3) = >>=-eq-ok (get_item whole "currency") _ e2 in
      let (source, _, e4) = >>=-eq-ok (get_item whole "source") _ e3 in
      (ap (λ p. names p.1) (sym (ok-injective e4)), tt)
