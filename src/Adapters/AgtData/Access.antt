-- ===== src/Adapters/AgtData/Access.antt =====
-- `agt_data_access_flow` of adapters/agt_data.py: what the event says of the decision.
use mathlib.Core.Path.{subst}
use agentrust_telemetry.Base.{
  ◌≡◌, refl, sym, ap, ◌∙◌, ◌↔◌, inl, inr, Bool, true, false, ℕ, suc, String, Option, none, some,
  List, [], ◌∷◌, Some, str_eq, if◌then◌else◌, Bool-cases, arith,
}
use agentrust_telemetry.Base.Integer.{ℤ, pos}
use agentrust_telemetry.Base.Outcome.{
  ok, err, >>=-eq-ok, ok-injective, raise_if, type_error, value_error,
}
use agentrust_telemetry.Value.{str-injective, Value, bool, int, float, str}
use agentrust_telemetry.Value.Equality.{eq_value}
use agentrust_telemetry.Factory.{EventFactory}
use agentrust_telemetry.Factory.Extra.{Extra}
use agentrust_telemetry.Factory.Payload.{Holds, Holds-injective}
use agentrust_telemetry.DataFlow.{ClassificationResult, classification_result}
use agentrust_telemetry.DataFlow.Closed.{
  IsClassification, classification_result-IsClassification, classification_value,
  classified_data_flow-IsFlow,
}
use agentrust_telemetry.Adapters.Source.{
  Attribute, plain, Source, field_of, enum_value, required_string, datetime_ns,
}
use agentrust_telemetry.Adapters.AgtData.{
  levels, level_from, level_of, agt_data_classification, AccessDecision, AccessArguments, boolean,
  flow_arguments, fixed, is_repeated, agt_data_access_flow,
}

boolean-eq-ok : (a : Attribute) {b : Bool} → boolean a ≡ ok b → a ≡ plain (bool b)
unfolding boolean
boolean-eq-ok (plain (bool b)) e = ap (λ c. plain (bool c)) (ok-injective e)
boolean-eq-ok a e = cc

level_from-Some :
    (n : ℕ) (known : List String) (v : Value) {level : String}
    → level_from n known v ≡ some level
    → Some (λ l. level ≡ l) known
unfolding level_from
level_from-Some n [] v e = cc
level_from-Some n (l ∷ rest) v e = elim (Bool-cases (eq_value v (int (pos n)))) [
  | inl t ↦ inl (ground arith)
  | inr f ↦ inr (level_from-Some (suc n) rest v (ground arith))
]

some_same :
    {c d : ClassificationResult} → ◌≡◌ {A = Option ClassificationResult} (some c) (some d) → c ≡ d
some_same e = cc

bool_same : {b c : Bool} → plain (bool b) ≡ plain (bool c) → b ≡ c
bool_same e = cc

-- An event of an access decision.
pub record IsAccess (decision : AccessDecision) (event : Value) : Type 0 where
  pub result : ClassificationResult
  pub known : Some (λ level. result.value ≡ level) levels
  pub valid : IsClassification result
  pub holds_classification : Holds event "classification" (classification_value result)
  pub allows :
      (Holds event "policy_decision" (str "allow"))
      ↔ (field_of decision.own "allowed" ≡ plain (bool true))

level_of-Some :
    (a : Attribute) {level : String} → level_of a ≡ some level → Some (λ l. level ≡ l) levels
unfolding level_of
level_of-Some (plain (int n)) e = level_from-Some 0 levels (int n) e
level_of-Some (plain (float x)) e = level_from-Some 0 levels (float x) e
level_of-Some a e = cc

chosen :
    (o : Option String) {c : ClassificationResult}
    → (elim o [
      | none ↦ err (value_error "unsupported AGT data classification")
      | some level ↦ classification_result "agt.data_classification.v1" level "agt.data_label"
    ])
      ≡ ok c
    → (level : String) × (o ≡ some level)
      × (classification_result "agt.data_classification.v1" level "agt.data_label" ≡ ok c)
chosen none e = cc
chosen (some level) e = (level, refl, e)

agt_data_classification-Some :
    (label : Source) {c : ClassificationResult}
    → agt_data_classification label ≡ ok c
    → Some (λ level. c.value ≡ level) levels × IsClassification c
unfolding agt_data_classification
agt_data_classification-Some label {c} e =
    let (level, known, made) = chosen (level_of (enum_value (field_of label "classification"))) e in
    let (valid, same) =
      classification_result-IsClassification "agt.data_classification.v1" level "agt.data_label"
        made in
    (
      subst (λ v. Some (λ l. v ≡ l) levels) (sym (ap (λ r. r.value) same)) (level_of-Some _ known),
      valid,
    )

shown : (b : Bool) → str (if b then "allow" else "deny") ≡ str "allow" → b ≡ true
shown true e = refl
shown false e =
    let never : "deny" ≡ "allow" = str-injective e in let no_way = ap (str_eq "deny") never in cc

-- A returned data access event classifies the data by one of AGT's five levels, in a classification
-- of identifiers, and allows the access exactly if the decision does.
pub agt_data_access_flow-IsAccess :
    (f : EventFactory) (decision : AccessDecision) (p : AccessArguments) (x : Extra) (now : ℤ)
    (fresh : String) {event : Value}
    → agt_data_access_flow f decision p x now fresh ≡ ok event
    → IsAccess decision event
unfolding agt_data_access_flow
agt_data_access_flow-IsAccess f decision p x now fresh {event} e =
    let (allowed, a, e1) = >>=-eq-ok (boolean (field_of decision.own "allowed")) _ e in
    let (result, c, e2) = >>=-eq-ok (agt_data_classification decision.data_label) _ e1 in
    let (agent_id, _, e3) = >>=-eq-ok (required_string (field_of decision.own "agent_id")) _ e2 in
    let (time, _, e4) = >>=-eq-ok (datetime_ns (field_of decision.own "evaluated_at")) _ e3 in
    let (_, _, e5) =
      >>=-eq-ok (raise_if (is_repeated x) (type_error "got multiple values for keyword argument")) _
        e4 in
    let flow =
      classified_data_flow-IsFlow f (fixed result) tt (flow_arguments p agent_id allowed)
        (record x { time_unix_nano = some (int time) }) now fresh e5 in
    let (known, valid) = agt_data_classification-Some decision.data_label c in
    let there = boolean-eq-ok (field_of decision.own "allowed") a in
    record {
      result = result;
      known = known;
      valid = valid;
      holds_classification =
          subst (λ r. Holds event "classification" (classification_value r))
            (some_same (ok-injective (sym flow.answered))) flow.holds_classification;
      allows = (
        λ h.
            there
            ∙ ap (λ b. plain (bool b))
                (shown allowed (Holds-injective event "policy_decision" flow.holds_decision h)),
        λ yes.
            subst (λ b. Holds event "policy_decision" (str (if b then "allow" else "deny")))
              (bool_same (sym there ∙ yes)) flow.holds_decision,
      );
    }
