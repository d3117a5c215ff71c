-- ===== src/DataFlow/Closed.antt =====
-- `classified_data_flow` of data_flow.py: what a returned event says of the flow.
use mathlib.Core.Path.{subst}
use agentrust_telemetry.Base.{
  not-false, ◌≡◌, refl, sym, ap, ◌∙◌, true, false, not, ◌||◌, String, Option, none, some, List, [],
  ◌∷◌, ◌++◌, or_split,
}
use agentrust_telemetry.Base.Integer.{ℤ}
use agentrust_telemetry.Base.Outcome.{
  Result, ok, >>=-eq-ok, ok-injective, raise_if, raise_if-eq-ok, type_error, value_error,
}
use agentrust_telemetry.Value.{Value, str, dict, record_of}
use agentrust_telemetry.Value.Words.{codes, has_part, has_prefix}
use agentrust_telemetry.Factory.{EventFactory, build, is_reserved, payload_value}
use agentrust_telemetry.Factory.Payload.{Holds, Holds-plain, find}
use agentrust_telemetry.Factory.Extra.{Extra, is_given_twice, build_with}
use agentrust_telemetry.DataFlow.{
  is_name, identifier, ClassificationResult, classification_result, check_media_type, FlowArguments,
  flow_payload, endpoint_value, classified, classified_data_flow,
}

-- A metadata identifier: 1 to 256 characters of the identifiers' alphabet, and no URL.
pub record IsIdentifier (s : String) : Type 0 where
  pub name : is_name (codes s) ≡ true
  pub no_url : has_part (codes "://") (codes s) ≡ false

pub identifier-IsIdentifier : (s : String) {t : String} → identifier (str s) ≡ ok t → IsIdentifier s
unfolding identifier
identifier-IsIdentifier s e =
    let (_, checked, _) =
      >>=-eq-ok
        (raise_if (not (is_name (codes s)) || has_part (codes "://") (codes s))
          (value_error "must be a 1-256 character metadata identifier"))
        _ e in
    let (a, b) =
      or_split (not (is_name (codes s))) (has_part (codes "://") (codes s))
        (raise_if-eq-ok _ _ checked) in
    record { name = not-false _ a; no_url = b }

-- A classification whose three parts are identifiers.
pub record IsClassification (c : ClassificationResult) : Type 0 where
  pub taxonomy : IsIdentifier c.taxonomy
  pub value : IsIdentifier c.value
  pub producer : IsIdentifier c.producer

pub classification_result-IsClassification :
    (t v p : String) {c : ClassificationResult}
    → classification_result t v p ≡ ok c
    → IsClassification c × (c ≡ record { taxonomy = t; value = v; producer = p })
unfolding classification_result
classification_result-IsClassification t v p {c} e =
    let (_, a, e1) = >>=-eq-ok (identifier (str t)) _ e in
    let (_, b, e2) = >>=-eq-ok (identifier (str v)) _ e1 in
    let (_, d, e3) = >>=-eq-ok (identifier (str p)) _ e2 in
    (
      subst IsClassification (ok-injective e3) (record {
        taxonomy = identifier-IsIdentifier t a;
        value = identifier-IsIdentifier v b;
        producer = identifier-IsIdentifier p d;
      }),
      sym (ok-injective e3),
    )

pub build_with-eq-ok :
    (f : EventFactory) (event_type run_id agent_id : String) (payload : List (String × Value))
    (x : Extra) (now : ℤ) (fresh : String) {event : Value}
    → build_with f event_type run_id agent_id payload x now fresh ≡ ok event
    → build f
        (record {
          event_type = event_type;
          run_id = run_id;
          agent_id = some agent_id;
          workflow_id = x.workflow_id;
          parent_agent_id = x.parent_agent_id;
          task_id = x.task_id;
          trace_id = x.trace_id;
          span_id = x.span_id;
          event_id = x.event_id;
          time_unix_nano = x.time_unix_nano;
          payload = payload ++ x.others;
        })
        now
        fresh
      ≡ ok event
unfolding build_with
build_with-eq-ok f event_type run_id agent_id payload x now fresh e =
    (>>=-eq-ok
      (raise_if (is_given_twice payload x.others)
        (type_error "got multiple values for keyword argument"))
      _ e).2

-- the classification in an event
abbrev pub classification_value : ClassificationResult → Value
classification_value c = dict (
    record_of
      (("taxonomy", str c.taxonomy) ∷ ("value", str c.value) ∷ ("producer", str c.producer) ∷ []))

module _ {A : Type 0} (f : EventFactory) (classify : A → Result (Option ClassificationResult)) where
  -- What a returned event says of a flow, and of the value only what the classifier gave.
  pub record IsFlow (value : A) (p : FlowArguments) (event : Value) : Type 0 where
    pub result : ClassificationResult
    pub answered : classify value ≡ ok (some result)
    pub purpose : IsIdentifier p.purpose
    pub media_type : check_media_type p.media_type ≡ ok tt
    pub holds_classification : Holds event "classification" (classification_value result)
    pub holds_purpose : Holds event "purpose" (str p.purpose)
    pub holds_decision : Holds event "policy_decision" (str p.policy_decision)
    pub holds_source : Holds event "source" (endpoint_value p.source)
    pub holds_destination : Holds event "destination" (endpoint_value p.destination)

  classified-some :
      (answer : Option ClassificationResult) {result : ClassificationResult}
      → classified answer ≡ ok result
      → answer ≡ some result
  classified-some none e = cc
  classified-some (some c) e = ap some (ok-injective e)

  -- A returned data flow event classifies the value as the classifier did, and holds the purpose,
  -- the policy decision and both endpoints that the caller named, whatever else the caller adds to
  -- the envelope; its purpose is a metadata identifier and its media type passed the check.
  pub classified_data_flow-IsFlow :
      (value : A) (p : FlowArguments) (x : Extra) (now : ℤ) (fresh : String) {event : Value}
      → classified_data_flow f classify value p x now fresh ≡ ok event
      → IsFlow value p event
  unfolding classified_data_flow is_reserved find payload_value has_prefix endpoint_value
  classified_data_flow-IsFlow value p x now fresh {event} e =
      let (answer, a, e1) = >>=-eq-ok (classify value) _ e in
      let (result, c, e2) = >>=-eq-ok (classified answer) _ e1 in
      let (_, i, e3) = >>=-eq-ok (identifier (str p.purpose)) _ e2 in
      let (_, m, e4) = >>=-eq-ok (check_media_type p.media_type) _ e3 in
      let built =
        build_with-eq-ok f "data_flow.observed" p.run_id p.agent_id (flow_payload p result) x now
          fresh e4 in
      record {
        result = result;
        answered = a ∙ ap ok (classified-some answer c);
        purpose = identifier-IsIdentifier p.purpose i;
        media_type = m;
        holds_classification =
            Holds-plain f _ now fresh built "classification" (classification_value result) refl refl
              refl;
        holds_purpose = Holds-plain f _ now fresh built "purpose" (str p.purpose) refl refl refl;
        holds_decision =
            Holds-plain f _ now fresh built "policy_decision" (str p.policy_decision) refl refl
              refl;
        holds_source =
            Holds-plain f _ now fresh built "source" (endpoint_value p.source) refl refl refl;
        holds_destination =
            Holds-plain f _ now fresh built "destination" (endpoint_value p.destination) refl refl
              refl;
      }
