-- ===== src/Adapters/AgtApproval/Binding.antt =====
-- adapters/agt_approval.py: what stands behind an approval event that an adapter returned.
use agentrust_telemetry.Base.{
  not-false, ◌≡◌, sym, ap, ◌∙◌, false, String, List, [], ◌∷◌, All, str_eq, eq_iff,
}
use agentrust_telemetry.Base.Integer.{ℤ, ltb_ℤ}
use agentrust_telemetry.Base.Outcome.{ok, >>=-eq-ok, raise_if, raise_if-eq-ok, value_error}
use agentrust_telemetry.Value.{Value}
use agentrust_telemetry.Factory.{EventFactory, build}
use agentrust_telemetry.Adapters.Source.{
  Source, field_of, enum_value, required_string, datetime_ns, digest,
}
use agentrust_telemetry.Adapters.AgtApproval.{
  Correlation, source_event_id, check_pair, check_pairs, request_pairs, resolution_pairs,
  verify_request_binding, verify_resolution_binding, outcome_type, optional_evidence,
  approval_envelope, request_payload, resolution_payload, agt_approval_request,
  agt_approval_resolution,
}

-- Both sources have the same non-empty text under the name.
abbrev pub IsShared : Source → Source → String → Type 0
IsShared left right name =
    (s : String) × (required_string (enum_value (field_of left name)) ≡ ok s)
    × (required_string (enum_value (field_of right name)) ≡ ok s)

check_pair-IsShared :
    (left right : Source) (name : String)
    → check_pair left right name ≡ ok tt
    → IsShared left right name
unfolding check_pair
check_pair-IsShared left right name e =
    let (l, found, e1) = >>=-eq-ok (required_string (enum_value (field_of left name))) _ e in
    let (r, found', e2) = >>=-eq-ok (required_string (enum_value (field_of right name))) _ e1 in
    let same : l ≡ r = (eq_iff l r).0 (not-false (str_eq l r) (raise_if-eq-ok _ _ e2)) in
    (l, found, found' ∙ ap ok (sym same))

pub check_pairs-IsShared :
    (names : List String) (left right : Source)
    → check_pairs names left right ≡ ok tt
    → All (IsShared left right) names
unfolding check_pairs
check_pairs-IsShared [] left right e = tt
check_pairs-IsShared (name ∷ names) left right e =
    let (_, one, rest) = >>=-eq-ok (check_pair left right name) _ e in
    (check_pair-IsShared left right name one, check_pairs-IsShared names left right rest)

-- What a returned request was made of.
pub record IsRequest (f : EventFactory) (uuid5 : String → String) (source policy : Source)
    (c : Correlation) (now : ℤ) (fresh : String) (event : Value) : Type 0 where
  pub shared : All (IsShared source policy) request_pairs
  pub approval_id : String
  pub policy_id : String
  pub agent_id : String
  pub chain_id : String
  pub chain_version : String
  pub approval_found : required_string (field_of source "approval_request_id") ≡ ok approval_id
  pub policy_found : required_string (field_of source "policy_decision_id") ≡ ok policy_id
  pub chain_found : required_string (field_of source "approval_chain_id") ≡ ok chain_id
  pub version_found : required_string (field_of source "approval_chain_version") ≡ ok chain_version
  pub action_digest : Value
  pub digest_found : digest (field_of source "action_digest") ≡ ok action_digest
  pub requested_at : ℤ
  pub expires_at : ℤ
  pub requested : datetime_ns (field_of source "requested_at") ≡ ok requested_at
  pub expires : datetime_ns (field_of source "expires_at") ≡ ok expires_at
  pub built :
      build f
        (approval_envelope "approval.requested" c agent_id
          (source_event_id uuid5 "approval.requested" approval_id)
          requested_at
          (request_payload approval_id
            (source_event_id uuid5 "policy" policy_id)
            chain_id
            chain_version
            action_digest
            requested_at
            expires_at))
        now
        fresh
      ≡ ok event

-- What a returned resolution was made of.
pub record IsResolution (f : EventFactory) (uuid5 : String → String) (resolution request : Source)
    (c : Correlation) (now : ℤ) (fresh : String) (event : Value) : Type 0 where
  pub shared : All (IsShared resolution request) resolution_pairs
  pub event_type : String
  pub outcome : String
  pub outcome_found :
      outcome_type (enum_value (field_of resolution "outcome")) ≡ ok (event_type, outcome)
  pub approval_id : String
  pub policy_id : String
  pub agent_id : String
  pub chain_id : String
  pub chain_version : String
  pub resolution_id : String
  pub approval_found : required_string (field_of resolution "approval_request_id") ≡ ok approval_id
  pub policy_found : required_string (field_of request "policy_decision_id") ≡ ok policy_id
  pub chain_found : required_string (field_of request "approval_chain_id") ≡ ok chain_id
  pub version_found : required_string (field_of request "approval_chain_version") ≡ ok chain_version
  pub action_digest : Value
  pub digest_found : digest (field_of resolution "action_digest") ≡ ok action_digest
  pub requested_at : ℤ
  pub resolved_at : ℤ
  pub expires_at : ℤ
  pub requested : datetime_ns (field_of request "requested_at") ≡ ok requested_at
  pub resolved : datetime_ns (field_of resolution "resolved_at") ≡ ok resolved_at
  pub expires : datetime_ns (field_of request "expires_at") ≡ ok expires_at
  pub in_order : ltb_ℤ resolved_at requested_at ≡ false
  pub evidence : List (String × Value)
  pub built :
      build f
        (approval_envelope event_type c agent_id
          (source_event_id uuid5 "approval.resolution" resolution_id)
          resolved_at
          (resolution_payload approval_id
            (source_event_id uuid5 "policy" policy_id)
            chain_id
            chain_version
            action_digest
            requested_at
            expires_at
            resolution_id
            outcome
            evidence))
        now
        fresh
      ≡ ok event

module _ (f : EventFactory) (uuid5 : String → String) where
  pub agt_approval_request-IsRequest :
      (source policy : Source) (c : Correlation) (now : ℤ) (fresh : String) {event : Value}
      → agt_approval_request f uuid5 source policy c now fresh ≡ ok event
      → IsRequest f uuid5 source policy c now fresh event
  unfolding agt_approval_request verify_request_binding
  agt_approval_request-IsRequest source policy c now fresh e =
      let (_, shared, e1) = >>=-eq-ok (check_pairs request_pairs source policy) _ e in
      let (approval_id, a, e2) =
        >>=-eq-ok (required_string (field_of source "approval_request_id")) _ e1 in
      let (policy_id, p, e3) =
        >>=-eq-ok (required_string (field_of source "policy_decision_id")) _ e2 in
      let (agent_id, g, e4) = >>=-eq-ok (required_string (field_of source "agent_id")) _ e3 in
      let (requested_at, r, e5) = >>=-eq-ok (datetime_ns (field_of source "requested_at")) _ e4 in
      let (chain_id, ch, e6) =
        >>=-eq-ok (required_string (field_of source "approval_chain_id")) _ e5 in
      let (chain_version, v, e7) =
        >>=-eq-ok (required_string (field_of source "approval_chain_version")) _ e6 in
      let (action_digest, d, e8) = >>=-eq-ok (digest (field_of source "action_digest")) _ e7 in
      let (expires_at, x, e9) = >>=-eq-ok (datetime_ns (field_of source "expires_at")) _ e8 in
      record {
        shared = check_pairs-IsShared request_pairs source policy shared;
        approval_id = approval_id;
        policy_id = policy_id;
        agent_id = agent_id;
        chain_id = chain_id;
        chain_version = chain_version;
        approval_found = a;
        policy_found = p;
        chain_found = ch;
        version_found = v;
        action_digest = action_digest;
        digest_found = d;
        requested_at = requested_at;
        expires_at = expires_at;
        requested = r;
        expires = x;
        built = e9;
      }

  -- A returned resolution agrees with its request on the request's id, the action's digest and both
  -- versions, its outcome has an event type, and it was not resolved before the request was made.
  pub agt_approval_resolution-IsResolution :
      (resolution request : Source) (c : Correlation) (now : ℤ) (fresh : String) {event : Value}
      → agt_approval_resolution f uuid5 resolution request c now fresh ≡ ok event
      → IsResolution f uuid5 resolution request c now fresh event
  unfolding agt_approval_resolution verify_resolution_binding
  agt_approval_resolution-IsResolution resolution request c now fresh e =
      let (_, shared, e1) = >>=-eq-ok (check_pairs resolution_pairs resolution request) _ e in
      let (kind, o, e2) =
        >>=-eq-ok (outcome_type (enum_value (field_of resolution "outcome"))) _ e1 in
      let (approval_id, a, e3) =
        >>=-eq-ok (required_string (field_of resolution "approval_request_id")) _ e2 in
      let (resolved_at, t, e4) = >>=-eq-ok (datetime_ns (field_of resolution "resolved_at")) _ e3 in
      let (requested_at, r, e5) = >>=-eq-ok (datetime_ns (field_of request "requested_at")) _ e4 in
      let (_, order, e6) =
        >>=-eq-ok
          (raise_if (ltb_ℤ resolved_at requested_at)
            (value_error "AGT approval resolution cannot predate its request"))
          _ e5 in
      let (evidence, _, e7) =
        >>=-eq-ok (optional_evidence (field_of resolution "final_entry_digest")) _ e6 in
      let (policy_id, p, e8) =
        >>=-eq-ok (required_string (field_of request "policy_decision_id")) _ e7 in
      let (resolution_id, _, e9) =
        >>=-eq-ok (required_string (field_of resolution "approval_resolution_id")) _ e8 in
      let (agent_id, _, e10) = >>=-eq-ok (required_string (field_of request "agent_id")) _ e9 in
      let (chain_id, ch, e11) =
        >>=-eq-ok (required_string (field_of request "approval_chain_id")) _ e10 in
      let (chain_version, v, e12) =
        >>=-eq-ok (required_string (field_of request "approval_chain_version")) _ e11 in
      let (action_digest, d, e13) =
        >>=-eq-ok (digest (field_of resolution "action_digest")) _ e12 in
      let (expires_at, x, e14) = >>=-eq-ok (datetime_ns (field_of request "expires_at")) _ e13 in
      record {
        shared = check_pairs-IsShared resolution_pairs resolution request shared;
        event_type = kind.0;
        outcome = kind.1;
        outcome_found = o;
        approval_id = approval_id;
        policy_id = policy_id;
        agent_id = agent_id;
        chain_id = chain_id;
        chain_version = chain_version;
        resolution_id = resolution_id;
        approval_found = a;
        policy_found = p;
        chain_found = ch;
        version_found = v;
        action_digest = action_digest;
        digest_found = d;
        requested_at = requested_at;
        resolved_at = resolved_at;
        expires_at = expires_at;
        requested = r;
        resolved = t;
        expires = x;
        in_order = raise_if-eq-ok _ _ order;
        evidence = evidence;
        built = e14;
      }
