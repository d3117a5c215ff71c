-- ===== src/Adapters/AgtAudit/Decision.antt =====
-- `agt_audit_policy_decision` of adapters/agt_audit.py: which rows become which decisions.
use mathlib.Core.Path.{subst}
use agentrust_telemetry.Base.{
  ◌≡◌, refl, sym, ap, ◌∙◌, ◌↔◌, inl, inr, String, [], ◌∷◌, Some, Some-map,
}
use agentrust_telemetry.Base.Integer.{ℤ}
use agentrust_telemetry.Base.Outcome.{ok, >>=-eq-ok, ok-injective, raise_if, value_error}
use agentrust_telemetry.Value.{str-injective, Value, str}
use agentrust_telemetry.Value.Words.{has_prefix}
use agentrust_telemetry.Factory.{EventFactory, is_reserved, payload_value}
use agentrust_telemetry.Factory.Payload.{Holds, Holds-injective, Holds-plain, find}
use agentrust_telemetry.Adapters.Source.{
  plain, Source, field_of, required_string, optional_string, datetime_ns, named, mapped,
}
use agentrust_telemetry.Adapters.Source.Table.{named-Some, mapped-eq-ok}
use agentrust_telemetry.Adapters.AgtAudit.{
  policy_events, policy_decisions, policy_decision, DecisionArguments, is_other, given_text,
  agt_audit_policy_decision,
}

module _ (f : EventFactory) (uuid5 : String → String) (source : Source) where
  decision_held :
      (p : DecisionArguments) (now : ℤ) (fresh : String) {event : Value}
      → agt_audit_policy_decision f uuid5 source p now fresh ≡ ok event
      → (decision : String) × (policy_decision (field_of source "policy_decision") ≡ ok decision)
        × Holds event "decision" (str decision)
  unfolding agt_audit_policy_decision is_reserved find payload_value has_prefix
  decision_held p now fresh e =
      let (event_type, _, e1) = >>=-eq-ok (required_string (field_of source "event_type")) _ e in
      let (_, _, e2) =
        >>=-eq-ok
          (raise_if (is_other event_type policy_events)
            (value_error "AGT audit event is not a policy event"))
          _ e1 in
      let (decision, found, e3) =
        >>=-eq-ok (policy_decision (field_of source "policy_decision")) _ e2 in
      let (entry_id, _, e4) = >>=-eq-ok (required_string (field_of source "entry_id")) _ e3 in
      let (engine_version, _, e5) =
        >>=-eq-ok (required_string (plain (str p.policy_engine_version))) _ e4 in
      let (policy_id, _, e6) =
        >>=-eq-ok (given_text "policy_id" (field_of source "matched_rule")) _ e5 in
      let (agent_id, _, e7) = >>=-eq-ok (required_string (field_of source "agent_did")) _ e6 in
      let (time, _, e8) = >>=-eq-ok (datetime_ns (field_of source "timestamp")) _ e7 in
      let (trace_id, _, e9) = >>=-eq-ok (optional_string (field_of source "trace_id")) _ e8 in
      let (action, _, e10) = >>=-eq-ok (required_string (field_of source "action")) _ e9 in
      let (resource_type, _, e11) =
        >>=-eq-ok (required_string (plain (str p.resource_type))) _ e10 in
      (decision, found, Holds-plain f _ now fresh e11 "decision" (str decision) refl refl refl)

  allowing :
      (decision : String)
      → policy_decision (field_of source "policy_decision") ≡ ok decision
      → decision ≡ "allow"
      → Some (λ k. field_of source "policy_decision" ≡ plain (str k)) ("allow" ∷ "allowed" ∷ [])
  unfolding policy_decision
  allowing decision found allow =
      let (s, is, there) =
        mapped-eq-ok _ policy_decisions (field_of source "policy_decision") (found ∙ ap ok allow) in
      Some-map {P = λ k. s ≡ k} {Q = λ k. field_of source "policy_decision" ≡ plain (str k)}
        (λ k same. is ∙ ap (λ t. plain (str t)) same) ("allow" ∷ "allowed" ∷ [])
        (named-Some s policy_decisions there)

  allowed :
      Some (λ k. field_of source "policy_decision" ≡ plain (str k)) ("allow" ∷ "allowed" ∷ [])
      → policy_decision (field_of source "policy_decision") ≡ ok "allow"
  unfolding policy_decision mapped named
  allowed (inl e) = rw e refl
  allowed (inr (inl e)) = rw e refl
  allowed (inr (inr other)) = absurd other

  -- A returned decision allows the action exactly if its row says "allow" or "allowed": nothing
  -- that the row denies, defers or misspells becomes an allowing event.
  pub agt_audit_policy_decision-allow :
      (p : DecisionArguments) (now : ℤ) (fresh : String) {event : Value}
      → agt_audit_policy_decision f uuid5 source p now fresh ≡ ok event
      → (Holds event "decision" (str "allow"))
        ↔ Some (λ k. field_of source "policy_decision" ≡ plain (str k)) ("allow" ∷ "allowed" ∷ [])
  agt_audit_policy_decision-allow p now fresh {event} e =
      let (decision, found, held) = decision_held p now fresh e in
      (
        λ h. allowing decision found (str-injective (Holds-injective event "decision" held h)),
        λ says.
            subst (λ t. Holds event "decision" (str t)) (ok-injective (sym found ∙ allowed says))
              held,
      )
