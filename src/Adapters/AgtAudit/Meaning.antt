-- ===== src/Adapters/AgtAudit/Meaning.antt =====
-- adapters/agt_audit.py: what the events of an audit log say about the rows.
use mathlib.Core.Path.{subst}
use agentrust_telemetry.Base.{
  ◌≡◌, refl, sym, ap, ◌∙◌, ◌↔◌, ◌≢◌, inl, inr, false, String, none, str_eq, eq_iff, Bool-cases, ◌+◌,
  ◌-◌, arith, ℕ,
}
use agentrust_telemetry.Base.Integer.{ℤ, pos, negsuc, ◌+ℤ◌, ltb_ℤ}
use agentrust_telemetry.Base.Outcome.{
  ok, >>=-eq-ok, ok-injective, raise_if, raise_if-eq-ok, value_error,
}
use agentrust_telemetry.Value.{str-injective, Value, int, str}
use agentrust_telemetry.Value.Words.{has_prefix}
use agentrust_telemetry.Factory.{EventFactory, is_reserved, payload_value}
use agentrust_telemetry.Factory.Payload.{Holds, Holds-injective, Holds-plain, find}
use agentrust_telemetry.Adapters.Source.{
  plain, Source, field_of, required_string, optional_string, datetime_ns, named, mapped,
}
use agentrust_telemetry.Adapters.Source.Table.{named-Some, mapped-eq-ok, required_string-eq-ok}
use agentrust_telemetry.Adapters.AgtAudit.{
  action_outcome, action_outcomes, action_events, minus, is_none, audit_duration, ActionArguments,
  is_other, target_field, outcome_of, duration_of, agt_audit_action,
}

minus-pos : (a b : ℤ) → ltb_ℤ a b ≡ false → (n : ℕ) × (minus a b ≡ pos n) × (a ≡ b +ℤ pos n)
unfolding ◌+ℤ◌
minus-pos (pos a) (pos b) h = (a - b, ground arith, ground arith)
minus-pos (pos a) (negsuc b) h = (a + b + 1, ground arith, ground arith)
minus-pos (negsuc a) (pos b) h = ground arith
minus-pos (negsuc a) (negsuc b) h = (b - a, ground arith, ground arith)

-- What stands behind a duration that the row itself gives.
audit_duration-eq-ok :
    (source : Source) {d : ℤ}
    → audit_duration source ≡ ok d
    → (issued : ℤ) × (n : ℕ) × (d ≡ pos n)
      × (datetime_ns (field_of source "issued_at") ≡ ok issued)
      × (datetime_ns (field_of source "completed_at") ≡ ok (issued +ℤ pos n))
unfolding audit_duration
audit_duration-eq-ok source e =
    let why =
      value_error "AGT action audit requires duration_ns or both issued_at and completed_at" in
    let (_, _, e1) = >>=-eq-ok (raise_if (is_none (field_of source "issued_at")) why) _ e in
    let (_, _, e2) = >>=-eq-ok (raise_if (is_none (field_of source "completed_at")) why) _ e1 in
    let (issued, started, e3) = >>=-eq-ok (datetime_ns (field_of source "issued_at")) _ e2 in
    let (completed, ended, e4) = >>=-eq-ok (datetime_ns (field_of source "completed_at")) _ e3 in
    let (_, order, e5) =
      >>=-eq-ok
        (raise_if (ltb_ℤ completed issued)
          (value_error "AGT completed_at cannot predate issued_at"))
        _ e4 in
    let (n, size, sum) = minus-pos completed issued (raise_if-eq-ok _ _ order) in
    (issued, n, sym (ok-injective e5) ∙ size, started, ended ∙ ap ok sum)

attribute_same : {s t : String} → plain (str s) ≡ plain (str t) → s ≡ t
attribute_same e = cc

module _ (f : EventFactory) (uuid5 : String → String) (source : Source) where
  -- What a returned action was made of.
  pub record IsAction (p : ActionArguments) (now : ℤ) (fresh : String) (event : Value)
      : Type 0 where
    pub event_type : String
    pub outcome : String
    pub duration : ℤ
    pub type_found : required_string (field_of source "event_type") ≡ ok event_type
    pub outcome_found : outcome_of event_type source ≡ ok outcome
    pub duration_found : duration_of p.duration_ns source ≡ ok duration
    pub holds_outcome : Holds event "outcome" (str outcome)
    pub holds_duration : Holds event "duration_ns" (int duration)

  agt_audit_action-IsAction :
      (p : ActionArguments) (now : ℤ) (fresh : String) {event : Value}
      → agt_audit_action f uuid5 source p now fresh ≡ ok event
      → IsAction p now fresh event
  unfolding agt_audit_action is_reserved find payload_value has_prefix
  agt_audit_action-IsAction p now fresh e =
      let (event_type, kind, e1) = >>=-eq-ok (required_string (field_of source "event_type")) _ e in
      let (_, _, e2) =
        >>=-eq-ok
          (raise_if (is_other event_type action_events)
            (value_error "AGT audit event is not an action event"))
          _ e1 in
      let (entry_id, _, e3) = >>=-eq-ok (required_string (field_of source "entry_id")) _ e2 in
      let (outcome, o, e4) = >>=-eq-ok (outcome_of event_type source) _ e3 in
      let (duration, d, e5) = >>=-eq-ok (duration_of p.duration_ns source) _ e4 in
      let (target, _, e6) = >>=-eq-ok (target_field (field_of source "target_did")) _ e5 in
      let (agent_id, _, e7) = >>=-eq-ok (required_string (field_of source "agent_did")) _ e6 in
      let (time, _, e8) = >>=-eq-ok (datetime_ns (field_of source "timestamp")) _ e7 in
      let (trace_id, _, e9) = >>=-eq-ok (optional_string (field_of source "trace_id")) _ e8 in
      let (action, _, e10) = >>=-eq-ok (required_string (field_of source "action")) _ e9 in
      let (operation, _, e11) = >>=-eq-ok (required_string (plain (str p.operation))) _ e10 in
      record {
        event_type = event_type;
        outcome = outcome;
        duration = duration;
        type_found = kind;
        outcome_found = o;
        duration_found = d;
        holds_outcome = Holds-plain f _ now fresh e11 "outcome" (str outcome) refl refl refl;
        holds_duration = Holds-plain f _ now fresh e11 "duration_ns" (int duration) refl refl refl;
      }

  -- The duration of a returned action that the caller gave none for is not negative: it is the
  -- time from the row's `issued_at` to its `completed_at`, both of which have a time zone.
  pub agt_audit_action-duration :
      (p : ActionArguments) (now : ℤ) (fresh : String) {event : Value}
      → agt_audit_action f uuid5 source p now fresh ≡ ok event
      → p.duration_ns ≡ none
      → (issued : ℤ) × (n : ℕ) × (datetime_ns (field_of source "issued_at") ≡ ok issued)
        × (datetime_ns (field_of source "completed_at") ≡ ok (issued +ℤ pos n))
        × Holds event "duration_ns" (int (pos n))
  unfolding duration_of
  agt_audit_action-duration p now fresh {event} e none_given =
      let a = agt_audit_action-IsAction p now fresh e in
      let own : audit_duration source ≡ ok a.duration =
        sym (ap (λ d. duration_of d source) none_given) ∙ a.duration_found in
      let (issued, n, size, started, ended) = audit_duration-eq-ok source own in
      (
        issued,
        n,
        started,
        ended,
        subst (λ d. Holds event "duration_ns" (int d)) size a.holds_duration,
      )

  succeeded :
      (event_type : String)
      → outcome_of event_type source ≡ ok "success"
      → (event_type ≢ "tool_blocked") × (field_of source "outcome" ≡ plain (str "success"))
  unfolding outcome_of action_outcome
  succeeded event_type e = elim (Bool-cases (str_eq event_type "tool_blocked")) [
    | inl t ↦
        let denied : outcome_of event_type source ≡ ok "denied" = rw t refl in
        let never = ap (str_eq "denied") (ok-injective (sym denied ∙ e)) in cc
    | inr n ↦
        let own : outcome_of event_type source ≡ action_outcome (field_of source "outcome") =
          rw n refl in
        let (s, is, there) =
          mapped-eq-ok _ action_outcomes (field_of source "outcome") (sym own ∙ e) in
        (
          λ blocked. let same = (eq_iff event_type "tool_blocked").1 blocked in cc,
          elim (named-Some s action_outcomes there) [
            | inl known ↦ is ∙ ap (λ k. plain (str k)) known
            | inr other ↦ absurd other
          ],
        )
  ]

  succeeds :
      (event_type : String)
      → event_type ≢ "tool_blocked"
      → field_of source "outcome" ≡ plain (str "success")
      → outcome_of event_type source ≡ ok "success"
  unfolding outcome_of action_outcome mapped named
  succeeds event_type open_tool own = elim (Bool-cases (str_eq event_type "tool_blocked")) [
    | inl t ↦ absurd (open_tool ((eq_iff event_type "tool_blocked").0 t))
    | inr n ↦ rw (n, own) refl
  ]

  -- A returned action says that it succeeded exactly if its row does: the row is not of a blocked
  -- tool, and its own outcome is "success".
  pub agt_audit_action-success :
      (p : ActionArguments) (now : ℤ) (fresh : String) {event : Value}
      → agt_audit_action f uuid5 source p now fresh ≡ ok event
      → (Holds event "outcome" (str "success")) ↔ (
          (field_of source "event_type" ≢ plain (str "tool_blocked"))
          × (field_of source "outcome" ≡ plain (str "success")))
  agt_audit_action-success p now fresh {event} e =
      let a = agt_audit_action-IsAction p now fresh e in
      let row = required_string-eq-ok (field_of source "event_type") a.type_found in
      (
        λ h.
            let (open_tool, own) = succeeded a.event_type (
              a.outcome_found
              ∙ ap ok (str-injective (Holds-injective event "outcome" a.holds_outcome h))) in
            (λ blocked. open_tool (attribute_same (sym row ∙ blocked)), own),
        λ (open_tool, own).
            subst (λ t. Holds event "outcome" (str t))
              (ok-injective (
                sym a.outcome_found
                ∙ succeeds a.event_type
                    (λ blocked. open_tool (row ∙ ap (λ t. plain (str t)) blocked)) own))
              a.holds_outcome,
      )
