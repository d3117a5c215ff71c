-- ===== src/Trace/Approvals/Laws.antt =====
-- `_bound_approvals` of trace_adapter.py: what stands behind a returned approval.
use agentrust_telemetry.Base.{
  ◌≡◌, ap, ◌∙◌, inl, inr, Bool, true, false, ◌&&◌, String, List, [], ◌∷◌, All, Some, arith,
  if◌then◌else◌, All-map, Bool-cases, and_split,
}
use agentrust_telemetry.Base.Integer.{ℤ, ◌≤ℤ◌, leb_ℤ, leb_ℤ_iff}
use agentrust_telemetry.Base.Outcome.{Result, ok, ok-injective, >>=-eq-ok}
use agentrust_telemetry.Value.{Value}
use agentrust_telemetry.Value.Equality.{eq_value}
use agentrust_telemetry.Value.Access.{get_item, has_key}
use agentrust_telemetry.Value.Number.{to_int}
use agentrust_telemetry.Trace.Events.{of_type, has_type, filter_result}
use agentrust_telemetry.Trace.Events.Laws.{filter_result-kept, filter_result-Some}
use agentrust_telemetry.Trace.Approvals.{
  binding_fields, field_differs, some_differs, or_continue, in_window, answers, some_answered,
  is_bound, bound_approvals,
}

abbrev pub SameField : Value → Value → String → Type 0
SameField approval request name =
    (left : Value) × (right : Value) × (get_item approval name ≡ ok left)
    × (get_item request name ≡ ok right)
    × (eq_value left right ≡ true)

-- the number under a field, as `int` reads it
abbrev pub TimeAt : Value → String → ℤ → Type 0
TimeAt event name t = (v : Value) × (get_item event name ≡ ok v) × (to_int v ≡ ok t)

-- An approval that answers a request: all seven binding fields agree, and it was resolved not
-- before the request was made and not after it expired.
pub record Answered (approval request : Value) : Type 0 where
  pub agree : All (SameField approval request) binding_fields
  pub requested_at : ℤ
  pub requested : TimeAt request "requested_at_unix_nano" requested_at
  pub approved_at : ℤ
  pub approved : TimeAt approval "time_unix_nano" approved_at
  pub expires_at : ℤ
  pub expires : TimeAt request "expires_at_unix_nano" expires_at
  pub not_early : requested_at ≤ℤ approved_at
  pub not_late : approved_at ≤ℤ expires_at

field_differs-eq-false :
    (approval request : Value) (name : String)
    → field_differs approval request name ≡ ok false
    → SameField approval request name
unfolding field_differs
field_differs-eq-false approval request name h =
    let (here, e0, e1) = >>=-eq-ok (has_key approval name) _ h in
    let (there, e2, e3) = >>=-eq-ok (if here then has_key request name else ok false) _ e1 in
    elim (Bool-cases (here && there)) [
      | inr missing ↦ ground arith
      | inl present ↦
          let e4 = rw present at e3 in
          let (left, found, e5) = >>=-eq-ok (get_item approval name) _ e4 in
          let (right, found', e6) = >>=-eq-ok (get_item request name) _ e5 in
          (left, right, found, found', ground arith)
    ]

some_differs-eq-false :
    (names : List String) (approval request : Value)
    → some_differs names approval request ≡ ok false
    → All (SameField approval request) names
unfolding some_differs
some_differs-eq-false [] approval request h = tt
some_differs-eq-false (name ∷ names) approval request h =
    let (differs, tested, e1) = >>=-eq-ok (field_differs approval request name) _ h in
    elim (Bool-cases differs) [
      | inl d ↦ ground arith
      | inr d ↦ (
        field_differs-eq-false approval request name (tested ∙ ap ok d),
        some_differs-eq-false names approval request (rw d at e1),
      )
    ]

or_continue-eq-true : (r : Result Bool) → or_continue r ≡ ok true → r ≡ ok true
unfolding or_continue
or_continue-eq-true r h = ground arith

window :
    (approval request : Value)
    → All (SameField approval request) binding_fields
    → in_window approval request ≡ ok true
    → Answered approval request
unfolding in_window
window approval request agree h =
    let (v, f1, e1) = >>=-eq-ok (get_item request "requested_at_unix_nano") _ h in
    let (a, n1, e2) = >>=-eq-ok (to_int v) _ e1 in
    let (w, f2, e3) = >>=-eq-ok (get_item approval "time_unix_nano") _ e2 in
    let (b, n2, e4) = >>=-eq-ok (to_int w) _ e3 in
    let (u, f3, e5) = >>=-eq-ok (get_item request "expires_at_unix_nano") _ e4 in
    let (c, n3, e6) = >>=-eq-ok (to_int u) _ e5 in
    let (early, late) = and_split (leb_ℤ a b) (leb_ℤ b c) (ok-injective e6) in
    record {
      agree = agree;
      requested_at = a;
      requested = (v, f1, n1);
      approved_at = b;
      approved = (w, f2, n2);
      expires_at = c;
      expires = (u, f3, n3);
      not_early = (leb_ℤ_iff a b).0 early;
      not_late = (leb_ℤ_iff b c).0 late;
    }

pub answers-eq-true :
    (approval request : Value) → answers approval request ≡ ok true → Answered approval request
unfolding answers
answers-eq-true approval request h =
    let (differs, compared, e1) = >>=-eq-ok (some_differs binding_fields approval request) _ h in
    elim (Bool-cases differs) [
      | inl d ↦ ground arith
      | inr d ↦
          let e2 = rw d at e1 in
          window approval request
            (some_differs-eq-false binding_fields approval request (compared ∙ ap ok d))
            (or_continue-eq-true (in_window approval request) e2)
    ]

pub some_answered-eq-true :
    (approval : Value) (requests : List Value)
    → some_answered approval requests ≡ ok true
    → Some (Answered approval) requests
unfolding some_answered
some_answered-eq-true approval [] h = cc
some_answered-eq-true approval (r ∷ rs) h =
    let (a, tested, e1) = >>=-eq-ok (answers approval r) _ h in
    elim (Bool-cases a) [
      | inl t ↦ inl (answers-eq-true approval r (tested ∙ ap ok t))
      | inr t ↦ inr (some_answered-eq-true approval rs (rw t at e1))
    ]

pub is_bound-eq-true :
    (requests : List Value) (approval : Value)
    → is_bound requests approval ≡ ok true
    → (has_type "approval.approved" approval ≡ ok true) × Some (Answered approval) requests
unfolding is_bound
is_bound-eq-true requests approval h =
    let (a, tested, e1) = >>=-eq-ok (has_type "approval.approved" approval) _ h in
    elim (Bool-cases a) [
      | inl t ↦ (tested ∙ ap ok t, some_answered-eq-true approval requests (rw t at e1))
      | inr t ↦ ground arith
    ]

-- Every approval that is returned is an `approval.approved` event, and answers an
-- `approval.requested` event of the same list.
pub bound_approvals_lem :
    (approvals : List Value) {bound : List Value}
    → bound_approvals approvals ≡ ok bound
    → All
        (λ a.
          (has_type "approval.approved" a ≡ ok true)
          × Some (λ r. (has_type "approval.requested" r ≡ ok true) × Answered a r) approvals)
        bound
unfolding bound_approvals of_type
bound_approvals_lem approvals {bound} h =
    let (requests, asked, e1) =
      >>=-eq-ok (filter_result (has_type "approval.requested") approvals) _ h in
    All-map
      (λ a kept.
        let (approved, some_request) = is_bound-eq-true requests a kept in
        (
          approved,
          filter_result-Some (Answered a) (has_type "approval.requested") approvals asked
              some_request,
        ))
      bound (filter_result-kept (is_bound requests) approvals e1)
