-- ===== src/Trace/Actions/Laws.antt =====
-- `_action_approval_binding` of trace_adapter.py: what stands behind `bound`.
use agentrust_telemetry.Base.{
  ◌≡◌, refl, ap, ◌∙◌, ◌⊎◌, inl, inr, true, false, not, ◌||◌, List, [], ◌∷◌, All, Some, arith,
  if◌then◌else◌, Bool-cases, or_split,
}
use agentrust_telemetry.Base.Integer.{ℤ, ◌≤ℤ◌, ltb_ℤ_iff}
use agentrust_telemetry.Base.Outcome.{ok, ok-injective, >>=-eq-ok}
use agentrust_telemetry.Value.{Value}
use agentrust_telemetry.Value.Access.{get_item, get}
use agentrust_telemetry.Value.Number.{to_int}
use agentrust_telemetry.Trace.Events.{Mapping, filter_result}
use agentrust_telemetry.Trace.Events.Laws.{filter_result-Some}
use agentrust_telemetry.Trace.Approvals.{same_digest, is_bound}
use agentrust_telemetry.Trace.Approvals.Laws.{TimeAt, Answered, is_bound-eq-true}
use agentrust_telemetry.Trace.Actions.{
  ActionBinding, bound, unresolved, contradicted, has_run, is_gated, is_candidate, other_policy,
  contradicts, Verdict, judge, judge_all, action_verdict, ran_binding, action_binding, bind_actions,
}

-- An approval that covers an action: it has the action's digest, names no other policy event, was
-- resolved no later than the action completed, and answers a request.
pub record Covers (requests : List Value) (action policy_event_id approval : Value) : Type 0 where
  pub approved_digest : Value
  pub approved_found : get_item approval "action_digest" ≡ ok approved_digest
  pub action_digest : Value
  pub action_found : get_item action "action_digest" ≡ ok action_digest
  pub digests : same_digest approved_digest action_digest ≡ true
  pub approval_policy : Value
  pub policy_found : get approval "policy_event_id" ≡ ok approval_policy
  pub same_policy : other_policy approval_policy policy_event_id ≡ false
  pub resolved_at : ℤ
  pub resolved : TimeAt approval "time_unix_nano" resolved_at
  pub completed_at : ℤ
  pub completed : TimeAt action "time_unix_nano" completed_at
  pub in_time : resolved_at ≤ℤ completed_at
  pub answered : Some (Answered approval) requests

module _ (requests : List Value) (action policy_event_id : Value) where
  Covers-of_judgement :
      (completed_at : ℤ) (approval : Value)
      → TimeAt action "time_unix_nano" completed_at
      → contradicts action policy_event_id completed_at approval ≡ ok false
      → is_bound requests approval ≡ ok true
      → Covers requests action policy_event_id approval
  unfolding contradicts
  Covers-of_judgement completed_at approval completed h b =
      let (policy, f1, e1) = >>=-eq-ok (get approval "policy_event_id") _ h in
      let (digest, f2, e2) = >>=-eq-ok (get_item approval "action_digest") _ e1 in
      let (wanted, f3, e3) = >>=-eq-ok (get_item action "action_digest") _ e2 in
      let test = not (same_digest digest wanted) || other_policy policy policy_event_id in
      elim (Bool-cases test) [
        | inl bad ↦ ground arith
        | inr good ↦
            let (same, policies) =
              or_split (not (same_digest digest wanted)) (other_policy policy policy_event_id)
                good in
            let e4 = rw good at e3 in
            let (v, f4, e5) = >>=-eq-ok (get_item approval "time_unix_nano") _ e4 in
            let (t, n, e6) = >>=-eq-ok (to_int v) _ e5 in
            record {
              approved_digest = digest;
              approved_found = f2;
              action_digest = wanted;
              action_found = f3;
              digests = ground arith;
              approval_policy = policy;
              policy_found = f1;
              same_policy = policies;
              resolved_at = t;
              resolved = (v, f4, n);
              completed_at = completed_at;
              completed = completed;
              in_time = (ltb_ℤ_iff completed_at t).0 (ok-injective e6);
              answered = (is_bound-eq-true requests approval b).1;
            }
      ]

  -- a candidate that sets `satisfied` covers the action
  judge-satisfied :
      (completed_at : ℤ) (approval : Value) (v : Verdict) {v' : Verdict}
      → TimeAt action "time_unix_nano" completed_at
      → judge requests action policy_event_id completed_at approval v ≡ ok v'
      → v'.satisfied ≡ true
      → (v.satisfied ≡ true) ⊎ Covers requests action policy_event_id approval
  unfolding judge
  judge-satisfied completed_at approval v completed h s =
      let (against, tested, e1) =
        >>=-eq-ok (contradicts action policy_event_id completed_at approval) _ h in
      elim (Bool-cases against) [
        | inl t ↦ inl (ground arith)
        | inr t ↦
            let e2 = rw t at e1 in
            let (here, looked, e3) = >>=-eq-ok (is_bound requests approval) _ e2 in
            elim (Bool-cases here) [
              | inl yes_bound ↦ inr (
                  Covers-of_judgement completed_at approval completed (tested ∙ ap ok t)
                    (looked ∙ ap ok yes_bound))
              | inr not_bound ↦ inl (ground arith)
            ]
      ]

  judge_all-satisfied :
      (completed_at : ℤ) (approvals : List Value) (v : Verdict) {v' : Verdict}
      → TimeAt action "time_unix_nano" completed_at
      → judge_all requests action policy_event_id completed_at approvals v ≡ ok v'
      → v'.satisfied ≡ true
      → (v.satisfied ≡ true) ⊎ Some (Covers requests action policy_event_id) approvals
  unfolding judge_all
  judge_all-satisfied completed_at [] v completed h s =
      inl (ap (λ (u : Verdict). u.satisfied) (ok-injective h) ∙ s)
  judge_all-satisfied completed_at (a ∷ as_rest) v completed h s =
      let (u, judged, e1) =
        >>=-eq-ok (judge requests action policy_event_id completed_at a v) _ h in
      elim (judge_all-satisfied completed_at as_rest u completed e1 s) [
        | inr later ↦ inr (inr later)
        | inl now ↦ elim (judge-satisfied completed_at a v completed judged now) [
          | inl before ↦ inl before
          | inr covers ↦ inr (inl covers)
        ]
      ]

  -- A satisfied action has an approved candidate that covers it.
  action_verdict-satisfied :
      (approved : List Value) (approval_id : Value) {v : Verdict}
      → action_verdict requests approved action approval_id policy_event_id ≡ ok v
      → v.satisfied ≡ true
      → Some
          (λ a.
            (is_candidate approval_id policy_event_id a ≡ ok true)
            × Covers requests action policy_event_id a)
          approved
  unfolding action_verdict
  action_verdict-satisfied approved approval_id h s =
      let (candidates, chosen, e1) =
        >>=-eq-ok (filter_result (is_candidate approval_id policy_event_id) approved) _ h in
      let (t, f, e2) = >>=-eq-ok (get_item action "time_unix_nano") _ e1 in
      let (completed_at, n, e3) = >>=-eq-ok (to_int t) _ e2 in
      elim (judge_all-satisfied completed_at candidates _ (t, f, n) e3 s) [
        | inl e ↦ cc
        | inr there ↦
            filter_result-Some (Covers requests action policy_event_id)
              (is_candidate approval_id policy_event_id) approved chosen there
      ]

-- What a run shows of an executed, gated action with the ids that it names.
abbrev pub IsCovered : Mapping → List Value → List Value → Value → Type 0
IsCovered decisions requests approved action =
    has_run action ≡ ok true
    → (approval_id policy_event_id : Value) → get action "approval_id" ≡ ok approval_id
    → get action "policy_event_id" ≡ ok policy_event_id
    → is_gated decisions approval_id policy_event_id ≡ ok true
    → Some
        (λ a.
          (is_candidate approval_id policy_event_id a ≡ ok true)
          × Covers requests action policy_event_id a)
        approved

satisfied_of_bound :
    (v : Verdict)
    → ok (if v.satisfied then bound else if v.contradicted then contradicted else unresolved)
      ≡ ok bound
    → v.satisfied ≡ true
satisfied_of_bound v e = ground arith

ran_binding-bound :
    (decisions : Mapping) (requests approved : List Value)
    (action approval_id policy_event_id : Value)
    → ran_binding decisions requests approved action approval_id policy_event_id ≡ ok bound
    → is_gated decisions approval_id policy_event_id ≡ ok true
    → Some
        (λ a.
          (is_candidate approval_id policy_event_id a ≡ ok true)
          × Covers requests action policy_event_id a)
        approved
unfolding ran_binding
ran_binding-bound decisions requests approved action approval_id policy_event_id h gated =
    let e1 = rw gated at h in
    let (v, judged, e2) =
      >>=-eq-ok (action_verdict requests approved action approval_id policy_event_id) _ e1 in
    action_verdict-satisfied requests action policy_event_id approved approval_id judged
      (satisfied_of_bound v e2)

action_binding-bound :
    (decisions : Mapping) (requests approved : List Value) (event : Value)
    → action_binding decisions requests approved event ≡ ok bound
    → IsCovered decisions requests approved event
unfolding action_binding
action_binding-bound decisions requests approved event h ran approval_id policy_event_id f g gated =
    ran_binding-bound decisions requests approved event approval_id policy_event_id
      (rw (ran, f, g) at h) gated

module _ (decisions : Mapping) (requests approved : List Value) where
  bind_one :
      (one : ActionBinding) (es : List Value) (result : ActionBinding)
      → ((r : ActionBinding)
          → bind_actions decisions requests approved es r ≡ ok bound
          → (r ≡ bound) × All (IsCovered decisions requests approved) es)
      → elim one [
        | bound ↦ bind_actions decisions requests approved es result
        | unresolved ↦ bind_actions decisions requests approved es unresolved
        | contradicted ↦ ok contradicted
      ]
        ≡ ok bound
      → (one ≡ bound) × (result ≡ bound) × All (IsCovered decisions requests approved) es
  bind_one bound es result ih h = let (r, all) = ih result h in (refl, r, all)
  bind_one unresolved es result ih h = let (r, all) = ih unresolved h in cc
  bind_one contradicted es result ih h = cc

  -- The loop returns `bound` only if every executed, gated action of the run is covered.
  pub bind_actions-bound :
      (events : List Value) (result : ActionBinding)
      → bind_actions decisions requests approved events result ≡ ok bound
      → (result ≡ bound) × All (IsCovered decisions requests approved) events
  unfolding bind_actions
  bind_actions-bound [] result h = (ok-injective h, tt)
  bind_actions-bound (e ∷ es) result h =
      let (one, tested, e1) = >>=-eq-ok (action_binding decisions requests approved e) _ h in
      let (is_bound_here, start, later) =
        bind_one one es result (λ r. bind_actions-bound es r) e1 in
      (
        start,
        (action_binding-bound decisions requests approved e (tested ∙ ap ok is_bound_here), later),
      )
