-- ===== src/Trace/Appraisal/Laws.antt =====
-- `_appraisal` of trace_adapter.py: what an affirming appraisal means.
use agentrust_telemetry.Base.{
  ◌≡◌, refl, sym, inl, inr, ap, ◌∙◌, Bool, true, false, not, ◌&&◌, ◌||◌, String, List, [], ◌∷◌, All,
  arith, map, if◌then◌else◌, or_split,
}
use agentrust_telemetry.Base.Outcome.{ok, ok-injective, >>=-eq-ok, traverse}
use agentrust_telemetry.Value.{Value, str}
use agentrust_telemetry.Value.Equality.{eq_value}
use agentrust_telemetry.Value.Access.{get_item, check_hashable}
use agentrust_telemetry.Trace.Events.{Mapping, filter_result, is_approval, of_type, among, hashed}
use agentrust_telemetry.Trace.Approvals.{bound_approvals}
use agentrust_telemetry.Trace.Actions.{
  ActionBinding, bound, unresolved, contradicted, action_approval_binding,
}
use agentrust_telemetry.Trace.Actions.Laws.{IsCovered, bind_actions-bound}
use agentrust_telemetry.Trace.Appraisal.Decisions.{
  Holds, IsAllowed, IsAnswered, decisions_from-IsAnswered,
}
use agentrust_telemetry.Trace.Appraisal.{
  Appraisal, affirming, decisions_from, among_texts, meets, some_unresolved, is_empty,
  is_contradicted, is_unresolved, grade, policy_event_text, appraisal,
}

-- The decision of a challenge has a bound approval that names its event.
abbrev pub IsSettled : List Value → Value × Value → Type 0
IsSettled approved d = eq_value d.1 (str "challenge") ≡ true → among d.0 approved ≡ true

-- Decisions of which none denies or fails, and all challenges are settled.
pub record IsClear (decisions : Mapping) (approved types : List Value) : Type 0 where
  pub allowed :
      All (λ (d : Value × Value). among_texts ("deny" ∷ "error" ∷ []) d.1 ≡ false) decisions
  pub settled : All (IsSettled approved) decisions
  pub approvals :
      meets types ("approval.rejected" ∷ "approval.expired" ∷ "approval.execution_failed" ∷ [])
      ≡ false
  pub kept : meets types ("approval.cancelled" ∷ []) ≡ false

meets-false :
    (names : List String) (m : Mapping)
    → meets (map (λ (d : Value × Value). d.1) m) names ≡ false
    → All (λ (d : Value × Value). among_texts names d.1 ≡ false) m
meets-false names [] h = tt
meets-false names ((k, v) ∷ m) h = let (a, b) = or_split _ _ h in (a, meets-false names m b)

settle : (a b : Bool) → (a && not b) ≡ false → a ≡ true → b ≡ true
settle a b h e = ground arith

some_unresolved-false :
    (approved : List Value) (m : Mapping)
    → some_unresolved approved m ≡ false
    → All (IsSettled approved) m
some_unresolved-false approved [] h = tt
some_unresolved-false approved ((k, v) ∷ m) h =
    let (a, b) =
      or_split (eq_value v (str "challenge") && not (among k approved)) (some_unresolved approved m)
        h in
    (settle (eq_value v (str "challenge")) (among k approved) a, some_unresolved-false approved m b)

ladder :
    (a b c d e f g : Bool)
    → (if a || b || c
        then Appraisal.contraindicated
        else if d || e || f
        then Appraisal.warning
        else if g
        then affirming
        else Appraisal.not_appraised)
      ≡ affirming
    → (a ≡ false) × (b ≡ false) × (c ≡ false) × (d ≡ false) × (e ≡ false) × (f ≡ false)
ladder a b c d e f g h = ground arith

binding_bound :
    (b : ActionBinding) → is_contradicted b ≡ false → is_unresolved b ≡ false → b ≡ bound
binding_bound bound h k = refl
binding_bound unresolved h k = cc
binding_bound contradicted h k = cc

pub grade-affirming :
    (decisions : Mapping) (types approved : List Value) (binding : ActionBinding)
    → grade decisions types approved binding ≡ affirming
    → IsClear decisions approved types × (binding ≡ bound)
unfolding grade
grade-affirming decisions types approved binding h =
    let (a, b, c, d, e, f) =
      ladder _ _ _ _ _ _ (not (is_empty decisions) || not (is_empty types)) h in
    (
      record {
        allowed = meets-false ("deny" ∷ "error" ∷ []) decisions a;
        settled = some_unresolved-false approved decisions d;
        approvals = b;
        kept = e;
      },
      binding_bound binding c f,
    )

-- What an appraisal looks at, for a run: its approvals, their types, its decisions, the policy
-- events of the bound approvals, and its requests and resolutions.
pub record Examined (display : Value → String) (events : List Value) : Type 0 where
  pub decisions : Mapping
  pub decided : decisions_from [] events ≡ ok decisions
  pub approvals : List Value
  pub selected : filter_result is_approval events ≡ ok approvals
  pub types : List Value
  pub typed : traverse (hashed (λ event. get_item event "event_type")) approvals ≡ ok types
  pub bound_ones : List Value
  pub bindings : bound_approvals approvals ≡ ok bound_ones
  pub approved : List Value
  pub named : traverse (policy_event_text display) bound_ones ≡ ok approved
  pub requests : List Value
  pub requested : of_type "approval.requested" approvals ≡ ok requests
  pub resolutions : List Value
  pub resolved : of_type "approval.approved" approvals ≡ ok resolutions

-- what the mapping has under a text is allowed
Holds-IsAllowed :
    (approved : List Value) (id : String) (decision : Value) (m : Mapping)
    → All (λ (d : Value × Value). among_texts ("deny" ∷ "error" ∷ []) d.1 ≡ false) m
    → All (IsSettled approved) m
    → Holds id decision m
    → IsAllowed approved id decision
Holds-IsAllowed approved id decision [] a s h = absurd h
Holds-IsAllowed approved id decision ((k, v) ∷ m) (a, more) (s, others) h = elim h [
  | inl (named, same) ↦
      (rw same at a, λ challenged. ap (λ x. among x approved) (sym named) ∙ s (rw same challenged))
  | inr later ↦ Holds-IsAllowed approved id decision m more others later
]

-- An affirming appraisal. Of the policy decisions with one event id the last counts: each policy
-- decision under a text as its event id is followed by another with the same event id, or it
-- neither denies nor fails, and if it is a challenge, a bound approval names its event. No approval
-- was rejected, expired, failed or cancelled, and each executed action that needs an approval is
-- covered by one.
pub appraisal-affirming :
    (display : Value → String) (events : List Value)
    → appraisal display events ≡ ok affirming
    → (x : Examined display events) × IsClear x.decisions x.approved x.types
      × IsAnswered x.approved events
      × All (IsCovered x.decisions x.requests x.resolutions) events
unfolding appraisal action_approval_binding
appraisal-affirming display events h =
    let (decisions, decided, e1) = >>=-eq-ok (decisions_from [] events) _ h in
    let (approvals, selected, e2) = >>=-eq-ok (filter_result is_approval events) _ e1 in
    let (types, typed, e3) =
      >>=-eq-ok (traverse (hashed (λ event. get_item event "event_type")) approvals) _ e2 in
    let (bound_ones, bindings, e4) = >>=-eq-ok (bound_approvals approvals) _ e3 in
    let (binding, acted, e5) =
      >>=-eq-ok (action_approval_binding decisions events approvals) _ e4 in
    let (_, _, e6) =
      >>=-eq-ok (traverse check_hashable (map (λ (d : Value × Value). d.1) decisions)) _ e5 in
    let (approved, named, e7) = >>=-eq-ok (traverse (policy_event_text display) bound_ones) _ e6 in
    let (clear, is_bound_run) =
      grade-affirming decisions types approved binding (ok-injective e7) in
    let (resolutions, resolved, e8) = >>=-eq-ok (of_type "approval.approved" approvals) _ acted in
    let (requests, requested, e9) = >>=-eq-ok (of_type "approval.requested" approvals) _ e8 in
    let (_, covered) =
      bind_actions-bound decisions requests resolutions events bound (e9 ∙ ap ok is_bound_run) in
    (
      record {
        decisions = decisions;
        decided = decided;
        approvals = approvals;
        selected = selected;
        types = types;
        typed = typed;
        bound_ones = bound_ones;
        bindings = bindings;
        approved = approved;
        named = named;
        requests = requests;
        requested = requested;
        resolutions = resolutions;
        resolved = resolved;
      },
      clear,
      decisions_from-IsAnswered approved [] events decided (λ id decision held.
          Holds-IsAllowed approved id decision decisions clear.allowed clear.settled held),
      covered,
    )
