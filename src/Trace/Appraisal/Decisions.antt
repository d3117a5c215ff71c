-- ===== src/Trace/Appraisal/Decisions.antt =====
-- `_appraisal` of trace_adapter.py: the decisions of a run, which it keeps by their event id.
use agentrust_telemetry.Base.{
  ◌≡◌, ◌⊎◌, inl, inr, refl, sym, ap, ◌∙◌, Bool, true, false, String, List, [], ◌∷◌, Some, arith,
  Bool-cases, if◌then◌else◌,
}
use agentrust_telemetry.Base.Outcome.{Result, ok, ok-injective, ◌>>=◌, >>=-eq-ok}
use agentrust_telemetry.Value.{Value, str}
use agentrust_telemetry.Value.Equality.{eq_value}
use agentrust_telemetry.Value.Access.{get_item, check_hashable}
use agentrust_telemetry.Trace.Events.{Mapping, assign_key, among, has_type}
use agentrust_telemetry.Trace.Events.Laws.{eq_value-str, str-eq_value}
use agentrust_telemetry.Trace.Appraisal.{decisions_from, among_texts}

-- A policy decision under a text as its event id.
pub record IsDecision (event : Value) (id : String) (decision : Value) : Type 0 where
  pub typed : has_type "policy.decision" event ≡ ok true
  pub named : get_item event "event_id" ≡ ok (str id)
  pub decided : get_item event "decision" ≡ ok decision

-- A policy decision with a given event id.
abbrev pub IsNamed : String → Value → Type 0
IsNamed id event =
    (has_type "policy.decision" event ≡ ok true) × (get_item event "event_id" ≡ ok (str id))

-- A decision that neither denies nor fails, and if it is a challenge, an approval names its event.
abbrev pub IsAllowed : List Value → String → Value → Type 0
IsAllowed approved id decision =
    (among_texts ("deny" ∷ "error" ∷ []) decision ≡ false)
    × (eq_value decision (str "challenge") ≡ true → among (str id) approved ≡ true)

-- Each decision is allowed, or a later decision of the run has the same event id.
abbrev pub IsAnswered : List Value → List Value → Type 0
IsAnswered approved [] = Unit {0}
IsAnswered approved (event ∷ later) =
    ((id : String) (decision : Value)
      → IsDecision event id decision
      → Some (IsNamed id) later ⊎ IsAllowed approved id decision)
    × IsAnswered approved later

-- The mapping has the decision under the text.
abbrev pub Holds : String → Value → Mapping → Type 0
Holds id decision m = Some (λ (d : Value × Value). (d.0 ≡ str id) × (d.1 ≡ decision)) m

assign_key-Holds :
    (id : String) (decision : Value) (m : Mapping)
    → Holds id decision (assign_key (str id) decision m)
unfolding assign_key
assign_key-Holds id decision [] = inl (refl, refl)
assign_key-Holds id decision ((j, w) ∷ m) = elim (Bool-cases (eq_value j (str id))) [
  | inl e ↦ rw e (inl (eq_value-str j id e, refl))
  | inr e ↦ rw e (inr (assign_key-Holds id decision m))
]

assign_key-keeps :
    (k v : Value) (id : String) (decision : Value) (m : Mapping)
    → eq_value (str id) k ≡ false
    → Holds id decision m
    → Holds id decision (assign_key k v m)
unfolding assign_key
assign_key-keeps k v id decision [] other h = absurd h
assign_key-keeps k v id decision ((j, w) ∷ m) other h = elim (Bool-cases (eq_value j k)) [
  | inl e ↦ elim h [
    | inl (named, _) ↦ let clash : eq_value (str id) k ≡ true = rw (← named) e in cc
    | inr later ↦ rw e (inr later)
  ]
  | inr e ↦ elim h [
    | inl here ↦ rw e (inl here)
    | inr later ↦ rw e (inr (assign_key-keeps k v id decision m other later))
  ]
]

check_hashable-same : (v : Value) {w : Value} → check_hashable v ≡ ok w → w ≡ v
unfolding check_hashable
check_hashable-same v eq = ground arith

-- what a step of the comprehension does with an event
abbrev decide : Bool → Value → Mapping → Result Mapping
decide is_decision event m =
    if is_decision
    then (do
      id ← get_item event "event_id"
      decision ← get_item event "decision"
      key ← check_hashable id
      ok (assign_key key decision m))
    else ok m

-- A step keeps what the mapping holds, or is a decision under the same text.
step-Holds :
    (event : Value) (m : Mapping) (b : Bool) (id : String) (decision : Value) {m' : Mapping}
    → has_type "policy.decision" event ≡ ok b
    → decide b event m ≡ ok m'
    → Holds id decision m
    → IsNamed id event ⊎ Holds id decision m'
step-Holds event m true id decision {m'} typed e h =
    let (v, found, e1) = >>=-eq-ok (get_item event "event_id") _ e in
    let (d, _, e2) = >>=-eq-ok (get_item event "decision") _ e1 in
    let (key, hashable, e3) = >>=-eq-ok (check_hashable v) _ e2 in
    elim (Bool-cases (eq_value (str id) key)) [
      | inl same ↦
          let named : v ≡ str id =
            sym (check_hashable-same v hashable) ∙ str-eq_value id key same in
          inl (typed, found ∙ ap ok named)
      | inr other ↦
          let kept = assign_key-keeps key d id decision m other h in
          inr (rw (ok-injective e3) at kept)
    ]
step-Holds event m false id decision typed e h = inr (rw (ok-injective e) at h)

-- A step over a decision puts it into the mapping.
step-IsDecision :
    (event : Value) (m : Mapping) (b : Bool) (id : String) (decision : Value) {m' : Mapping}
    → has_type "policy.decision" event ≡ ok b
    → decide b event m ≡ ok m'
    → IsDecision event id decision
    → Holds id decision m'
step-IsDecision event m true id decision {m'} typed e is =
    let (v, found, e1) = >>=-eq-ok (get_item event "event_id") _ e in
    let (d, decided, e2) = >>=-eq-ok (get_item event "decision") _ e1 in
    let (key, hashable, e3) = >>=-eq-ok (check_hashable v) _ e2 in
    let named : key ≡ str id =
      check_hashable-same v hashable ∙ ok-injective (sym found ∙ is.named) in
    let same : d ≡ decision = ok-injective (sym decided ∙ is.decided) in
    let put = assign_key-Holds id decision m in
    let made : assign_key (str id) decision m ≡ m' = rw (named, same) at (ok-injective e3) in
    rw made at put
step-IsDecision event m false id decision typed e is =
    let clash : ok false ≡ ok true = sym typed ∙ is.typed in cc

decisions_from-Holds :
    (m : Mapping) (events : List Value) (id : String) (decision : Value) {decisions : Mapping}
    → decisions_from m events ≡ ok decisions
    → Holds id decision m
    → Some (IsNamed id) events ⊎ Holds id decision decisions
unfolding decisions_from
decisions_from-Holds m [] id decision e h = inr (rw (ok-injective e) at h)
decisions_from-Holds m (event ∷ events) id decision e h =
    let (b, typed, e1) = >>=-eq-ok (has_type "policy.decision" event) _ e in
    let (m', step, e2) = >>=-eq-ok (decide b event m) _ e1 in
    elim (step-Holds event m b id decision typed step h) [
      | inl here ↦ inl (inl here)
      | inr kept ↦ elim (decisions_from-Holds m' events id decision e2 kept) [
        | inl later ↦ inl (inr later)
        | inr held ↦ inr held
      ]
    ]

-- The decision that the mapping ends with for an event id is that of the last decision under it.
pub decisions_from-IsAnswered :
    (approved : List Value) (m : Mapping) (events : List Value) {decisions : Mapping}
    → decisions_from m events ≡ ok decisions
    → ((id : String) (decision : Value)
        → Holds id decision decisions
        → IsAllowed approved id decision)
    → IsAnswered approved events
unfolding decisions_from
decisions_from-IsAnswered approved m [] e allowed = tt
decisions_from-IsAnswered approved m (event ∷ events) e allowed =
    let (b, typed, e1) = >>=-eq-ok (has_type "policy.decision" event) _ e in
    let (m', step, e2) = >>=-eq-ok (decide b event m) _ e1 in
    (
      λ id decision is.
          elim (decisions_from-Holds m' events id decision e2
            (step-IsDecision event m b id decision typed step is)) [
              | inl later ↦ inl later
              | inr held ↦ inr (allowed id decision held)
            ],
      decisions_from-IsAnswered approved m' events e2 allowed,
    )
