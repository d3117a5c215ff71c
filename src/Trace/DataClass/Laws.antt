-- ===== src/Trace/DataClass/Laws.antt =====
-- `_highest_data_class` of trace_adapter.py: where a returned class stands in the order.
use agentrust_telemetry.Base.{
  ℕ, ◌≤◌, ◌≡◌, ap, sym, ◌∙◌, ◌⊎◌, inl, inr, Bool, true, false, not, String, some, List, [], ◌∷◌,
  any, All, Some, arith, if◌then◌else◌, Some-map, Bool-cases, ltb,
}
use agentrust_telemetry.Base.Outcome.{
  ok, ok-injective, >>=-eq-ok, traverse, raise_if, raise_if-eq-ok, trace_finalization_error,
}
use agentrust_telemetry.Value.{Value, str}
use agentrust_telemetry.Value.Equality.{eq_value}
use agentrust_telemetry.Value.Access.{check_hashable}
use agentrust_telemetry.Trace.Events.{of_type, has_type, filter_result, to_set}
use agentrust_telemetry.Trace.Events.Laws.{
  filter_result-All, filter_result-Some, traverse-All, traverse-Some,
}
use agentrust_telemetry.Trace.DataClass.{
  classified, some_foreign, rank, rank_item, is_ranked, highest_from, highest, rank_flows,
  highest_data_class,
}

-- A value that the order ranks, at `m` at most.
abbrev RankedTo : List String → ℕ → Value → Type 0
RankedTo order m v = (k : ℕ) × (rank order v ≡ some k) × (k ≤ m)

-- A flow under the configured taxonomy whose value has a rank in the order, and one that is at most
-- the rank of `top`.
pub record RanksBelow (taxonomy : String) (order : List String) (top : Value) (event : Value)
    : Type 0 where
  pub value : Value
  pub value_found : classified "value" event ≡ ok value
  pub value_rank : ℕ
  pub value_ranked : rank order value ≡ some value_rank
  pub top_rank : ℕ
  pub top_ranked : rank order top ≡ some top_rank
  pub below : value_rank ≤ top_rank
  pub named : Value
  pub taxonomy_found : classified "taxonomy" event ≡ ok named
  pub same_taxonomy : eq_value named (str taxonomy) ≡ true

rank_item-eq-ok :
    (order : List String) (v : Value) {n : ℕ} → rank_item order v ≡ ok n → rank order v ≡ some n
unfolding rank_item
rank_item-eq-ok order v e = ground arith

-- The rank of the returned value is that of the first and of all the others at least.
highest_from-le :
    (order : List String) (best : Value) (n : ℕ) (vs : List Value) {top : Value}
    → rank order best ≡ some n
    → highest_from order best n vs ≡ ok top
    → (m : ℕ) × (rank order top ≡ some m) × (n ≤ m) × All (RankedTo order m) vs
unfolding highest_from
highest_from-le order best n [] ranked e =
    (n, ap (rank order) (sym (ok-injective e)) ∙ ranked, omega arith, tt)
highest_from-le order best n (v ∷ vs) {top} ranked e =
    let (k, found, e1) = >>=-eq-ok (rank_item order v) _ e in
    let ranked_v = rank_item-eq-ok order v found in
    elim (Bool-cases (ltb n k)) [
      | inl higher ↦
          let e2 : highest_from order v k vs ≡ ok top = rw higher at e1 in
          let (m, top_ranked, le, rest) = highest_from-le order v k vs ranked_v e2 in
          (m, top_ranked, ground arith, ((k, ranked_v, le), rest))
      | inr lower ↦
          let e2 : highest_from order best n vs ≡ ok top = rw lower at e1 in
          let (m, top_ranked, le, rest) = highest_from-le order best n vs ranked e2 in
          (m, top_ranked, le, ((k, ranked_v, ground arith), rest))
    ]

picked :
    (b : Bool) (v best : Value) {top : Value}
    → (if b then v else best) ≡ top
    → (best ≡ top) ⊎ (v ≡ top)
picked true v best e = inr e
picked false v best e = inl e

highest_from-Some :
    (order : List String) (best : Value) (n : ℕ) (vs : List Value) {top : Value}
    → highest_from order best n vs ≡ ok top
    → (best ≡ top) ⊎ Some (λ v. v ≡ top) vs
unfolding highest_from
highest_from-Some order best n [] e = inl (ok-injective e)
highest_from-Some order best n (v ∷ vs) e =
    let (k, _, e1) = >>=-eq-ok (rank_item order v) _ e in
    elim (highest_from-Some order (if ltb n k then v else best) (if ltb n k then k else n) vs e1) [
      | inr s ↦ inr (inr s)
      | inl same ↦ elim (picked (ltb n k) v best same) [
        | inl old ↦ inl old
        | inr new ↦ inr (inl new)
      ]
    ]

highest-eq-ok :
    (order : List String) (vs : List Value) {top : Value}
    → highest order vs ≡ ok top
    → (m : ℕ) × (rank order top ≡ some m) × All (RankedTo order m) vs × Some (λ v. v ≡ top) vs
unfolding highest
highest-eq-ok order [] e = cc
highest-eq-ok order (v ∷ vs) {top} e =
    let (n, found, e1) = >>=-eq-ok (rank_item order v) _ e in
    let ranked = rank_item-eq-ok order v found in
    let (m, top_ranked, le, rest) = highest_from-le order v n vs ranked e1 in
    (m, top_ranked, ((n, ranked, le), rest), highest_from-Some order v n vs e1)

abbrev Taxonomic : String → Value → Type 0
Taxonomic taxonomy e =
    (n : Value) × (classified "taxonomy" e ≡ ok n) × (eq_value n (str taxonomy) ≡ true)

some_foreign-eq-false :
    (taxonomy : String) (es : List Value)
    → some_foreign taxonomy es ≡ ok false
    → All (Taxonomic taxonomy) es
unfolding some_foreign
some_foreign-eq-false taxonomy [] h = tt
some_foreign-eq-false taxonomy (e ∷ es) h =
    let (n, found, e1) = >>=-eq-ok (classified "taxonomy" e) _ h in
    elim (Bool-cases (eq_value n (str taxonomy))) [
      | inl same ↦ ((n, found, same), some_foreign-eq-false taxonomy es (rw same at e1))
      | inr other ↦ ground arith
    ]

zip_below :
    (taxonomy : String) (order : List String) (top : Value) (m : ℕ) (es : List Value)
    → rank order top ≡ some m
    → All (λ e. (v : Value) × (classified "value" e ≡ ok v) × RankedTo order m v) es
    → All (Taxonomic taxonomy) es
    → All (RanksBelow taxonomy order top) es
zip_below taxonomy order top m [] r h t = tt
zip_below taxonomy order top m (e ∷ es) r ((v, found, (k, ranked, le)), hs) ((n, named, same), ts) =
    (
      record {
        value = v;
        value_found = found;
        value_rank = k;
        value_ranked = ranked;
        top_rank = m;
        top_ranked = r;
        below = le;
        named = n;
        taxonomy_found = named;
        same_taxonomy = same;
      },
      zip_below taxonomy order top m es r hs ts,
    )

rank_flows-eq-ok :
    (taxonomy : String) (order : List String) (es : List Value) {top : Value}
    → rank_flows taxonomy order es ≡ ok top
    → All (RanksBelow taxonomy order top) es × Some (λ e. classified "value" e ≡ ok top) es
unfolding rank_flows
rank_flows-eq-ok taxonomy order [] e = cc
rank_flows-eq-ok taxonomy order (d ∷ ds) {top} e =
    let all = d ∷ ds in
    let (foreign_flow, looked, e1) = >>=-eq-ok (some_foreign taxonomy all) _ e in
    let (_, same, e2) =
      >>=-eq-ok
        (raise_if foreign_flow
          (trace_finalization_error "data-flow taxonomy conflicts with TRACE configuration"))
        _ e1 in
    let (values, read, e3) = >>=-eq-ok (traverse (classified "value") all) _ e2 in
    let (hashable, _, e4) = >>=-eq-ok (traverse check_hashable values) _ e3 in
    let (_, ranked, e5) =
      >>=-eq-ok
        (raise_if (any (λ v. not (is_ranked (rank order v))) (to_set hashable))
          (trace_finalization_error "unranked data classifications are present"))
        _ e4 in
    let (m, top_ranked, below, there) = highest-eq-ok order values e5 in
    (
      zip_below taxonomy order top m all top_ranked
          (traverse-All (RankedTo order m) (classified "value") all read below)
          (some_foreign-eq-false taxonomy all (looked ∙ ap ok (raise_if-eq-ok _ _ same))),
      Some-map (λ x (v, found, is_top). found ∙ ap ok is_top) all
          (traverse-Some (λ v. v ≡ top) (classified "value") all read there),
    )

-- A data class that is returned is that of some data flow of the run and has a rank in the
-- configured order; every data flow of the run has a class that the order ranks too, no higher than
-- the returned one, and uses the configured taxonomy.
pub highest_data_class_lem :
    (taxonomy : String) (order : List String) (events : List Value) {top : Value}
    → highest_data_class taxonomy order events ≡ ok top
    → All (λ e. has_type "data_flow.observed" e ≡ ok true → RanksBelow taxonomy order top e) events
      × Some
          (λ e. (has_type "data_flow.observed" e ≡ ok true) × (classified "value" e ≡ ok top))
          events
unfolding highest_data_class of_type
highest_data_class_lem taxonomy order events {top} e =
    let (flows, chosen, ranked) =
      >>=-eq-ok (filter_result (has_type "data_flow.observed") events) _ e in
    let (each, there) = rank_flows-eq-ok taxonomy order flows ranked in
    (
      filter_result-All (RanksBelow taxonomy order top) (has_type "data_flow.observed") events
          chosen each,
      filter_result-Some (λ d. classified "value" d ≡ ok top) (has_type "data_flow.observed") events
          chosen there,
    )
