-- ===== src/Trace/Policy/Laws.antt =====
-- `_policy_binding` of trace_adapter.py: what a returned binding says of each decision.
use mathlib.Core.Path.{subst}
use agentrust_telemetry.Base.{
  ◌≡◌, refl, sym, ap, ◌∙◌, inl, inr, Bool, true, false, not, String, List, [], ◌∷◌, any, All, Some,
  arith, Bool-cases, str_eq, eq_iff, Option, some, All-map, Some-map,
}
use agentrust_telemetry.Base.Outcome.{
  ok, ok-injective, >>=-eq-ok, traverse, raise_if, raise_if-eq-ok, trace_finalization_error,
}
use agentrust_telemetry.Value.{Value, str}
use agentrust_telemetry.Value.Equality.{eq_value}
use agentrust_telemetry.Value.Access.{get_item}
use agentrust_telemetry.Trace.Events.{of_type, has_type, filter_result, set_by, to_set, hashed}
use agentrust_telemetry.Trace.Events.Laws.{
  filter_result-All, filter_result-Some, traverse-All, set_by-All, eq_value-str, str-eq_value,
  hashed-eq-ok,
}
use agentrust_telemetry.Trace.Policy.{
  some_unbundled, bundle_part, bundle_text, is_supported, only, or_conflict, text_set, mapped_mode,
  bind_policy, policy_binding,
}

-- What a decision contributes when the run is bound to a bundle and a mode.
pub record IsBoundTo (display : Value → String) (bundle mode : String) (event : Value)
    : Type 0 where
  pub bundle_found : bundle_text display event ≡ ok bundle
  pub algorithm : Value
  pub algorithm_found : bundle_part "algorithm" event ≡ ok algorithm
  pub supported : is_supported algorithm ≡ true
  pub observed : Value
  pub mode_found : get_item event "enforcement_mode" ≡ ok observed
  pub mapped : mapped_mode observed ≡ ok mode

is_supported-eq-str : (v : Value) → is_supported v ≡ true → (s : String) × (v ≡ str s)
unfolding is_supported
is_supported-eq-str v h = elim (Bool-cases (eq_value v (str "sha256"))) [
  | inl a ↦ ("sha256", eq_value-str v "sha256" a)
  | inr a ↦ ("sha384", eq_value-str v "sha384" (ground arith))
]

is_supported-closed :
    (u t : Value) → is_supported u ≡ true → eq_value u t ≡ true → is_supported t ≡ true
is_supported-closed u t h e =
    let (s, is_text) = is_supported-eq-str u h in
    let same : t ≡ u = str-eq_value s t (rw (← is_text) e) ∙ sym is_text in rw same h

only-eq-some {ℓ} : {A : Type ℓ} (ys : List A) {b : A} → only ys ≡ some b → ys ≡ b ∷ []
unfolding only
only-eq-some [] e = cc
only-eq-some (y ∷ []) e = cc
only-eq-some (y ∷ z ∷ ys) e = cc

-- A set with one member was made of items that are like it.
only_set {ℓ} :
    {A : Type ℓ} (P : A → Type 0) (eq : A → A → Bool) (xs : List A) {b : A}
    → ((u t : A) → P u → eq u t ≡ true → P t)
    → only (set_by eq xs) ≡ some b
    → P b
    → All P xs
only_set P eq xs closed e p =
    set_by-All P eq xs closed (subst (All P) (sym (only-eq-some (set_by eq xs) e)) (p, tt))

mapped_mode-eq-ok :
    (v : Value) {mode : String} → mapped_mode v ≡ ok mode → (s : String) × (v ≡ str s)
unfolding mapped_mode
mapped_mode-eq-ok v e = elim (Bool-cases (eq_value v (str "enforce"))) [
  | inl a ↦ ("enforce", eq_value-str v "enforce" a)
  | inr a ↦ elim (Bool-cases (eq_value v (str "monitor"))) [
    | inl b ↦ ("monitor", eq_value-str v "monitor" b)
    | inr b ↦ elim (Bool-cases (eq_value v (str "disabled"))) [
      | inl c ↦ ("disabled", eq_value-str v "disabled" c)
      | inr c ↦ ground arith
    ]
  ]
]

or_conflict-eq-ok {ℓ} :
    {A : Type ℓ} (m : String) (o : Option A) {a : A} → or_conflict m o ≡ ok a → o ≡ some a
unfolding or_conflict
or_conflict-eq-ok m o e = ground arith

-- no member of the set is refused
All-supported :
    (vs : List Value)
    → any (λ v. not (is_supported v)) vs ≡ false
    → All (λ v. is_supported v ≡ true) vs
All-supported [] h = tt
All-supported (v ∷ vs) h = (ground arith, All-supported vs (ground arith))

texts_lem :
    (display : Value → String) (ds : List Value) {texts : List String} {bundle : String}
    → traverse (bundle_text display) ds ≡ ok texts
    → only (text_set texts) ≡ some bundle
    → All (λ e. bundle_text display e ≡ ok bundle) ds
texts_lem display ds {texts} {bundle} done single =
    All-map (λ e (y, found, same). found ∙ ap ok same) ds
      (traverse-All (λ t. t ≡ bundle) (bundle_text display) ds done
        (only_set (λ t. t ≡ bundle) str_eq texts (λ u t same e. sym ((eq_iff u t).0 e) ∙ same)
          single refl))

abbrev Moded : String → Value → Type 0
Moded mode e = (w : Value) × (get_item e "enforcement_mode" ≡ ok w) × (mapped_mode w ≡ ok mode)

modes_lem :
    (ds : List Value) {modes : List Value} {v : Value} {mode : String}
    → traverse (hashed (λ event. get_item event "enforcement_mode")) ds ≡ ok modes
    → only (to_set modes) ≡ some v
    → mapped_mode v ≡ ok mode
    → All (Moded mode) ds
modes_lem ds {modes} {v} done single mapped =
    let (s, is_text) = mapped_mode-eq-ok v mapped in
    All-map (λ e (y, found, same). (y, hashed-eq-ok _ e found, rw (same, ← is_text) mapped)) ds
      (traverse-All (λ w. w ≡ str s) (hashed (λ event. get_item event "enforcement_mode")) ds done
        (only_set (λ w. w ≡ str s) eq_value modes (λ u t same e. str-eq_value s t (rw (← same) e))
          single is_text))

abbrev Supported : Value → Type 0
Supported e = (a : Value) × (bundle_part "algorithm" e ≡ ok a) × (is_supported a ≡ true)

algorithms_lem :
    (ds : List Value) {vs : List Value}
    → traverse (hashed (bundle_part "algorithm")) ds ≡ ok vs
    → any (λ v. not (is_supported v)) (to_set vs) ≡ false
    → All Supported ds
algorithms_lem ds {vs} done none_refused =
    All-map (λ e (y, found, fine). (y, hashed-eq-ok _ e found, fine)) ds
      (traverse-All (λ v. is_supported v ≡ true) (hashed (bundle_part "algorithm")) ds done
        (set_by-All (λ v. is_supported v ≡ true) eq_value vs is_supported-closed
          (All-supported (to_set vs) none_refused)))

zip_bound :
    (display : Value → String) (bundle mode : String) (ds : List Value)
    → All (λ e. bundle_text display e ≡ ok bundle) ds
    → All Supported ds
    → All (Moded mode) ds
    → All (IsBoundTo display bundle mode) ds
zip_bound display bundle mode [] t s m = tt
zip_bound display bundle mode (d ∷ ds) (t, ts) ((a, found, fine), ss) ((w, seen, mapped), ms) = (
  record {
    bundle_found = t;
    algorithm = a;
    algorithm_found = found;
    supported = fine;
    observed = w;
    mode_found = seen;
    mapped = mapped;
  },
  zip_bound display bundle mode ds ts ss ms,
)

bind_policy-eq-ok :
    (display : Value → String) (ds : List Value) {bundle mode : String}
    → bind_policy display ds ≡ ok (bundle, mode)
    → All (IsBoundTo display bundle mode) ds × Some (λ d. Unit {0}) ds
unfolding bind_policy
bind_policy-eq-ok display [] e = cc
bind_policy-eq-ok display (d ∷ ds) {bundle} {mode} e =
    let all = d ∷ ds in
    let (unbundled, _, e1) = >>=-eq-ok (some_unbundled all) _ e in
    let (_, _, e2) =
      >>=-eq-ok
        (raise_if unbundled
          (trace_finalization_error "every policy decision must carry bundle_digest"))
        _ e1 in
    let (algorithms, named, e3) =
      >>=-eq-ok (traverse (hashed (bundle_part "algorithm")) all) _ e2 in
    let (_, supported, e4) =
      >>=-eq-ok
        (raise_if (any (λ v. not (is_supported v)) (to_set algorithms))
          (trace_finalization_error "TRACE does not support observed policy digest algorithms"))
        _ e3 in
    let (texts, written, e5) = >>=-eq-ok (traverse (bundle_text display) all) _ e4 in
    let (b, single, e6) =
      >>=-eq-ok
        (or_conflict "conflicting policy bundle digests are present" (only (text_set texts))) _
        e5 in
    let (modes, seen, e7) =
      >>=-eq-ok (traverse (hashed (λ event. get_item event "enforcement_mode")) all) _ e6 in
    let (m, one, e8) =
      >>=-eq-ok
        (or_conflict "conflicting policy enforcement modes are present" (only (to_set modes))) _
        e7 in
    let (r, mapped, e9) = >>=-eq-ok (mapped_mode m) _ e8 in
    let result = ok-injective e9 in
    let bundle_eq : b ≡ bundle = ap (λ (p : String × String). p.0) result in
    let mode_eq : r ≡ mode = ap (λ (p : String × String). p.1) result in
    (
      zip_bound display bundle mode all
          (texts_lem display all written (or_conflict-eq-ok _ _ single ∙ ap some bundle_eq))
          (algorithms_lem all named (raise_if-eq-ok _ _ supported))
          (modes_lem all seen (or_conflict-eq-ok _ _ one) (mapped ∙ ap ok mode_eq)),
      inl tt,
    )

-- A binding that is returned holds of every policy decision of the run, and there is one: each
-- names that bundle digest, under SHA-256 or SHA-384, and a mode that maps to that mode.
pub policy_binding_lem :
    (display : Value → String) (events : List Value) {bundle mode : String}
    → policy_binding display events ≡ ok (bundle, mode)
    → All (λ e. has_type "policy.decision" e ≡ ok true → IsBoundTo display bundle mode e) events
      × Some (λ e. has_type "policy.decision" e ≡ ok true) events
unfolding policy_binding of_type
policy_binding_lem display events e =
    let (ds, chosen, bound) = >>=-eq-ok (filter_result (has_type "policy.decision") events) _ e in
    let (each, there) = bind_policy-eq-ok display ds bound in
    (
      filter_result-All (IsBoundTo display _ _) (has_type "policy.decision") events chosen each,
      Some-map (λ x (t, _). t) events
          (filter_result-Some (λ d. Unit) (has_type "policy.decision") events chosen there),
    )
