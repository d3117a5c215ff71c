-- ===== src/Adapters/Cedar/Reasons.antt =====
-- `cedar_policy_decision` of adapters/cedar.py: what a returned event holds.
use mathlib.Core.Option
use mathlib.Core.Path.{subst}
use agentrust_telemetry.Base.{
  not-false, ◌≡◌, ℕ, refl, sym, ap, ◌∙◌, Option, none, some, ◌⊎◌, inl, inr, Bool, true, false, not,
  String, List, [], ◌∷◌, ◌++◌, map, All, all, any, length, ◌≤◌, ltb, str_eq, and_split, arith,
  if◌then◌else◌,
}
use agentrust_telemetry.Base.Integer.{ℤ}
use agentrust_telemetry.Base.Ordered.{sorted_set}
use agentrust_telemetry.Base.Outcome.{
  ok, err, ◌>>◌, traverse, >>=-eq-ok, ok-injective, raise_if, raise_if-eq-ok, value_error,
}
use agentrust_telemetry.Value.{Value, str, list, from_items}
use agentrust_telemetry.Value.Access.{check_hashable}
use agentrust_telemetry.Trace.Events.{to_set}
use agentrust_telemetry.Value.Words.{codes, lower, eq_codes, has_prefix}
use agentrust_telemetry.Factory.{EventFactory, is_reserved, payload_value}
use agentrust_telemetry.Factory.Extra.{Extra}
use agentrust_telemetry.Factory.Payload.{Holds, Holds-plain, find}
use agentrust_telemetry.DataFlow.Closed.{build_with-eq-ok}
use agentrust_telemetry.Adapters.Agt.{is_identifier}
use agentrust_telemetry.Adapters.Cedar.{
  Texts, single, raw_bytes, several, all_texts, not_texts, CedarArguments, identifiers, normalized,
  prefixed, cedar_payload, cedar_policy_decision,
}

-- The decision is the answer in small letters.
abbrev pub Says : String → String → Type 0
Says answer decision = eq_codes (lower (codes answer)) (codes decision) ≡ true

-- An event of an answer: its effect, and its reasons, sorted, without duplicates and at most 32.
pub record IsDecision (p : CedarArguments) (event : Value) : Type 0 where
  pub decision : String
  pub effect :
      ((decision ≡ "allow") × Says p.decision "allow")
      ⊎ ((decision ≡ "deny") × Says p.decision "deny")
  pub policies : List String
  pub errors : List String
  pub policies_given : p.determining_policy_ids ≡ several (map str policies)
  pub errors_given : p.error_codes ≡ several (map str errors)
  pub few :
      length (
        prefixed "cedar.policy:" (sorted_set policies)
        ++ prefixed "cedar.error:" (sorted_set errors))
      ≤ 32
  pub codes_only : All (λ s. is_identifier s ≡ true) (sorted_set errors)
  pub holds_decision : Holds event "decision" (str decision)
  pub holds_reasons : Holds event "reason_codes" (
      list (
        from_items (
          map str (
            prefixed "cedar.policy:" (sorted_set policies)
            ++ prefixed "cedar.error:" (sorted_set errors)))))

prepended :
    (s : String) (o : Option (List String)) {ss : List String}
    → Option.map (λ rest. s ∷ rest) o ≡ some ss
    → (rest : List String) × (o ≡ some rest) × (ss ≡ s ∷ rest)
prepended s none e = cc
prepended s (some rest) e = (rest, refl, cc)

all_texts-some : (vs : List Value) {ss : List String} → all_texts vs ≡ some ss → vs ≡ map str ss
unfolding all_texts
all_texts-some [] {ss} e = let same : [] ≡ ss = cc in ap (map str) same
all_texts-some (str s ∷ vs) e =
    let (rest, found, same) = prepended s (all_texts vs) e in
    ap (λ xs. str s ∷ xs) (all_texts-some vs found) ∙ ap (map str) (sym same)
all_texts-some (v ∷ vs) e = cc

checked_texts :
    (values : List Value) (o : Option (List String)) (distinct : List Value) {ss : List String}
    → all_texts values ≡ o
    → (elim o [
      | none ↦ err (not_texts distinct)
      | some given ↦
          raise_if
            (any (λ s. str_eq s "") (sorted_set given))
            (value_error "must contain non-empty strings")
          >> ok (sorted_set given)
    ])
      ≡ ok ss
    → (given : List String) × (values ≡ map str given) × (ss ≡ sorted_set given)
checked_texts values none distinct found e = cc
checked_texts values (some given) distinct found e =
    let (_, _, e1) =
      >>=-eq-ok
        (raise_if (any (λ s. str_eq s "") (sorted_set given))
          (value_error "must contain non-empty strings"))
        _ e in
    (given, all_texts-some values found, sym (ok-injective e1))

identifiers-eq-ok :
    (ts : Texts) {ss : List String}
    → identifiers ts ≡ ok ss
    → (given : List String) × (ts ≡ several (map str given)) × (ss ≡ sorted_set given)
unfolding identifiers
identifiers-eq-ok (single s) e = cc
identifiers-eq-ok raw_bytes e = cc
identifiers-eq-ok (several values) e =
    let (hashable, _, e1) = >>=-eq-ok (traverse check_hashable values) _ e in
    let (given, same, made) = checked_texts values (all_texts values) (to_set hashable) refl e1 in
    (given, ap several same, made)

effect_of :
    (a d : Bool) {decision : String}
    → (if a
        then ok "allow"
        else if d
        then ok "deny"
        else err (value_error "Cedar decision must be Allow or Deny"))
      ≡ ok decision
    → ((decision ≡ "allow") × (a ≡ true)) ⊎ ((decision ≡ "deny") × (d ≡ true))
effect_of true d e = inl (sym (ok-injective e), refl)
effect_of false true e = inr (sym (ok-injective e), refl)
effect_of false false e = cc

all-All : {A : Type 0} (p : A → Bool) (xs : List A) → all p xs ≡ true → All (λ x. p x ≡ true) xs
all-All p [] h = tt
all-All p (x ∷ xs) h = let (a, b) = and_split (p x) (all p xs) h in (a, all-All p xs b)

few_codes : (n : ℕ) → ltb 32 n ≡ false → n ≤ 32
few_codes n h = ground arith

pairs : {a b c d : List String} → a ≡ b → c ≡ d → ◌≡◌ {A = List String × List String} (a, c) (b, d)
pairs e e' = cc

-- A returned event allows or denies as Cedar answered, and its reasons are exactly the determining
-- policies and then the error codes, each as a sorted set, at most 32 together; every error code is
-- an identifier, so that no error message becomes a reason.
pub cedar_policy_decision-IsDecision :
    (f : EventFactory) (p : CedarArguments) (x : Extra) (now : ℤ) (fresh : String) {event : Value}
    → cedar_policy_decision f p x now fresh ≡ ok event
    → IsDecision p event
unfolding cedar_policy_decision normalized is_reserved find payload_value has_prefix
cedar_policy_decision-IsDecision f p x now fresh {event} e =
    let (decision, d, e1) = >>=-eq-ok (normalized p.decision) _ e in
    let (policy_ids, i, e2) = >>=-eq-ok (identifiers p.determining_policy_ids) _ e1 in
    let (errors, j, e3) = >>=-eq-ok (identifiers p.error_codes) _ e2 in
    let (_, known, e4) =
      >>=-eq-ok
        (raise_if (not (all is_identifier errors))
          (value_error "Cedar error_codes must be identifiers, not error messages"))
        _ e3 in
    let reason_codes = prefixed "cedar.policy:" policy_ids ++ prefixed "cedar.error:" errors in
    let (_, few, e5) =
      >>=-eq-ok
        (raise_if (ltb 32 (length reason_codes))
          (value_error "Cedar reasons and errors exceed the 32-code contract limit"))
        _ e4 in
    let built =
      build_with-eq-ok f "policy.decision" p.run_id p.agent_id
        (cedar_payload p decision policy_ids reason_codes) x now fresh e5 in
    let (own, given, same) = identifiers-eq-ok p.determining_policy_ids i in
    let (own', given', same') = identifiers-eq-ok p.error_codes j in
    let short : length reason_codes ≤ 32 =
      few_codes (length reason_codes) (raise_if-eq-ok _ _ few) in
    let valid =
      all-All is_identifier errors
        (not-false (all is_identifier errors) (raise_if-eq-ok _ _ known)) in
    let reasons =
      Holds-plain f _ now fresh built "reason_codes" (list (from_items (map str reason_codes))) refl
        refl refl in
    record {
      decision = decision;
      effect =
          effect_of (eq_codes (lower (codes p.decision)) (codes "allow"))
            (eq_codes (lower (codes p.decision)) (codes "deny")) d;
      policies = own;
      errors = own';
      policies_given = given;
      errors_given = given';
      few =
          subst (λ q. length (prefixed "cedar.policy:" q.0 ++ prefixed "cedar.error:" q.1) ≤ 32)
            (pairs same same') short;
      codes_only = subst (All (λ s. is_identifier s ≡ true)) same' valid;
      holds_decision = Holds-plain f _ now fresh built "decision" (str decision) refl refl refl;
      holds_reasons =
          subst
            (λ q. Holds event "reason_codes" (
              list (
                from_items
                  (map str (prefixed "cedar.policy:" q.0 ++ prefixed "cedar.error:" q.1)))))
            (pairs same same') reasons;
    }
