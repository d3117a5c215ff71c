-- ===== src/Adapters/Agt/Codes.antt =====
-- `_reason_codes` of adapters/agt.py: which values are lists of reason codes.
use mathlib.Core.Path.{subst}
use agentrust_telemetry.Base.{
  ◌≡◌, refl, ap, suc, true, false, not, ◌||◌, String, List, [], ◌∷◌, All, all, any, length, ◌≤◌,
  ltb, arith, str_eq, or_split, and_split,
}
use agentrust_telemetry.Base.Outcome.{
  ok, >>=-eq-ok, ok-injective, raise_if, raise_if-eq-ok, value_error,
}
use agentrust_telemetry.Value.{Value, str, list, Items, nil, cons, items}
use agentrust_telemetry.Adapters.Agt.{is_identifier, is_code, texts, has_duplicate, reason_codes}

-- the text is none of the texts
abbrev pub IsNew : String → List String → Type 0
IsNew s ss = All (λ t. str_eq s t ≡ false) ss

-- No text stands twice.
abbrev pub AreUnique : List String → Type 0
AreUnique [] = Unit
AreUnique (s ∷ ss) = IsNew s ss × AreUnique ss

-- At most 32 identifiers, no two the same.
pub record IsCodes (codes : List String) : Type 0 where
  pub few : length codes ≤ 32
  pub identifiers : All (λ s. is_identifier s ≡ true) codes
  pub unique : AreUnique codes

IsNew-any : (s : String) (ss : List String) → any (str_eq s) ss ≡ false → IsNew s ss
IsNew-any s [] h = tt
IsNew-any s (t ∷ ss) h =
    let (a, b) = or_split (str_eq s t) (any (str_eq s) ss) h in (a, IsNew-any s ss b)

AreUnique-has_duplicate : (ss : List String) → has_duplicate ss ≡ false → AreUnique ss
unfolding has_duplicate
AreUnique-has_duplicate [] h = tt
AreUnique-has_duplicate (s ∷ ss) h =
    let (a, b) = or_split (any (str_eq s) ss) (has_duplicate ss) h in
    (IsNew-any s ss a, AreUnique-has_duplicate ss b)

-- a list of texts as a value
abbrev pub written : List String → Items
written [] = nil
written (s ∷ ss) = cons (str s) (written ss)

-- A list of identifiers is the list of its texts.
list_written :
    (vs : Items)
    → all is_code (items vs) ≡ true
    → (length (texts (items vs)) ≡ length (items vs))
      × All (λ s. is_identifier s ≡ true) (texts (items vs))
      × (vs ≡ written (texts (items vs)))
unfolding is_code texts
list_written nil h = (refl, tt, refl)
list_written (cons (str s) vs) h =
    let (a, b) = and_split (is_identifier s) (all is_code (items vs)) h in
    let (n, e, w) = list_written vs b in (ap suc n, (a, e), ap (cons (str s)) w)
list_written (cons v vs) h = cc

-- Reason codes that are taken over are the ones that the source lists, in its order: at most 32
-- identifiers, no two of them the same.
pub reason_codes-IsCodes :
    (v : Value) {codes : List String}
    → reason_codes v ≡ ok codes
    → (v ≡ list (written codes)) × IsCodes codes
unfolding reason_codes
reason_codes-IsCodes (list values) {codes} e =
    let (_, a, e1) =
      >>=-eq-ok
        (raise_if (ltb 32 (length (items values)) || not (all is_code (items values)))
          (value_error "AGT reason_codes must contain at most 32 identifiers"))
        _ e in
    let (_, b, e2) =
      >>=-eq-ok
        (raise_if (has_duplicate (texts (items values)))
          (value_error "AGT reason_codes must be unique"))
        _ e1 in
    let (short, known) =
      or_split (ltb 32 (length (items values))) (not (all is_code (items values)))
        (raise_if-eq-ok _ _ a) in
    let (n, identifiers, whole) = list_written values (ground arith) in
    subst (λ cs. (list values ≡ list (written cs)) × IsCodes cs) (ok-injective e2)
      (
        ap list whole,
        record {
          few = ground arith;
          identifiers = identifiers;
          unique = AreUnique-has_duplicate (texts (items values)) (raise_if-eq-ok _ _ b);
        },
      )
reason_codes-IsCodes v e = cc
