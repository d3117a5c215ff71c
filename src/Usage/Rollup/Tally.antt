-- ===== src/Usage/Rollup/Tally.antt =====
-- `rollup` of usage.py: the sum and the number of what the events have under one name.
use mathlib.Core.Path.{subst}
use agentrust_telemetry.Base.{
  ℕ, suc, ◌≤◌, ◌==◌, ◌≡◌, refl, sym, ap, ◌∙◌, ◌⊎◌, inl, inr, true, false, String, Option, none,
  some, List, [], ◌∷◌, ◌++◌, length, Bool-cases, if◌then◌else◌, arith,
}
use agentrust_telemetry.Base.Integer.{ℤ, pos, negsuc, ◌+ℤ◌}
use agentrust_telemetry.Base.Outcome.{ok, ◌>>=◌, >>=-eq-ok, ok-injective}
use agentrust_telemetry.Value.{Value, int}
use agentrust_telemetry.Value.Access.{get_item, has_key}
use agentrust_telemetry.Usage.Rollup.{observe, observed, plus, sum_from, roll_field}

-- The sum and the number of the integers that the events have under the name; the other events lack it.
pub data IsTally (k : String) : List Value → ℤ → ℕ → Type 0 where
  done : IsTally k [] (pos 0) 0
  lacking :
      (event : Value) {events : List Value} {t : ℤ} {c : ℕ}
      → has_key event k ≡ ok false
      → IsTally k events t c
      → IsTally k (event ∷ events) t c
  counting :
      (event : Value) (m : ℤ) {events : List Value} {t : ℤ} {c : ℕ}
      → has_key event k ≡ ok true
      → get_item event k ≡ ok (int m)
      → IsTally k events t c
      → IsTally k (event ∷ events) (m +ℤ t) (suc c)

pub IsTally-le :
    (k : String) {events : List Value} {t : ℤ} {c : ℕ} → IsTally k events t c → c ≤ length events
IsTally-le k done = omega arith
IsTally-le k (lacking event e rest) = omega (arith, IsTally-le k rest)
IsTally-le k (counting event m e v rest) = omega (arith, IsTally-le k rest)

add_zero : (n : ℤ) → n ≡ n +ℤ pos 0
unfolding ◌+ℤ◌
add_zero (pos n) = ground arith
add_zero (negsuc n) = ground arith

zero_add : (n : ℤ) → pos 0 +ℤ n ≡ n
unfolding ◌+ℤ◌
zero_add (pos n) = ground arith
zero_add (negsuc n) = ground arith

add_assoc : (a b c : ℤ) → a +ℤ b +ℤ c ≡ a +ℤ (b +ℤ c)
unfolding ◌+ℤ◌
add_assoc a b c = ground arith

plus-eq-ok : (n : ℤ) (v : Value) {r : ℤ} → plus n v ≡ ok r → (m : ℤ) × (v ≡ int m) × (r ≡ n +ℤ m)
plus-eq-ok n (int m) e = (m, refl, sym (ok-injective e))
plus-eq-ok n v e = cc

-- What one event gives: nothing where it lacks the name, and else its value.
observe-cases :
    (k : String) (event : Value) {own : List Value}
    → observe k event ≡ ok own
    → ((has_key event k ≡ ok false) × (own ≡ []))
      ⊎ ((v : Value) × (has_key event k ≡ ok true) × (get_item event k ≡ ok v) × (own ≡ v ∷ []))
observe-cases k event e =
    let (there, found, e1) = >>=-eq-ok (has_key event k) _ e in
    elim (Bool-cases there) [
      | inl t ↦
          let e2 =
            sym (ap (λ b. if b then (get_item event k >>= λ v. ok (v ∷ [])) else ok []) t) ∙ e1 in
          let (v, value, e3) = >>=-eq-ok (get_item event k) _ e2 in
          inr (v, found ∙ ap ok t, value, sym (ok-injective e3))
      | inr f ↦ inl (
        found ∙ ap ok f,
        sym (
            ok-injective (
              sym (ap (λ b. if b then (get_item event k >>= λ v. ok (v ∷ [])) else ok []) f) ∙ e1)),
      )
    ]

observed-IsTally :
    (k : String) (events : List Value) (n : ℤ) {vs : List Value} {r : ℤ}
    → observed k events ≡ ok vs
    → sum_from n vs ≡ ok r
    → (t : ℤ) × IsTally k events t (length vs) × (r ≡ n +ℤ t)
unfolding observed sum_from
observed-IsTally k [] n {vs} {r} o s =
    let empty = ok-injective o in
    (
      pos 0,
      subst (λ l. IsTally k [] (pos 0) (length l)) empty done,
      sym (ok-injective (subst (λ l. sum_from n l ≡ ok r) (sym empty) s)) ∙ add_zero n,
    )
observed-IsTally k (event ∷ events) n {vs} {r} o s =
    let (own, first, o1) = >>=-eq-ok (observe k event) _ o in
    let (others, rest, o2) = >>=-eq-ok (observed k events) _ o1 in
    let whole = sym (ok-injective o2) in
    elim (observe-cases k event first) [
      | inl (absent, nothing) ↦
          let vs_others : vs ≡ others = whole ∙ ap (λ l. l ++ others) nothing in
          let (t, tally, sum) =
            observed-IsTally k events n rest (subst (λ l. sum_from n l ≡ ok r) vs_others s) in
          (
            t,
            subst (λ l. IsTally k (event ∷ events) t (length l)) (sym vs_others)
                (lacking event absent tally),
            sum,
          )
      | inr (v, there, value, single) ↦
          let vs_others : vs ≡ v ∷ others = whole ∙ ap (λ l. l ++ others) single in
          let (m, added, s1) =
            >>=-eq-ok (plus n v) _ (subst (λ l. sum_from n l ≡ ok r) vs_others s) in
          let (i, is, sum) = plus-eq-ok n v added in
          let (t, tally, total) = observed-IsTally k events m rest s1 in
          (
            i +ℤ t,
            subst (λ l. IsTally k (event ∷ events) (i +ℤ t) (length l)) (sym vs_others)
                (counting event i there (value ∙ ap ok is) tally),
            total ∙ ap (λ x. x +ℤ t) sum ∙ add_assoc n i t,
          )
    ]

total_of :
    (vs : List Value) (t : ℤ)
    → ◌≡◌ {A = Option ℤ}
        (elim vs [ [] ↦ none | x ∷ xs ↦ some t ])
        (if length vs == 0 then none else some t)
total_of [] t = refl
total_of (v ∷ vs) t = ground arith

-- A field's total is the sum of the integers that the events have, and there is none where no event has one.
pub roll_field-IsTally :
    (k : String) (events : List Value) {o : Option ℤ} {c : ℕ}
    → roll_field k events ≡ ok (o, c)
    → (t : ℤ) × IsTally k events t c × (o ≡ (if c == 0 then none else some t))
unfolding roll_field
roll_field-IsTally k events {o} {c} e =
    let (vs, found, e1) = >>=-eq-ok (observed k events) _ e in
    let (r, sum, e2) = >>=-eq-ok (sum_from (pos 0) vs) _ e1 in
    let (t, tally, total) = observed-IsTally k events (pos 0) found sum in
    let pair = ok-injective e2 in
    (
      t,
      subst (IsTally k events t) (ap (λ p. p.1) pair) tally,
      sym (ap (λ p. p.0) pair)
          ∙ total_of vs r
          ∙ ap (λ i. if i == 0 then none else some r) (ap (λ p. p.1) pair)
          ∙ ap (λ x. if c == 0 then none else some x) (total ∙ zero_add t),
    )
