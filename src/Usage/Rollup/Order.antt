-- ===== src/Usage/Rollup/Order.antt =====
-- `rollup` of usage.py: what it makes of the same events, kept in another order.
use mathlib.Core.Path.{subst}
use mathlib.Core.List.{Permᴰ, append_assoc}
use mathlib.Core.List.Permᴰ
use agentrust_telemetry.Base.{
  ℕ, suc, ◌≡◌, refl, sym, ap, ◌∙◌, Bool, true, false, String, Option, none, some, List, [], ◌∷◌,
  ◌++◌, length, if◌then◌else◌, arith,
}
use agentrust_telemetry.Base.Integer.{ℤ, pos, ◌+ℤ◌}
use agentrust_telemetry.Base.Outcome.{Result, ok, err, ◌>>=◌, >>=-eq-ok, ok-injective}
use agentrust_telemetry.Value.{Value, int}
use agentrust_telemetry.Trace.Events.{filter_result}
use agentrust_telemetry.Usage.{token_fields}
use agentrust_telemetry.Usage.Rollup.{
  RollupArguments, is_match, observe, observed, plus, sum_from, roll_field, roll_tokens,
}

-- A comprehension over a list, in which each item gives a list or raises.
module _ {A B : Type 0} (f : List A → Result (List B)) (own : A → Result (List B))
    (f_nil : f [] ≡ ok [])
    (f_cons : (x : A) (xs : List A) → f (x ∷ xs) ≡ (own x >>= λ o. f xs >>= λ r. ok (o ++ r))) where
  f_cons-eq-ok :
      (x : A) (xs : List A) {vs : List B}
      → f (x ∷ xs) ≡ ok vs
      → (o r : List B) × (own x ≡ ok o) × (f xs ≡ ok r) × (vs ≡ o ++ r)
  f_cons-eq-ok x xs h =
      let (o, a, h1) = >>=-eq-ok (own x) _ (sym (f_cons x xs) ∙ h) in
      let (r, b, h2) = >>=-eq-ok (f xs) _ h1 in (o, r, a, b, sym (ok-injective h2))

  f_cons-ok :
      (x : A) (xs : List A) {o r : List B} → own x ≡ ok o → f xs ≡ ok r → f (x ∷ xs) ≡ ok (o ++ r)
  f_cons-ok x xs a b = f_cons x xs ∙ rw (a, b) refl

  exchanged : (o p r : List B) → Permᴰ (o ++ (p ++ r)) (p ++ (o ++ r))
  exchanged o p r =
      subst (λ l. Permᴰ l (p ++ (o ++ r))) (append_assoc o p r)
        (subst (Permᴰ ((o ++ p) ++ r)) (append_assoc p o r)
          (Permᴰ.append_right r (Permᴰ.append_comm o p)))

  collect-Permᴰ :
      {xs ys : List A} {vs : List B}
      → Permᴰ xs ys
      → f xs ≡ ok vs
      → (ws : List B) × (f ys ≡ ok ws) × Permᴰ vs ws
  collect-Permᴰ {vs = vs} Permᴰ.nil h = (vs, h, Permᴰ.refl vs)
  collect-Permᴰ {vs = vs} (Permᴰ.cons {a} {b} {l₁} {l₂} e d) h =
      let (o, r, first, rest, made) = f_cons-eq-ok a l₁ h in
      let (r', rest', p) = collect-Permᴰ d rest in
      (
        o ++ r',
        f_cons-ok b l₂ (subst (λ x. own x ≡ ok o) e first) rest',
        subst (λ l. Permᴰ l (o ++ r')) (sym made) (Permᴰ.append_left o p),
      )
  collect-Permᴰ {vs = vs} (Permᴰ.swap {a} {b} {a'} {b'} {l} e e') h =
      let (o, r, first, rest, made) = f_cons-eq-ok a (b ∷ l) h in
      let (p, q, second, others, made') = f_cons-eq-ok b l rest in
      (
        p ++ (o ++ q),
        f_cons-ok a' (b' ∷ l) (subst (λ x. own x ≡ ok p) e' second)
            (f_cons-ok b' l (subst (λ x. own x ≡ ok o) e first) others),
        subst (λ l. Permᴰ l (p ++ (o ++ q))) (sym (made ∙ ap (λ t. o ++ t) made'))
            (exchanged o p q),
      )
  collect-Permᴰ (Permᴰ.trans d d') h =
      let (ws, h', p) = collect-Permᴰ d h in
      let (us, h'', q) = collect-Permᴰ d' h' in (us, h'', Permᴰ.trans p q)

observed-Permᴰ :
    (k : String) {xs ys vs : List Value}
    → Permᴰ xs ys
    → observed k xs ≡ ok vs
    → (ws : List Value) × (observed k ys ≡ ok ws) × Permᴰ vs ws
unfolding observed
observed-Permᴰ k = collect-Permᴰ (observed k) (observe k) refl (λ x xs. refl)

kept :
    (b : Result Bool) (x : Value) (ys : Result (List Value))
    → (b >>= λ c. ys >>= λ r. ok (if c then x ∷ r else r))
      ≡ ((b >>= λ c. ok (if c then x ∷ [] else [])) >>= λ o. ys >>= λ r. ok (o ++ r))
kept (err e) x ys = refl
kept (ok true) x ys = refl
kept (ok false) x (ok r) = refl
kept (ok false) x (err e) = refl

filter_result-Permᴰ :
    (p : Value → Result Bool) {xs ys vs : List Value}
    → Permᴰ xs ys
    → filter_result p xs ≡ ok vs
    → (ws : List Value) × (filter_result p ys ≡ ok ws) × Permᴰ vs ws
unfolding filter_result
filter_result-Permᴰ p =
    collect-Permᴰ (filter_result p) (λ x. p x >>= λ c. ok (if c then x ∷ [] else [])) refl
      (λ x xs. kept (p x) x (filter_result p xs))

exchange_ℤ : (n a b : ℤ) → n +ℤ a +ℤ b ≡ n +ℤ b +ℤ a
unfolding ◌+ℤ◌
exchange_ℤ n a b = ground arith

every :
    {A B : Type 0} (m : Result A) {f g : A → Result B}
    → ((x : A) → f x ≡ g x)
    → (m >>= f) ≡ (m >>= g)
every (ok x) h = h x
every (err e) h = refl

pair_path : {a b c d : Value} → a ≡ b → c ≡ d → ◌≡◌ {A = Value × Value} (a, c) (b, d)
pair_path e e' = cc

exchange_plus : (n : ℤ) (v w : Value) → (plus n v >>= λ m. plus m w) ≡ (plus n w >>= λ m. plus m v)
exchange_plus n (int a) (int b) = ap ok (exchange_ℤ n a b)
exchange_plus n v w = ground arith

>>=-assoc : (m : Result ℤ) (f g : ℤ → Result ℤ) → (m >>= λ x. f x >>= g) ≡ ((m >>= f) >>= g)
>>=-assoc (ok x) f g = refl
>>=-assoc (err e) f g = refl

sum_from-Permᴰ : (n : ℤ) {vs ws : List Value} → Permᴰ vs ws → sum_from n vs ≡ sum_from n ws
unfolding sum_from
sum_from-Permᴰ n Permᴰ.nil = refl
sum_from-Permᴰ n (Permᴰ.cons {a} {b} {l₁} {l₂} e d) =
    ap (λ v. plus n v >>= λ m. sum_from m l₁) e ∙ every (plus n b) (λ m. sum_from-Permᴰ m d)
sum_from-Permᴰ n (Permᴰ.swap {a} {b} {a'} {b'} {l} e e') =
    >>=-assoc (plus n a) (λ m. plus m b) (λ m. sum_from m l)
    ∙ ap (λ r. r >>= λ m. sum_from m l) (exchange_plus n a b)
    ∙ ap (λ p. (plus n p.0 >>= λ m. plus m p.1) >>= λ m. sum_from m l) (pair_path e' e)
    ∙ sym (>>=-assoc (plus n a') (λ m. plus m b') (λ m. sum_from m l))
sum_from-Permᴰ n (Permᴰ.trans d d') = sum_from-Permᴰ n d ∙ sum_from-Permᴰ n d'

length-Permᴰ : {vs ws : List Value} → Permᴰ vs ws → length vs ≡ length ws
length-Permᴰ Permᴰ.nil = refl
length-Permᴰ (Permᴰ.cons e d) = ap suc (length-Permᴰ d)
length-Permᴰ (Permᴰ.swap e e') = refl
length-Permᴰ (Permᴰ.trans d d') = length-Permᴰ d ∙ length-Permᴰ d'

total_if-Permᴰ :
    (t : ℤ) {vs ws : List Value}
    → Permᴰ vs ws
    → ◌≡◌ {A = Option ℤ}
        (elim vs [ [] ↦ none | x ∷ xs ↦ some t ])
        (elim ws [ [] ↦ none | x ∷ xs ↦ some t ])
total_if-Permᴰ t Permᴰ.nil = refl
total_if-Permᴰ t (Permᴰ.cons e d) = refl
total_if-Permᴰ t (Permᴰ.swap e e') = refl
total_if-Permᴰ t (Permᴰ.trans d d') = total_if-Permᴰ t d ∙ total_if-Permᴰ t d'

roll_field-Permᴰ :
    (k : String) {xs ys : List Value} {r : Option ℤ × ℕ}
    → Permᴰ xs ys
    → roll_field k xs ≡ ok r
    → roll_field k ys ≡ ok r
unfolding roll_field
roll_field-Permᴰ k {xs} {ys} d h =
    let (vs, found, h1) = >>=-eq-ok (observed k xs) _ h in
    let (t, total, h2) = >>=-eq-ok (sum_from (pos 0) vs) _ h1 in
    let (ws, found', d') = observed-Permᴰ k d found in
    rw
      (
        found',
        sym (sum_from-Permᴰ (pos 0) d') ∙ total,
        sym (total_if-Permᴰ t d'),
        sym (length-Permᴰ d'),
      )
      h2

roll_tokens-Permᴰ :
    (ks : List String) {xs ys : List Value} {r : List (String × Option ℤ × ℕ)}
    → Permᴰ xs ys
    → roll_tokens ks xs ≡ ok r
    → roll_tokens ks ys ≡ ok r
unfolding roll_tokens
roll_tokens-Permᴰ [] d h = h
roll_tokens-Permᴰ (k ∷ ks) {xs} {ys} d h =
    let (one, first, h1) = >>=-eq-ok (roll_field k xs) _ h in
    let (rest, others, h2) = >>=-eq-ok (roll_tokens ks xs) _ h1 in
    rw (roll_field-Permᴰ k d first, roll_tokens-Permᴰ ks d others) h2

-- What a rollup selects and counts does not depend on the order in which the events were added: the
-- same events in another order give the same sum and the same coverage for every token field.
pub rollup_order :
    (p : RollupArguments) {xs ys : List Value} {r : List (String × Option ℤ × ℕ)}
    → Permᴰ xs ys
    → (filter_result (is_match p) xs >>= roll_tokens token_fields) ≡ ok r
    → (filter_result (is_match p) ys >>= roll_tokens token_fields) ≡ ok r
rollup_order p {xs} d h =
    let (matches, kept, h1) = >>=-eq-ok (filter_result (is_match p) xs) _ h in
    let (matches', kept', d') = filter_result-Permᴰ (is_match p) d kept in
    rw kept' (roll_tokens-Permᴰ token_fields d' h1)
