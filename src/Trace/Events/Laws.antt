-- ===== src/Trace/Events/Laws.antt =====
-- What a comprehension that returned says of each item.
use agentrust_telemetry.Base.{
  ◌≡◌, refl, sym, ap, ◌∙◌, ◌⊎◌, inl, inr, Bool, true, false, not, String, List, [], ◌∷◌, select,
  All, Some, arith, eq_iff, if◌then◌else◌, Bool-cases,
}
use agentrust_telemetry.Base.Outcome.{Result, ok, ok-injective, >>=-eq-ok, traverse}
use mathlib.Core.Path.{subst}
use agentrust_telemetry.Value.{Value, bool, int, float, str, nan, infinity, minus_infinity, finite}
use agentrust_telemetry.Value.Equality.{eq_value}
use agentrust_telemetry.Value.Access.{check_hashable}
use agentrust_telemetry.Trace.Events.{filter_result, set_by, hashed}

module _ {ℓ} {A : Type ℓ} (P : A → Type 0) where
  All-of_kept :
      (b : Bool) (x : A) (zs : List A)
      → All P (if b then x ∷ zs else zs)
      → (b ≡ true → P x) × All P zs
  All-of_kept true x zs (p, h) = (λ e. p, h)
  All-of_kept false x zs h = (λ e. cc, h)

  Some-of_kept :
      (b : Bool) (x : A) (zs : List A)
      → Some P (if b then x ∷ zs else zs)
      → ((b ≡ true) × P x) ⊎ Some P zs
  Some-of_kept true x zs (inl p) = inl (refl, p)
  Some-of_kept true x zs (inr h) = inr h
  Some-of_kept false x zs h = inr h

module _ {ℓ} {A : Type ℓ} (P : A → Type 0) (p : A → Result Bool) where
  -- what holds of every item that was kept holds of every item that the condition accepts
  pub filter_result-All :
      (xs : List A) {ys : List A}
      → filter_result p xs ≡ ok ys
      → All P ys
      → All (λ x. p x ≡ ok true → P x) xs
  unfolding filter_result
  filter_result-All [] e h = tt
  filter_result-All (x ∷ xs) e h =
      let (b, tested, e1) = >>=-eq-ok (p x) _ e in
      let (zs, rest, e2) = >>=-eq-ok (filter_result p xs) _ e1 in
      let (here, later) = All-of_kept P b x zs (subst (All P) (sym (ok-injective e2)) h) in
      (λ t. here (ok-injective (sym tested ∙ t)), filter_result-All xs rest later)

  -- an item that was kept is one that the condition accepts
  pub filter_result-Some :
      (xs : List A) {ys : List A}
      → filter_result p xs ≡ ok ys
      → Some P ys
      → Some (λ x. (p x ≡ ok true) × P x) xs
  unfolding filter_result
  filter_result-Some [] e h = subst (Some P) (sym (ok-injective e)) h
  filter_result-Some (x ∷ xs) e h =
      let (b, tested, e1) = >>=-eq-ok (p x) _ e in
      let (zs, rest, e2) = >>=-eq-ok (filter_result p xs) _ e1 in
      elim (Some-of_kept P b x zs (subst (Some P) (sym (ok-injective e2)) h)) [
        | inl (kept, q) ↦ inl (tested ∙ ap ok kept, q)
        | inr later ↦ inr (filter_result-Some xs rest later)
      ]

module _ {ℓ} {A : Type ℓ} {B : Type 0} (R : B → Type 0) (f : A → Result B) where
  pub traverse-All :
      (xs : List A) {ys : List B}
      → traverse f xs ≡ ok ys
      → All R ys
      → All (λ x. (y : B) × (f x ≡ ok y) × R y) xs
  traverse-All [] e h = tt
  traverse-All (x ∷ xs) e h =
      let (y, done, e1) = >>=-eq-ok (f x) _ e in
      let (zs, rest, e2) = >>=-eq-ok (traverse f xs) _ e1 in
      let (r, rs) = subst (All R) (sym (ok-injective e2)) h in
      ((y, done, r), traverse-All xs rest rs)

  pub traverse-Some :
      (xs : List A) {ys : List B}
      → traverse f xs ≡ ok ys
      → Some R ys
      → Some (λ x. (y : B) × (f x ≡ ok y) × R y) xs
  traverse-Some [] e h = absurd (subst (Some R) (sym (ok-injective e)) h)
  traverse-Some (x ∷ xs) e h =
      let (y, done, e1) = >>=-eq-ok (f x) _ e in
      let (zs, rest, e2) = >>=-eq-ok (traverse f xs) _ e1 in
      let found : R y ⊎ Some R zs = subst (Some R) (sym (ok-injective e2)) h in
      elim found [ inl r ↦ inl (y, done, r) | inr rs ↦ inr (traverse-Some xs rest rs) ]

module _ {ℓ} {A : Type ℓ} (P : A → Type 0) (eq : A → A → Bool) where
  select-All :
      (u : A) (xs : List A)
      → ((t : A) → eq u t ≡ true → P t)
      → All P (select (λ y. not (eq u y)) xs)
      → All P xs
  select-All u [] same h = tt
  select-All u (x ∷ xs) same h =
      let (here, later) = All-of_kept P (not (eq u x)) x (select (λ y. not (eq u y)) xs) h in
      elim (Bool-cases (eq u x)) [
        | inl e ↦ (same x e, select-All u xs same later)
        | inr e ↦ (here (rw e), select-All u xs same later)
      ]

  -- what holds of the members of a set holds of all items that it was made of
  pub set_by-All :
      (xs : List A) → ((u t : A) → P u → eq u t ≡ true → P t) → All P (set_by eq xs) → All P xs
  unfolding set_by
  set_by-All [] closed h = tt
  set_by-All (x ∷ xs) closed (p, h) =
      (p, set_by-All xs closed (select-All x (set_by eq xs) (λ t. closed x t p) h))

-- A value that equals a text is that text.
pub eq_value-str : (v : Value) (s : String) → eq_value v (str s) ≡ true → v ≡ str s
unfolding eq_value
eq_value-str (str t) s h = ap str ((eq_iff t s).0 h)
eq_value-str (bool true) s h = cc
eq_value-str (bool false) s h = cc
eq_value-str (int n) s h = cc
eq_value-str (float (finite m k)) s h = cc
eq_value-str (float nan) s h = cc
eq_value-str (float infinity) s h = cc
eq_value-str (float minus_infinity) s h = cc
eq_value-str _ s h = cc

pub str-eq_value : (s : String) (v : Value) → eq_value (str s) v ≡ true → v ≡ str s
unfolding eq_value
str-eq_value s (str t) h = ap str (sym ((eq_iff s t).0 h))
str-eq_value s _ h = cc

pub hashed-eq-ok {ℓ} :
    {A : Type ℓ} (f : A → Result Value) (x : A) {v : Value} → hashed f x ≡ ok v → f x ≡ ok v
unfolding hashed check_hashable
hashed-eq-ok f x e = ground arith

kept_if {ℓ} :
    {A : Type ℓ} (p : A → Result Bool) (b : Bool) (x : A) (zs : List A)
    → p x ≡ ok b
    → All (λ y. p y ≡ ok true) zs
    → All (λ y. p y ≡ ok true) (if b then x ∷ zs else zs)
kept_if p true x zs e h = (e, h)
kept_if p false x zs e h = h

-- Every item that was kept is accepted by the condition.
pub filter_result-kept {ℓ} :
    {A : Type ℓ} (p : A → Result Bool) (xs : List A) {ys : List A}
    → filter_result p xs ≡ ok ys
    → All (λ y. p y ≡ ok true) ys
unfolding filter_result
filter_result-kept p [] e = subst (All (λ y. p y ≡ ok true)) (ok-injective e) tt
filter_result-kept p (x ∷ xs) e =
    let (b, tested, e1) = >>=-eq-ok (p x) _ e in
    let (zs, rest, e2) = >>=-eq-ok (filter_result p xs) _ e1 in
    subst (All (λ y. p y ≡ ok true)) (ok-injective e2)
      (kept_if p b x zs tested (filter_result-kept p xs rest))
