-- ===== src/Base/Outcome.antt =====
-- Python's exceptions as values: a call returns (`ok`) or raises (`err`). The text is the constant
-- part of the source's message; what the source formats into it is left out.
use mathlib.Core.Path.{◌≡◌, refl}
use mathlib.Core.Logic.{◌⊎◌, inl, inr}
use mathlib.Core.Bool.{Bool, true, false}
use mathlib.Core.List.{List, [], ◌∷◌}
use Prim.Native.String.{String}

-- errors.py, and the exceptions of Python and of the libraries that the code names.
pub data Exn : Type 0 where
  type_error value_error key_error attribute_error overflow_error : String → Exn
  canonicalization_error : Exn
  -- whatever else a callback or an external library raises
  external_error : String → Exn
  event_validation_error context_mismatch_error propagation_error : String → Exn
  evidence_error evidence_persistence_error trace_finalization_error : String → Exn

pub data Result {ℓ} (A : Type ℓ) : Type ℓ where
  ok : A → Result A
  err : Exn → Result A

-- `if test: raise e`
abbrev pub raise_if : Bool → Exn → Result (Unit {0})
raise_if false e = ok tt
raise_if true e = err e

infixl 5 ◌>>=◌
abbrev pub ◌>>=◌ {ℓ κ} : {A : Type ℓ} {B : Type κ} → Result A → (A → Result B) → Result B
err raised >>= next = err raised
ok returned >>= next = next returned

-- a statement, and what follows
infixl 5 ◌>>◌
abbrev pub ◌>>◌ {κ} : {B : Type κ} → Result (Unit {0}) → Result B → Result B
first >> others = first >>= λ unit. others

-- A comprehension whose body may raise: the items in order, up to the first that raises.
abbrev pub traverse {ℓ κ} : {A : Type ℓ} {B : Type κ} → (A → Result B) → List A → Result (List B)
traverse f [] = ok []
traverse f (x ∷ xs) = f x >>= λ y. traverse f xs >>= λ ys. ok (y ∷ ys)

-- A call on a state, and what follows where it returns.
infixl 5 ◌|>◌
abbrev pub ◌|>◌ : {A B W : Type 0} → Result A × W → (A → W → Result B × W) → Result B × W
(ok a, w) |> f = f a w
(err e, w) |> f = (err e, w)

pub |>-eq-ok :
    {A B W : Type 0} (m : Result A × W) (f : A → W → Result B × W) {b : B} {w' : W}
    → (m |> f) ≡ (ok b, w')
    → (a : A) × (w : W) × (m ≡ (ok a, w)) × (f a w ≡ (ok b, w'))
|>-eq-ok (ok a, w) f h = (a, w, refl, h)
|>-eq-ok (err e, w) f h = cc

pub |>-eq-err :
    {A B W : Type 0} (m : Result A × W) (f : A → W → Result B × W) {e : Exn} {w' : W}
    → (m |> f) ≡ (err e, w')
    → (m ≡ (err e, w')) ⊎ ((a : A) × (w : W) × (m ≡ (ok a, w)) × (f a w ≡ (err e, w')))
|>-eq-err (ok a, w) f h = inr (a, w, refl, h)
|>-eq-err (err x, w) f h = inl (cc)

-- Inversion of a bind that returned.
pub >>=-eq-ok {ℓ κ} :
    {A : Type ℓ} {B : Type κ} (call : Result A) (next : A → Result B) {result : B}
    → (call >>= next) ≡ ok result
    → (returned : A) × (call ≡ ok returned) × (next returned ≡ ok result)
>>=-eq-ok (err raised) next same = cc
>>=-eq-ok (ok returned) next same = (returned, refl, same)

pub Result-cases {ℓ} :
    {A : Type ℓ} (r : Result A) → ((a : A) × (r ≡ ok a)) ⊎ ((e : Exn) × (r ≡ err e))
Result-cases (ok a) = inl (a, refl)
Result-cases (err e) = inr (e, refl)

-- A guard that did not raise.
pub raise_if-eq-ok : (b : Bool) (e : Exn) {u : Unit} → raise_if b e ≡ ok u → b ≡ false
raise_if-eq-ok true e h = cc
raise_if-eq-ok false e h = refl

pub ok-injective {ℓ} : {A : Type ℓ} {a b : A} → ok a ≡ ok b → a ≡ b
ok-injective e = cc
