-- ===== src/Base/Lists.antt =====
-- Lists measured and indexed by native numbers, under the library's names.
use Prim.Native.Nat.{ℕ, suc, ◌+◌}
use mathlib.Core.Path.{◌≡◌, refl}
use mathlib.Core.Logic.{◌⊎◌, inl, inr}
use mathlib.Core.Bool.{Bool, true, false, ◌&&◌, ◌||◌}
use mathlib.Core.Option.{Option, none, some}
use mathlib.Core.List.{List, [], ◌∷◌, ◌++◌}
use native.Mathlib.Omega.{arith}
use agentrust_telemetry.Base.Tests.{if◌then◌else◌}

module _ {ℓ} {A : Type ℓ} where
  abbrev pub length : List A → ℕ
  length [] = 0
  length (x ∷ xs) = suc (length xs)

  abbrev pub any : (A → Bool) → List A → Bool
  any p [] = false
  any p (x ∷ xs) = p x || any p xs

  abbrev pub all : (A → Bool) → List A → Bool
  all p [] = true
  all p (x ∷ xs) = p x && all p xs

  -- a list comprehension with a condition
  abbrev pub select : (A → Bool) → List A → List A
  select p [] = []
  select p (x ∷ xs) = let rest = select p xs in if p x then x ∷ rest else rest

  -- `xs[-1] if xs else None`
  abbrev pub last? : List A → Option A
  last? [] = none
  last? (x ∷ []) = some x
  last? (x ∷ y ∷ ys) = last? (y ∷ ys)

  pub length-append : (xs ys : List A) → length (xs ++ ys) ≡ length xs + length ys
  length-append [] ys = omega arith
  length-append (x ∷ xs) ys = omega (arith, length-append xs ys)

  pub append-nil : (xs ys : List A) → xs ++ ys ≡ [] → (xs ≡ []) × (ys ≡ [])
  append-nil [] ys e = (refl, e)
  append-nil (x ∷ xs) ys e = cc

  pub last?-append : (xs : List A) (y : A) → last? (xs ++ y ∷ []) ≡ some y
  last?-append [] y = refl
  last?-append (x ∷ []) y = refl
  last?-append (x ∷ z ∷ zs) y = last?-append (z ∷ zs) y

-- A predicate that holds of every item.
module _ {ℓ κ} {A : Type ℓ} (P : A → Type κ) where
  abbrev pub All : List A → Type κ
  All [] = Unit
  All (x ∷ xs) = P x × All xs

  pub All-append : (xs ys : List A) → All xs → All ys → All (xs ++ ys)
  All-append [] ys h k = k
  All-append (x ∷ xs) ys (p, h) k = (p, All-append xs ys h k)

-- A predicate that holds of some item, with the item that it holds of.
module _ {ℓ} {A : Type ℓ} (P : A → Type 0) where
  abbrev pub Some : List A → Type 0
  Some [] = ⊥
  Some (x ∷ xs) = P x ⊎ Some xs

-- Weakening at each item.
module _ {ℓ} {A : Type ℓ} {P Q : A → Type 0} (f : (x : A) → P x → Q x) where
  pub All-map : (xs : List A) → All P xs → All Q xs
  All-map [] h = tt
  All-map (x ∷ xs) (p, h) = (f x p, All-map xs h)

  pub Some-map : (xs : List A) → Some P xs → Some Q xs
  Some-map [] h = h
  Some-map (x ∷ xs) (inl p) = inl (f x p)
  Some-map (x ∷ xs) (inr h) = inr (Some-map xs h)
