-- ===== src/Validation/Shape.antt =====
-- `_json_shape_error` of validation.py: the shape that it checks, and the fuel that it takes.
use agentrust_telemetry.Base.{
  ℕ, zero, suc, ◌+◌, ◌≤◌, ◌≡◌, refl, ap, ◌∙◌, ◌⊎◌, inl, inr, Bool, true, false, not, ◌&&◌, Option,
  none, some, [], ◌∷◌, arith, ltb, leb, if◌then◌else◌, Bool-cases,
}
use agentrust_telemetry.Value.{
  text, foreign, Value, list, dict, Items, nil, cons, Fields, end, field,
}
use agentrust_telemetry.Validation.{
  ShapeError, Stack, JsonPath, at_key, at_index, not_finite, is_infinite, push_fields, push_items,
  expand, Walk, out_of_fuel, clean, bad, walk, nodes, nodes_items, nodes_fields, json_shape_error,
  max_depth,
}

-- A value at a depth, as the contract means it: no deeper than the bound, with `str` keys and
-- finite floats throughout.
unfoldable mutual
  pub well_shaped : ℕ → Value → Bool
  well_shaped d (list vs) = leb d max_depth && shaped_items (suc d) vs
  well_shaped d (dict fs) = leb d max_depth && shaped_fields (suc d) fs
  well_shaped d v = leb d max_depth && not (is_infinite v)

  pub shaped_items : ℕ → Items → Bool
  shaped_items d nil = true
  shaped_items d (cons v vs) = well_shaped d v && shaped_items d vs

  pub shaped_fields : ℕ → Fields → Bool
  shaped_fields d end = true
  shaped_fields d (field (foreign t) v fs) = false
  shaped_fields d (field (text k) v fs) = well_shaped d v && shaped_fields d fs

abbrev all_shaped : Stack → Bool
all_shaped [] = true
all_shaped ((v, path, d) ∷ s) = well_shaped d v && all_shaped s

abbrev total : Stack → ℕ
total [] = 0
total ((v, path, d) ∷ s) = nodes v + total s

-- what a walk says: `none` that the fuel ran out
abbrev pub verdict : Walk → Option Bool
verdict out_of_fuel = none
verdict clean = some true
verdict (bad e) = some false

-- The children that a round pushes stand for the rest of the value.
abbrev Pushed : Bool → ℕ → Stack → ShapeError ⊎ Stack → Type 0
Pushed shaped n s (inl e) = shaped ≡ false
Pushed shaped n s (inr s') = (all_shaped s' ≡ (shaped && all_shaped s)) × (total s' ≡ n + total s)

Pushed-more :
    (a b : Bool) (v : Value) (path : JsonPath) (d n m : ℕ) (s : Stack) (r : ShapeError ⊎ Stack)
    → a ≡ well_shaped d v
    → n ≡ nodes v
    → Pushed b m ((v, path, d) ∷ s) r
    → Pushed (a && b) (n + m) s r
Pushed-more a b v path d n m s (inl e) p q h = ground arith
Pushed-more a b v path d n m s (inr s') p q (h, k) = (ground arith, omega arith)

push_fields-Pushed :
    (fs : Fields) (path : JsonPath) (d : ℕ) (s : Stack)
    → Pushed (shaped_fields (suc d) fs) (nodes_fields fs) s (push_fields fs path d s)
unfolding push_fields well_shaped nodes
push_fields-Pushed end path d s = (refl, omega arith)
push_fields-Pushed (field (foreign t) v fs) path d s = refl
push_fields-Pushed (field (text k) v fs) path d s =
    Pushed-more _ _ v (at_key k ∷ path) (suc d) _ _ s _ refl refl (push_fields-Pushed fs path d _)

push_items-Pushed :
    (vs : Items) (i : ℕ) (path : JsonPath) (d : ℕ) (s : Stack)
    → Pushed (shaped_items (suc d) vs) (nodes_items vs) s (inr (push_items vs i path d s))
unfolding push_items well_shaped nodes
push_items-Pushed nil i path d s = (refl, omega arith)
push_items-Pushed (cons v vs) i path d s =
    Pushed-more _ _ v (at_index i ∷ path) (suc d) _ _ s (inr _) refl refl
      (push_items-Pushed vs (suc i) path d _)

leaf-Pushed :
    (b : Bool) (e : ShapeError) (d : ℕ) (s : Stack)
    → leb d max_depth ≡ true
    → Pushed (leb d max_depth && not b) 0 s (if b then inl e else inr s)
leaf-Pushed true e d s h = ground arith
leaf-Pushed false e d s h = (rw h refl, omega arith)

below :
    (shaped a : Bool) (n : ℕ) (s : Stack) (r : ShapeError ⊎ Stack)
    → a ≡ true
    → Pushed shaped n s r
    → Pushed (a && shaped) n s r
below shaped a n s (inl e) t h = ground arith
below shaped a n s (inr s') t (h, k) = (ground arith, k)

expand-Pushed :
    (v : Value) (path : JsonPath) (d : ℕ) (s : Stack)
    → leb d max_depth ≡ true
    → (n : ℕ) × (nodes v ≡ suc n) × Pushed (well_shaped d v) n s (expand v path d s)
unfolding expand well_shaped nodes
expand-Pushed (list vs) path d s h =
    (nodes_items vs, refl, below _ _ _ s (inr _) h (push_items-Pushed vs 0 path d s))
expand-Pushed (dict fs) path d s h = (
  nodes_fields fs,
  refl,
  below _ _ _ s (push_fields fs path d s) h (push_fields-Pushed fs path d s),
)
expand-Pushed v path d s h = (0, refl, leaf-Pushed (is_infinite v) (not_finite path) d s h)

too_deep_is_bad : (d : ℕ) (v : Value) → ltb max_depth d ≡ true → well_shaped d v ≡ false
unfolding well_shaped
too_deep_is_bad d (list vs) h = ground arith
too_deep_is_bad d (dict fs) h = ground arith
too_deep_is_bad d v h = ground arith

-- one round, by what it gave
round_lem :
    (fuel n : ℕ) (shaped : Bool) (s : Stack) (r : ShapeError ⊎ Stack)
    → ((rest : Stack) → total rest ≤ fuel → verdict (walk fuel rest) ≡ some (all_shaped rest))
    → n + total s ≤ fuel
    → Pushed shaped n s r
    → verdict (elim r [ inl e ↦ bad e | inr rest ↦ walk fuel rest ]) ≡ some (shaped && all_shaped s)
round_lem fuel n shaped s (inl e) later h p = rw p refl
round_lem fuel n shaped s (inr rest) later h (p, q) = later rest (omega (arith, h, q)) ∙ ap some p

nodes-pos : (v : Value) → (n : ℕ) × (nodes v ≡ suc n)
unfolding nodes
nodes-pos (list vs) = (nodes_items vs, refl)
nodes-pos (dict fs) = (nodes_fields fs, refl)
nodes-pos v = (0, refl)

-- With fuel for every value that waits the walk ends, and finds a fault exactly if there is one.
walk_lem : (fuel : ℕ) (s : Stack) → total s ≤ fuel → verdict (walk fuel s) ≡ some (all_shaped s)
unfolding walk
walk_lem fuel [] h = refl
walk_lem zero ((v, path, d) ∷ s) h = let (n, e) = nodes-pos v in absurd (omega (arith, e, h))
walk_lem (suc fuel) ((v, path, d) ∷ s) h = elim (Bool-cases (ltb max_depth d)) [
  | inl t ↦ rw (t, too_deep_is_bad d v t) refl
  | inr f ↦
      let (n, e, p) = expand-Pushed v path d s (ground arith) in
      rw f (round_lem fuel n _ s _ (walk_lem fuel) (omega (arith, e, h)) p)
]

-- The check of a value's shape ends, and it finds no fault exactly if the value is nested no deeper
-- than the bound, all its keys are texts and all its floats are finite.
pub json_shape_error_lem : (v : Value) → verdict (json_shape_error v) ≡ some (well_shaped 0 v)
unfolding json_shape_error
json_shape_error_lem v = walk_lem (nodes v) ((v, [], 0) ∷ []) (omega arith) ∙ ap some (ground arith)
