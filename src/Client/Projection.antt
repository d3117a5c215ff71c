-- ===== src/Client/Projection.antt =====
-- `span_attributes` of projection.py: what the attributes of a span event are.
use mathlib.Core.Path.{subst}
use agentrust_telemetry.Base.{
  ◌≡◌, refl, sym, ap, ◌∙◌, inl, inr, Bool, true, false, List, [], ◌∷◌, All, All-map, Some, Some-map,
  Bool-cases, String, str_eq, eq_iff, if◌then◌else◌,
}
use agentrust_telemetry.Base.Outcome.{ok, >>=-eq-ok, ok-injective}
use agentrust_telemetry.Value.{Value, Key, text, foreign, Fields, end, field, fields, assign}
use agentrust_telemetry.Value.Access.{get}
use agentrust_telemetry.Client.{direct_attributes, is_scalar, project, span_attributes}

module _ (P : Key × Value → Type 0) where
  assign-All :
      (k : String) (v : Value) (fs : Fields)
      → All P (fields fs)
      → P (text k, v)
      → All P (fields (assign k v fs))
  unfolding assign
  assign-All k v end h p = (p, tt)
  assign-All k v (field (foreign t) w fs) (q, h) p = (q, assign-All k v fs h p)
  assign-All k v (field (text j) w fs) (q, h) p = elim (Bool-cases (str_eq j k)) [
    | inl e ↦ rw e (subst (λ i. P (text i, v)) (sym ((eq_iff j k).0 e)) p, h)
    | inr e ↦ rw e (q, assign-All k v fs h p)
  ]

  assign_scalar-All :
      (b : Bool) (k : String) (v : Value) (fs : Fields)
      → All P (fields fs)
      → (b ≡ true → P (text k, v))
      → All P (fields (if b then assign k v fs else fs))
  assign_scalar-All true k v fs h p = assign-All k v fs h (p refl)
  assign_scalar-All false k v fs h p = h

  project-All :
      (table : List (String × String)) (event : Value) (acc : Fields) {out : Fields}
      → All
          (λ (source, destination).
            (v : Value) → get event source ≡ ok v → is_scalar v ≡ true → P (text destination, v))
          table
      → All P (fields acc)
      → project table event acc ≡ ok out
      → All P (fields out)
  unfolding project
  project-All [] event acc rows h e = subst (λ fs. All P (fields fs)) (ok-injective e) h
  project-All ((source, destination) ∷ table) event acc (row, rows) h e =
      let (v, found, e1) = >>=-eq-ok (get event source) _ e in
      project-All table event _ rows
        (assign_scalar-All (is_scalar v) destination v acc h (row v found)) e1

in_itself : {A : Type 0} (xs : List A) → All (λ x. Some (λ y. y ≡ x) xs) xs
in_itself [] = tt
in_itself (x ∷ xs) = (inl refl, All-map (λ y h. inr h) xs (in_itself xs))

-- An attribute of a span comes from a row of the table, and its value is a scalar of the event.
abbrev pub IsDirect : Value → Key × Value → Type 0
IsDirect event (key, v) =
    (is_scalar v ≡ true)
    × Some (λ (source, destination). (key ≡ text destination) × (get event source ≡ ok v))
        direct_attributes

IsRow : Value → String × String → Type 0
IsRow event row =
    (v : Value) → get event row.0 ≡ ok v → is_scalar v ≡ true → IsDirect event (text row.1, v)

IsRow-IsDirect :
    (event : Value) (row : String × String)
    → Some (λ y. y ≡ row) direct_attributes
    → IsRow event row
unfolding IsRow
IsRow-IsDirect event row h v found scalar = (
  scalar,
  Some-map {P = λ y. y ≡ row} {Q = λ y. (text row.1 ≡ text y.1) × (get event y.0 ≡ ok v)}
      (λ y e. (ap (λ z. text z.1) (sym e), ap (λ z. get event z.0) e ∙ found)) direct_attributes h,
)

-- Each attribute that a span event carries has a name of `DIRECT_ATTRIBUTES`, and its value is the
-- scalar that the event holds under the row's source; no other part of the event is exported.
pub span_attributes-IsDirect :
    (event : Value) (out : Fields)
    → span_attributes event ≡ ok out
    → All (IsDirect event) (fields out)
unfolding span_attributes IsRow
span_attributes-IsDirect event out e =
    project-All (IsDirect event) direct_attributes event end
      (All-map {P = λ row. Some (λ y. y ≡ row) direct_attributes} {Q = IsRow event}
        (IsRow-IsDirect event) direct_attributes (in_itself direct_attributes))
      tt e
