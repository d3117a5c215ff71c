-- ===== src/Validation/Privacy.antt =====
-- `_prohibited_paths` of validation.py: the keys that it looks at, at any depth.
use agentrust_telemetry.Base.{
  ℕ, suc, ◌≡◌, refl, sym, ap, ◌∙◌, ◌⊎◌, inl, inr, Bool, true, false, ◌&&◌, List, [], ◌∷◌,
  if◌then◌else◌, String, leb, append-nil,
}
use agentrust_telemetry.Base.Outcome.{ok, >>=-eq-ok, ok-injective}
use agentrust_telemetry.Value.{
  text, foreign, Value, list, dict, Items, nil, cons, Fields, end, field,
}
use agentrust_telemetry.Validation.{
  max_depth, JsonPath, at_key, at_index, is_prohibited, prohibited_paths, prohibited_fields,
  prohibited_items,
}
use agentrust_telemetry.Validation.Shape.{well_shaped, shaped_fields, shaped_items}

-- The keys of the dictionaries within a value, at any depth.
unfoldable mutual
  pub HasKey : String → Value → Type 0
  HasKey k (dict fs) = FieldsHaveKey k fs
  HasKey k (list vs) = ItemsHaveKey k vs
  HasKey k v = ⊥

  pub FieldsHaveKey : String → Fields → Type 0
  FieldsHaveKey k end = ⊥
  FieldsHaveKey k (field (foreign t) v fs) = HasKey k v ⊎ FieldsHaveKey k fs
  FieldsHaveKey k (field (text j) v fs) = (j ≡ k) ⊎ (HasKey k v ⊎ FieldsHaveKey k fs)

  pub ItemsHaveKey : String → Items → Type 0
  ItemsHaveKey k nil = ⊥
  ItemsHaveKey k (cons v vs) = HasKey k v ⊎ ItemsHaveKey k vs

abbrev pub IsPermitted : String → Type 0
IsPermitted k = is_prohibited k ≡ false

guarded-nil {ℓ} :
    {A : Type ℓ} (b : Bool) (x : A) (xs : List A)
    → (if b then x ∷ xs else xs) ≡ []
    → (b ≡ false) × (xs ≡ [])
guarded-nil true x xs e = cc
guarded-nil false x xs e = (refl, e)

-- No path reported: every key within the value is permitted.
mutual
  unfolding prohibited_paths HasKey

  pub prohibited_paths-nil :
      (v : Value) (p : JsonPath)
      → prohibited_paths v p ≡ ok []
      → (k : String) → HasKey k v
      → IsPermitted k
  prohibited_paths-nil (dict fs) p e k h = prohibited_fields-nil fs p e k h
  prohibited_paths-nil (list vs) p e k h = prohibited_items-nil vs 0 p e k h
  prohibited_paths-nil v p e k h = absurd h

  pub prohibited_fields-nil :
      (fs : Fields) (p : JsonPath)
      → prohibited_fields fs p ≡ ok []
      → (k : String) → FieldsHaveKey k fs
      → IsPermitted k
  prohibited_fields-nil end p e k h = absurd h
  prohibited_fields-nil (field (foreign t) v fs) p e k h = cc
  prohibited_fields-nil (field (text j) v fs) p e k h =
      let (inner, e1, f) = >>=-eq-ok (prohibited_paths v (at_key j ∷ p)) _ e in
      let (others, e2, g) = >>=-eq-ok (prohibited_fields fs p) _ f in
      let (a, b) =
        append-nil (if is_prohibited j then (at_key j ∷ p) ∷ inner else inner) others
          (ok-injective g) in
      let (c, d) = guarded-nil (is_prohibited j) (at_key j ∷ p) inner a in
      elim h [
        | inl same ↦ sym (ap is_prohibited same) ∙ c
        | inr (inl deep) ↦ prohibited_paths-nil v (at_key j ∷ p) (e1 ∙ ap ok d) k deep
        | inr (inr later) ↦ prohibited_fields-nil fs p (e2 ∙ ap ok b) k later
      ]

  pub prohibited_items-nil :
      (vs : Items) (i : ℕ) (p : JsonPath)
      → prohibited_items vs i p ≡ ok []
      → (k : String) → ItemsHaveKey k vs
      → IsPermitted k
  prohibited_items-nil nil i p e k h = absurd h
  prohibited_items-nil (cons v vs) i p e k h =
      let (inner, e1, f) = >>=-eq-ok (prohibited_paths v (at_index i ∷ p)) _ e in
      let (others, e2, g) = >>=-eq-ok (prohibited_items vs (suc i) p) _ f in
      let (a, b) = append-nil inner others (ok-injective g) in
      elim h [
        | inl deep ↦ prohibited_paths-nil v (at_index i ∷ p) (e1 ∙ ap ok a) k deep
        | inr later ↦ prohibited_items-nil vs (suc i) p (e2 ∙ ap ok b) k later
      ]

left : (a b : Bool) → (a && b) ≡ true → a ≡ true
left true b e = refl
left false b e = cc

right : (a b : Bool) → (a && b) ≡ true → b ≡ true
right true b e = e
right false b e = cc

-- A well-shaped value all of whose keys are permitted: the scan returns, with no path.
mutual
  unfolding prohibited_paths HasKey well_shaped

  pub prohibited_paths-clean :
      (d : ℕ) (v : Value) (p : JsonPath)
      → well_shaped d v ≡ true
      → ((k : String) → HasKey k v → IsPermitted k)
      → prohibited_paths v p ≡ ok []
  prohibited_paths-clean d (dict fs) p s h =
      prohibited_fields-clean (suc d) fs p (right (leb d max_depth) (shaped_fields (suc d) fs) s) h
  prohibited_paths-clean d (list vs) p s h =
      prohibited_items-clean (suc d) vs 0 p (right (leb d max_depth) (shaped_items (suc d) vs) s) h
  prohibited_paths-clean d v p s h = refl

  pub prohibited_fields-clean :
      (d : ℕ) (fs : Fields) (p : JsonPath)
      → shaped_fields d fs ≡ true
      → ((k : String) → FieldsHaveKey k fs → IsPermitted k)
      → prohibited_fields fs p ≡ ok []
  prohibited_fields-clean d end p s h = refl
  prohibited_fields-clean d (field (foreign t) v fs) p s h = cc
  prohibited_fields-clean d (field (text j) v fs) p s h =
      let deep =
        prohibited_paths-clean d v (at_key j ∷ p) (left (well_shaped d v) (shaped_fields d fs) s)
          (λ k has. h k (inr (inl has))) in
      let later =
        prohibited_fields-clean d fs p (right (well_shaped d v) (shaped_fields d fs) s)
          (λ k has. h k (inr (inr has))) in
      rw (deep, later, h j (inl refl)) refl

  pub prohibited_items-clean :
      (d : ℕ) (vs : Items) (i : ℕ) (p : JsonPath)
      → shaped_items d vs ≡ true
      → ((k : String) → ItemsHaveKey k vs → IsPermitted k)
      → prohibited_items vs i p ≡ ok []
  prohibited_items-clean d nil i p s h = refl
  prohibited_items-clean d (cons v vs) i p s h =
      let deep =
        prohibited_paths-clean d v (at_index i ∷ p) (left (well_shaped d v) (shaped_items d vs) s)
          (λ k has. h k (inl has)) in
      let later =
        prohibited_items-clean d vs (suc i) p (right (well_shaped d v) (shaped_items d vs) s)
          (λ k has. h k (inr has)) in
      rw (deep, later) refl
