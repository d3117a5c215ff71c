-- ===== src/Value/Lookup.antt =====
-- What a dictionary holds after `d[key] = v`.
use agentrust_telemetry.Base.{
  ◌≡◌, refl, ap, ◌∙◌, inl, inr, false, String, some, Bool-cases, if◌then◌else◌, str_eq, eq_iff,
}
use agentrust_telemetry.Value.{Value, Fields, end, field, text, foreign, lookup, assign}

pub lookup-assign : (k : String) (v : Value) (fs : Fields) → lookup k (assign k v fs) ≡ some v
unfolding lookup assign
lookup-assign k v end = rw ((eq_iff k k).1 refl) refl
lookup-assign k v (field (foreign t) w fs) = lookup-assign k v fs
lookup-assign k v (field (text j) w fs) = elim (Bool-cases (str_eq j k)) [
  | inl e ↦ rw (e, e) refl
  | inr e ↦ rw (e, e) (lookup-assign k v fs)
]

pub lookup-assign_other :
    (k j : String) (v : Value) (fs : Fields)
    → str_eq j k ≡ false
    → lookup k (assign j v fs) ≡ lookup k fs
unfolding lookup assign
lookup-assign_other k j v end h = rw h refl
lookup-assign_other k j v (field (foreign t) w fs) h = lookup-assign_other k j v fs h
lookup-assign_other k j v (field (text i) w fs) h = elim (Bool-cases (str_eq i j)) [
  | inl e ↦
      let no : str_eq i k ≡ false = ap (λ s. str_eq s k) ((eq_iff i j).0 e) ∙ h in rw (e, no) refl
  | inr e ↦ rw e (ap (λ rest. if str_eq i k then some w else rest) (lookup-assign_other k j v fs h))
]
