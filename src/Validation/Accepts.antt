-- ===== src/Validation/Accepts.antt =====
-- `SchemaValidator.validate` of validation.py: what an accepted event is.
use agentrust_telemetry.Base.{
  not-false, ◌≡◌, refl, sym, ap, ◌∙◌, ◌↔◌, inl, inr, Bool, true, false, not, ◌||◌, List, [], ◌∷◌,
  some, arith, Bool-cases, String, any, str_eq,
}
use agentrust_telemetry.Base.Outcome.{ok, >>=-eq-ok, raise_if, raise_if-eq-ok}
use agentrust_telemetry.Value.{text, foreign, Value, dict, Fields, end, field}
use agentrust_telemetry.Validation.{
  Walk, out_of_fuel, clean, bad, json_shape_error, prohibited_paths, Schemas, is_nil, is_clean,
  unlisted, attributes_of, event_type_text, schema_name, validate_object, validate,
}
use agentrust_telemetry.Validation.Shape.{well_shaped, verdict, json_shape_error_lem}
use agentrust_telemetry.Validation.Privacy.{
  HasKey, IsPermitted, prohibited_paths-nil, prohibited_paths-clean,
}

-- Each key of the fields is a text in the allowlist.
unfoldable pub IsListed : List String → Fields → Type 0
IsListed allowed end = Unit
IsListed allowed (field (foreign t) v fs) = ⊥
IsListed allowed (field (text k) v fs) = (any (str_eq k) allowed ≡ true) × IsListed allowed fs

-- An acceptable event: a JSON value within the bounds, valid under the loaded schema of its
-- type, free of prohibited keys at any depth, with attributes from the allowlist only.
pub record IsAcceptable (s : Schemas) (fs : Fields) : Type 0 where
  pub is_shaped : well_shaped 0 (dict fs) ≡ true
  pub schema : String
  pub is_named : schema_name (event_type_text s fs) ≡ ok schema
  pub is_loaded : s.is_loaded schema ≡ true
  pub has_no_error : s.iter_errors schema (dict fs) ≡ []
  pub is_private : (k : String) → HasKey k (dict fs) → IsPermitted k
  pub is_listed : IsListed s.allowed_attribute_keys (attributes_of fs)

unlisted-nil :
    (allowed : List String) (fs : Fields) → unlisted allowed fs ≡ [] → IsListed allowed fs
unfolding unlisted IsListed
unlisted-nil allowed end e = tt
unlisted-nil allowed (field (foreign t) v fs) e = cc
unlisted-nil allowed (field (text k) v fs) e = elim (Bool-cases (any (str_eq k) allowed)) [
  | inl h ↦ (h, unlisted-nil allowed fs (ground arith))
  | inr h ↦ ground arith
]

IsListed-unlisted :
    (allowed : List String) (fs : Fields) → IsListed allowed fs → unlisted allowed fs ≡ []
unfolding unlisted IsListed
IsListed-unlisted allowed end h = refl
IsListed-unlisted allowed (field (foreign t) v fs) h = absurd h
IsListed-unlisted allowed (field (text k) v fs) (h, rest) = rw h (IsListed-unlisted allowed fs rest)

is_nil-lem {ℓ} : {A : Type ℓ} (xs : List A) → is_nil xs ≡ true → xs ≡ []
is_nil-lem [] e = refl
is_nil-lem (x ∷ xs) e = cc

verdict-clean : (w : Walk) (b : Bool) → verdict w ≡ some b → is_clean w ≡ b
verdict-clean out_of_fuel b e = cc
verdict-clean clean b e = cc
verdict-clean (bad x) b e = cc

shape_verdict : (fs : Fields) → is_clean (json_shape_error (dict fs)) ≡ well_shaped 0 (dict fs)
shape_verdict fs = verdict-clean _ _ (json_shape_error_lem (dict fs))

passes : (a b c : Bool) → (not a || not b || not c) ≡ false → (a ≡ true) × (b ≡ true) × (c ≡ true)
passes true true true e = (refl, refl, refl)
passes true true false e = cc
passes true false c e = cc
passes false b c e = cc

accepted : (s : Schemas) (fs : Fields) → validate_object s fs ≡ ok tt → IsAcceptable s fs
unfolding validate_object
accepted s fs e =
    let (u, shaped, e1) =
      >>=-eq-ok (raise_if (not (is_clean (json_shape_error (dict fs)))) _) _ e in
    let (name, named, e2) = >>=-eq-ok (schema_name (event_type_text s fs)) _ e1 in
    let (u2, loaded, e3) = >>=-eq-ok (raise_if (not (s.is_loaded name)) _) _ e2 in
    let (paths, scanned, e4) = >>=-eq-ok (prohibited_paths (dict fs) []) _ e3 in
    let (no_error, no_path, no_key) =
      passes (is_nil (s.iter_errors name (dict fs))) (is_nil paths)
        (is_nil (unlisted s.allowed_attribute_keys (attributes_of fs))) (raise_if-eq-ok _ _ e4) in
    record {
      is_shaped = sym (shape_verdict fs) ∙ not-false _ (raise_if-eq-ok _ _ shaped);
      schema = name;
      is_named = named;
      is_loaded = not-false _ (raise_if-eq-ok _ _ loaded);
      has_no_error = is_nil-lem _ no_error;
      is_private = prohibited_paths-nil (dict fs) [] (scanned ∙ ap ok (is_nil-lem paths no_path));
      is_listed = unlisted-nil _ _ (is_nil-lem _ no_key);
    }

acceptable : (s : Schemas) (fs : Fields) → IsAcceptable s fs → validate_object s fs ≡ ok tt
unfolding validate_object
acceptable s fs a =
    rw
      (
        shape_verdict fs,
        a.is_shaped,
        a.is_named,
        a.is_loaded,
        a.has_no_error,
        prohibited_paths-clean 0 (dict fs) [] a.is_shaped a.is_private,
        IsListed-unlisted _ _ a.is_listed,
      )
      refl

-- An event as the contract admits it: a dictionary that is acceptable.
abbrev pub IsAccepted : Schemas → Value → Type 0
IsAccepted s v = (fs : Fields) × (v ≡ dict fs) × IsAcceptable s fs

validate-IsAccepted : (s : Schemas) (v : Value) → validate s v ≡ ok tt → IsAccepted s v
unfolding validate
validate-IsAccepted s (dict fs) e = (fs, refl, accepted s fs e)
validate-IsAccepted s v e = cc

-- The validator accepts a value exactly if it is an acceptable event: a dictionary nested no deeper
-- than 32 with text keys and finite floats, valid under the loaded schema of its type, without a
-- prohibited key at any depth, its attributes from the allowlist.
pub validate_lem : (s : Schemas) (v : Value) → (validate s v ≡ ok tt) ↔ IsAccepted s v
unfolding validate
validate_lem s v = (validate-IsAccepted s v, λ (fs, e, a). ap (validate s) e ∙ acceptable s fs a)
