-- ===== src/Conformance/Agreement.antt =====
-- conformance/runner/validate.py beside validation.py: which records the two accept.
use agentrust_telemetry.Base.{
  not-false, ℕ, suc, ◌≡◌, refl, sym, ap, ◌∙◌, ◌↔◌, Bool, true, false, not, ◌||◌, String, Option,
  none, some, List, [], ◌∷◌, map, append-nil, str_eq, if◌then◌else◌, or_split,
}
use agentrust_telemetry.Base.Outcome.{
  Exn, Result, ok, err, >>=-eq-ok, ok-injective, raise_if, raise_if-eq-ok, event_validation_error,
  external_error,
}
use agentrust_telemetry.Value.{
  text, foreign, Value, list, dict, Items, nil, cons, Fields, end, field,
}
use agentrust_telemetry.Value.Words.{codes, has_prefix}
use agentrust_telemetry.Validation.{
  JsonPath, at_key, at_index, Schemas, Walk, json_shape_error, is_clean, is_nil, unlisted,
  attributes_of, event_type_text, validate_object, validate,
}
use agentrust_telemetry.Validation as Sdk
use agentrust_telemetry.Conformance.{
  schema_name, schema_file, event_schemas, is_prohibited, prohibited_paths, prohibited_fields,
  prohibited_items, invalid, prohibited, record_errors, validate_record,
}

is_prohibited-same : (k : String) → is_prohibited k ≡ Sdk.is_prohibited k
unfolding is_prohibited Sdk.is_prohibited
is_prohibited-same k = refl

mutual
  unfolding prohibited_paths Sdk.prohibited_paths is_prohibited Sdk.is_prohibited

  -- Both list the same prohibited paths, in the same order.
  pub prohibited_paths-same :
      (v : Value) (p : JsonPath) → prohibited_paths v p ≡ Sdk.prohibited_paths v p
  prohibited_paths-same (dict fs) p = prohibited_fields-same fs p
  prohibited_paths-same (list vs) p = prohibited_items-same vs 0 p
  prohibited_paths-same v p = refl

  prohibited_fields-same :
      (fs : Fields) (p : JsonPath) → prohibited_fields fs p ≡ Sdk.prohibited_fields fs p
  prohibited_fields-same end p = refl
  prohibited_fields-same (field (foreign t) v fs) p = refl
  prohibited_fields-same (field (text k) v fs) p =
      rw (prohibited_paths-same v (at_key k ∷ p), prohibited_fields-same fs p) refl

  prohibited_items-same :
      (vs : Items) (i : ℕ) (p : JsonPath) → prohibited_items vs i p ≡ Sdk.prohibited_items vs i p
  prohibited_items-same nil i p = refl
  prohibited_items-same (cons v vs) i p =
      rw (prohibited_paths-same v (at_index i ∷ p), prohibited_items-same vs (suc i) p) refl

-- the value of a call that returned
abbrev pub returned {ℓ} : {A : Type ℓ} → Result A → Option A
returned (ok a) = some a
returned (err e) = none

family-same :
    (a b : Bool) (x y : Exn) (m n : String)
    → returned (if a then ok m else if b then ok n else err x)
      ≡ returned (if a then ok m else if b then ok n else err y)
family-same true b x y m n = refl
family-same false true x y m n = refl
family-same false false x y m n = refl

table_cons :
    (b : Bool) (name : String) (o : Option String) (family r : Result String)
    → returned (elim o [ some k ↦ ok k | none ↦ family ]) ≡ returned r
    → returned (elim (if b then some name else o) [ some k ↦ ok k | none ↦ family ])
      ≡ returned (if b then ok name else r)
table_cons true name o family r e = refl
table_cons false name o family r e = e

table-same :
    (t : String) (table : List (String × String))
    → returned (elim (Sdk.find_schema t table) [ some k ↦ ok k | none ↦ Sdk.family_schema t ])
      ≡ returned (schema_file t table)
unfolding Sdk.find_schema Sdk.family_schema schema_file
table-same t [] =
    family-same (has_prefix (codes "approval.") (codes t))
      (has_prefix (codes "evidence.") (codes t)) _ _ _ _
table-same t ((known, name) ∷ rest) =
    table_cons (str_eq known t) name (Sdk.find_schema t rest) (Sdk.family_schema t)
      (schema_file t rest) (table-same t rest)

schema_name-same : (t : String) → returned (Sdk.schema_name t) ≡ returned (schema_name t)
unfolding Sdk.schema_name schema_name
schema_name-same t = table-same t event_schemas

of_returned : (p q : Result String) {n : String} → returned p ≡ returned q → p ≡ ok n → q ≡ ok n
of_returned (ok a) (ok b) e h = cc
of_returned (ok a) (err y) e h = cc
of_returned (err x) q e h = cc

map-nil : {A B : Type 0} (f : A → B) (xs : List A) → map f xs ≡ [] → xs ≡ []
map-nil f [] e = refl
map-nil f (x ∷ xs) e = cc

is_nil-eq : {A : Type 0} (xs : List A) → not (is_nil xs) ≡ false → xs ≡ []
is_nil-eq [] e = refl
is_nil-eq (x ∷ xs) e = cc

record_errors-nil :
    (s : Schemas) (fs : Fields) (r : Result String)
    → record_errors s fs r ≡ ok []
    → (name : String) × (r ≡ ok name)
      × (s.is_loaded name ≡ true)
      × (s.iter_errors name (dict fs) ≡ [])
      × (prohibited_paths (dict fs) [] ≡ ok [])
unfolding record_errors
record_errors-nil s fs (err e) h = let never = ok-injective h in cc
record_errors-nil s fs (ok name) h =
    let (_, loaded, h1) =
      >>=-eq-ok (raise_if (not (s.is_loaded name)) (external_error "FileNotFoundError")) _ h in
    let (paths, found, h2) = >>=-eq-ok (prohibited_paths (dict fs) []) _ h1 in
    let (a, b) =
      append-nil (map invalid (s.iter_errors name (dict fs))) (map prohibited paths)
        (ok-injective h2) in
    (
      name,
      refl,
      not-false _ (raise_if-eq-ok _ _ loaded),
      map-nil invalid _ a,
      found ∙ ap ok (map-nil prohibited paths b),
    )

accepted-reported :
    (s : Schemas) (fs : Fields)
    → validate s (dict fs) ≡ ok tt
    → (is_clean (json_shape_error (dict fs)) ≡ true)
      × (unlisted s.allowed_attribute_keys (attributes_of fs) ≡ [])
      × (validate_record s fs ≡ ok [])
unfolding validate validate_object validate_record record_errors
accepted-reported s fs e =
    let (_, shaped, e1) =
      >>=-eq-ok
        (raise_if (not (is_clean (json_shape_error (dict fs))))
          (event_validation_error "not a JSON value"))
        _ e in
    let (name, named, e2) = >>=-eq-ok (Sdk.schema_name (event_type_text s fs)) _ e1 in
    let (_, loaded, e3) =
      >>=-eq-ok
        (raise_if (not (s.is_loaded name)) (event_validation_error "required schema is missing")) _
        e2 in
    let (paths, found, e4) = >>=-eq-ok (Sdk.prohibited_paths (dict fs) []) _ e3 in
    let (ab, c) =
      or_split (not (is_nil (s.iter_errors name (dict fs))) || not (is_nil paths))
        (not (is_nil (unlisted s.allowed_attribute_keys (attributes_of fs))))
        (raise_if-eq-ok _ _ e4) in
    let (a, b) = or_split (not (is_nil (s.iter_errors name (dict fs)))) (not (is_nil paths)) ab in
    let own =
      of_returned (Sdk.schema_name (event_type_text s fs)) (schema_name (event_type_text s fs))
        (schema_name-same (event_type_text s fs)) named in
    (
      not-false _ (raise_if-eq-ok _ _ shaped),
      is_nil-eq _ c,
      rw
          (
            own,
            not-false _ (raise_if-eq-ok _ _ loaded),
            prohibited_paths-same (dict fs) [] ∙ found,
            is_nil-eq _ a,
            is_nil-eq paths b,
          )
          refl,
    )

reported-accepted :
    (s : Schemas) (fs : Fields)
    → (is_clean (json_shape_error (dict fs)) ≡ true)
      × (unlisted s.allowed_attribute_keys (attributes_of fs) ≡ [])
      × (validate_record s fs ≡ ok [])
    → validate s (dict fs) ≡ ok tt
unfolding validate validate_object validate_record
reported-accepted s fs (shaped, listed, silent) =
    let (name, own, loaded, valid, clean) =
      record_errors-nil s fs (schema_name (event_type_text s fs)) silent in
    let named =
      of_returned (schema_name (event_type_text s fs)) (Sdk.schema_name (event_type_text s fs))
        (sym (schema_name-same (event_type_text s fs))) own in
    rw (shaped, named, loaded, sym (prohibited_paths-same (dict fs) []) ∙ clean, valid, listed) refl

-- The SDK accepts an event exactly if the conformance runner reports nothing for it, its shape is
-- within the SDK's bounds and each of its attributes is in the SDK's allowlist: beyond these two
-- checks, which the runner does not make, the two agree on every event.
pub validate-validate_record :
    (s : Schemas) (fs : Fields)
    → (validate s (dict fs) ≡ ok tt) ↔ (
        (is_clean (json_shape_error (dict fs)) ≡ true)
        × (unlisted s.allowed_attribute_keys (attributes_of fs) ≡ [])
        × (validate_record s fs ≡ ok []))
validate-validate_record s fs = (accepted-reported s fs, reported-accepted s fs)
