-- ===== src/Validation.antt =====
-- agentrust_telemetry/validation.py: which events the SDK accepts. The JSON Schema library is a
-- parameter. A path such as `$.a[0]` is the list of its steps, the last first.
pub mod Shape
pub mod Privacy
pub mod Accepts
use agentrust_telemetry.Base.{
  ℕ, zero, suc, ◌+◌, Bool, true, false, not, ◌||◌, String, Option, none, some, List, [], ◌∷◌, ◌++◌,
  any, map, ltb, str_eq, if◌then◌else◌, ◌⊎◌, inl, inr,
}
use agentrust_telemetry.Base.Outcome.{
  Result, ok, err, ◌>>=◌, ◌>>◌, raise_if, attribute_error, event_validation_error,
}
use agentrust_telemetry.Value.{
  Float, nan, infinity, minus_infinity, finite, Key, text, foreign, Value, float, str, list, dict,
  Items, nil, cons, Fields, end, field, lookup,
}
use agentrust_telemetry.Value.Words.{codes, lower, eq_codes, has_prefix}
use agentrust_telemetry.Value.Access.{is_dict}
use agentrust_telemetry.Trace.Policy.{to_text}

abbrev pub event_schemas : List (String × String)
event_schemas =
    ("action.executed", "action.schema.json")
    ∷ ("policy.decision", "policy-decision.schema.json")
    ∷ ("usage.recorded", "usage.schema.json")
    ∷ ("data_flow.observed", "data-flow.schema.json")
    ∷ []

abbrev pub prohibited_keys : List String
prohibited_keys =
    "prompt" ∷ "completion" ∷ "source_code" ∷ "tool_arguments" ∷ "tool_result" ∷ "authorization"
    ∷ "credential" ∷ "secret" ∷ "access_token" ∷ "refresh_token" ∷ []

unfoldable pub find_schema : String → List (String × String) → Option String
find_schema k [] = none
find_schema k ((j, name) ∷ m) = if str_eq j k then some name else find_schema k m

-- for an event type outside `EVENT_SCHEMAS`
unfoldable pub family_schema : String → Result String
family_schema event_type =
    if has_prefix (codes "approval.") (codes event_type)
    then ok "approval.schema.json"
    else if has_prefix (codes "evidence.") (codes event_type)
    then ok "evidence.schema.json"
    else err (event_validation_error "unsupported event_type")

unfoldable pub schema_name : String → Result String
unfolding find_schema family_schema
schema_name event_type = elim (find_schema event_type event_schemas) [
  | some name ↦ ok name
  | none ↦ family_schema event_type
]

abbrev pub max_depth : ℕ
max_depth = 32

pub data PathStep : Type 0 where
  at_key : String → PathStep
  at_index : ℕ → PathStep

abbrev pub JsonPath : Type 0
JsonPath = List PathStep

pub data ShapeError : Type 0 where
  too_deep foreign_key not_finite : JsonPath → ShapeError

-- `isinstance(item, float) and not math.isfinite(item)`
unfoldable pub is_infinite : Value → Bool
is_infinite (float nan) = true
is_infinite (float infinity) = true
is_infinite (float minus_infinity) = true
is_infinite _ = false

-- the stack of values that wait, the top first
abbrev pub Stack : Type 0
Stack = List (Value × JsonPath × ℕ)

unfoldable pub push_fields : Fields → JsonPath → ℕ → Stack → ShapeError ⊎ Stack
push_fields end path depth stack = inr stack
push_fields (field (foreign t) v fs) path depth stack = inl (foreign_key path)
push_fields (field (text k) v fs) path depth stack =
    push_fields fs path depth ((v, at_key k ∷ path, suc depth) ∷ stack)

unfoldable pub push_items : Items → ℕ → JsonPath → ℕ → Stack → Stack
push_items nil index path depth stack = stack
push_items (cons v vs) index path depth stack =
    push_items vs (suc index) path depth ((v, at_index index ∷ path, suc depth) ∷ stack)

-- the branches of one round
unfoldable pub expand : Value → JsonPath → ℕ → Stack → ShapeError ⊎ Stack
unfolding push_fields push_items
expand (dict fs) path depth stack = push_fields fs path depth stack
expand (list vs) path depth stack = inr (push_items vs 0 path depth stack)
expand v path depth stack = if is_infinite v then inl (not_finite path) else inr stack

pub data Walk : Type 0 where
  out_of_fuel clean : Walk
  bad : ShapeError → Walk

-- `while stack`, on fuel
unfoldable pub walk : ℕ → Stack → Walk
walk fuel [] = clean
walk zero (top ∷ stack) = out_of_fuel
walk (suc fuel) ((item, path, depth) ∷ stack) =
    if ltb max_depth depth
    then bad (too_deep path)
    else elim (expand item path depth stack) [ inl e ↦ bad e | inr rest ↦ walk fuel rest ]

-- how many values a value holds, itself included
unfoldable mutual
  pub nodes : Value → ℕ
  nodes (list vs) = suc (nodes_items vs)
  nodes (dict fs) = suc (nodes_fields fs)
  nodes v = 1

  pub nodes_items : Items → ℕ
  nodes_items nil = 0
  nodes_items (cons v vs) = nodes v + nodes_items vs

  pub nodes_fields : Fields → ℕ
  nodes_fields end = 0
  nodes_fields (field k v fs) = nodes v + nodes_fields fs

unfoldable pub json_shape_error : Value → Walk
unfolding walk expand nodes is_infinite
json_shape_error v = walk (nodes v) ((v, [], 0) ∷ [])

unfoldable pub is_prohibited : String → Bool
unfolding lower eq_codes
is_prohibited key = any (λ p. eq_codes (lower (codes key)) (codes p)) prohibited_keys

unfoldable mutual
  pub prohibited_paths : Value → JsonPath → Result (List JsonPath)
  prohibited_paths (dict fs) prefix = prohibited_fields fs prefix
  prohibited_paths (list vs) prefix = prohibited_items vs 0 prefix
  prohibited_paths v prefix = ok []

  pub prohibited_fields : Fields → JsonPath → Result (List JsonPath)
  prohibited_fields end prefix = ok []
  prohibited_fields (field (foreign t) v fs) prefix = err (attribute_error "lower")
  prohibited_fields (field (text k) v fs) prefix =
      prohibited_paths v (at_key k ∷ prefix) >>= λ inner. prohibited_fields fs prefix >>= λ others.
      ok ((if is_prohibited k then (at_key k ∷ prefix) ∷ inner else inner) ++ others)

  pub prohibited_items : Items → ℕ → JsonPath → Result (List JsonPath)
  prohibited_items nil index prefix = ok []
  prohibited_items (cons v vs) index prefix =
      prohibited_paths v (at_index index ∷ prefix) >>= λ inner.
      prohibited_items vs (suc index) prefix >>= λ others. ok (inner ++ others)

-- The keys of the attributes that are not in the allowlist; a key that is no `str` is in none.
unfoldable pub unlisted : List String → Fields → List Key
unlisted allowed end = []
unlisted allowed (field (foreign t) v fs) = foreign t ∷ unlisted allowed fs
unlisted allowed (field (text k) v fs) =
    let rest = unlisted allowed fs in if any (str_eq k) allowed then rest else text k ∷ rest

-- `event.get("attributes", {})`, where it is a dictionary
unfoldable pub attributes_of : Fields → Fields
attributes_of fs = elim (lookup "attributes" fs) [ some (dict gs) ↦ gs | _ ↦ end ]

-- What a validator was made with: the schema files that it loaded, the messages of
-- `Draft202012Validator(...).iter_errors` for an event, in the order of their paths, the
-- allowlist, and `str` of a value that is no text.
pub record Schemas : Type 0 where
  pub is_loaded : String → Bool
  pub iter_errors : String → Value → List String
  pub allowed_attribute_keys : List String
  pub display : Value → String

abbrev pub is_clean : Walk → Bool
is_clean clean = true
is_clean _ = false

-- `str(event.get("event_type", ""))`
unfoldable pub event_type_text : Schemas → Fields → String
event_type_text s fs = elim (lookup "event_type" fs) [ none ↦ "" | some v ↦ to_text s.display v ]

abbrev pub is_nil {ℓ} : {A : Type ℓ} → List A → Bool
is_nil [] = true
is_nil (x ∷ xs) = false

unfoldable pub validate_object : Schemas → Fields → Result (Unit {0})
validate_object s fs = do
  raise_if (not (is_clean (json_shape_error (dict fs)))) (event_validation_error "not a JSON value")
  name ← schema_name (event_type_text s fs)
  raise_if (not (s.is_loaded name)) (event_validation_error "required schema is missing")
  privacy_paths ← prohibited_paths (dict fs) []
  raise_if
      (not (is_nil (s.iter_errors name (dict fs)))
        || not (is_nil privacy_paths)
        || not (is_nil (unlisted s.allowed_attribute_keys (attributes_of fs))))
      (event_validation_error "invalid event")

-- `SchemaValidator.validate`
unfoldable pub validate : Schemas → Value → Result (Unit {0})
validate s (dict fs) = validate_object s fs
validate s v = err (event_validation_error "event must be an object")
