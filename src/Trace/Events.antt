-- ===== src/Trace/Events.antt =====
-- Selecting events of a snapshot, and Python's sets of values, as the steps of trace_adapter.py
-- share them.
pub mod Laws
use agentrust_telemetry.Base.{
  ℕ, ◌≡◌, Bool, true, false, not, ◌&&◌, String, Option, none, some, List, [], ◌∷◌, any, select,
  str_eq, if◌then◌else◌,
}
use agentrust_telemetry.Base.Outcome.{Result, ok, err, ◌>>=◌, ◌>>◌, attribute_error}
use agentrust_telemetry.Value.{Value, str, null}
use agentrust_telemetry.Value.Equality.{eq_value}
use agentrust_telemetry.Value.Access.{get_item, check_hashable}
use agentrust_telemetry.Value.Words.{codes, has_prefix}

-- A condition of a comprehension, which may raise.
unfoldable pub filter_result {ℓ} : {A : Type ℓ} → (A → Result Bool) → List A → Result (List A)
filter_result p [] = ok []
filter_result p (x ∷ xs) = p x >>= λ b. filter_result p xs >>= λ ys. ok (if b then x ∷ ys else ys)

-- event["event_type"] == name
unfoldable pub has_type : String → Value → Result Bool
has_type name event = do t ← get_item event "event_type"; ok (eq_value t (str name))

unfoldable pub of_type : String → List Value → Result (List Value)
of_type name events = filter_result (has_type name) events

-- v.startswith(prefix)
unfoldable pub text_starts : String → Value → Result Bool
text_starts prefix (str s) = ok (has_prefix (codes prefix) (codes s))
text_starts prefix _ = err (attribute_error "startswith")

unfoldable pub is_approval : Value → Result Bool
is_approval event = do t ← get_item event "event_type"; text_starts "approval." t

abbrev pub among : Value → List Value → Bool
among v vs = any (eq_value v) vs

-- a comprehension of a set hashes each value that it computes
unfoldable pub hashed {ℓ} : {A : Type ℓ} → (A → Result Value) → A → Result Value
hashed f x = f x >>= check_hashable

-- The members of a set: of equal items the first is kept.
unfoldable pub set_by {ℓ} : {A : Type ℓ} → (A → A → Bool) → List A → List A
set_by eq [] = []
set_by eq (x ∷ xs) = x ∷ select (λ y. not (eq x y)) (set_by eq xs)

-- a set of hashable values
abbrev pub to_set : List Value → List Value
to_set vs = set_by eq_value vs

-- A dictionary whose keys are values: `d[key] = v` and `d.get(key)`.
abbrev pub Mapping : Type 0
Mapping = List (Value × Value)

unfoldable pub assign_key : Value → Value → Mapping → Mapping
assign_key k v [] = (k, v) ∷ []
assign_key k v ((j, w) ∷ m) = if eq_value j k then (j, v) ∷ m else (j, w) ∷ assign_key k v m

unfoldable pub find_key : Value → Mapping → Value
find_key k [] = null
find_key k ((j, w) ∷ m) = if eq_value j k then w else find_key k m
