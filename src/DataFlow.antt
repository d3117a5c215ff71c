-- ===== src/DataFlow.antt =====
-- agentrust_telemetry/data_flow.py: the classification of a data flow by its metadata. The
-- classifier is a parameter; it returns a ClassificationResult, another object, or raises.
pub mod Closed
use Prim.Native.String
use agentrust_telemetry.Base.{
  ℕ, Bool, true, false, not, ◌||◌, ◌&&◌, String, Option, none, some, List, [], ◌∷◌, ◌++◌, all,
  length, leb, ltb, ◌==◌, str_eq, if◌then◌else◌,
}
use agentrust_telemetry.Base.Integer.{ℤ}
use agentrust_telemetry.Base.Outcome.{
  Result, ok, err, ◌>>=◌, ◌>>◌, raise_if, type_error, value_error,
}
use agentrust_telemetry.Value.{Value, null, str, dict, record_of}
use agentrust_telemetry.Value.Words.{codes, is_alnum, has_part}
use agentrust_telemetry.Factory.{EventFactory}
use agentrust_telemetry.Factory.Extra.{Extra, build_with}
use agentrust_telemetry.Usage.Record.{without_null}

-- a character of `_IDENTIFIER` after the first
unfoldable pub is_name_char : ℕ → Bool
unfolding is_alnum
is_name_char c = is_alnum c || c == b'_' || c == b'.' || c == b':' || c == b'/' || c == b'-'

-- `_IDENTIFIER.fullmatch(value)`
unfoldable pub is_name : List ℕ → Bool
unfolding is_name_char
is_name [] = false
is_name (c ∷ s) = is_alnum c && all is_name_char s && leb (length s) 255

-- `_identifier`
unfoldable pub identifier : Value → Result String
unfolding is_name
identifier (str value) = do
  raise_if (not (is_name (codes value)) || has_part (codes "://") (codes value))
      (value_error "must be a 1-256 character metadata identifier")
  ok value
identifier v = err (value_error "must be a 1-256 character metadata identifier")

-- a character of a part of `_MEDIA_TYPE`
unfoldable pub is_token_char : ℕ → Bool
is_token_char c =
    is_alnum c
    || c == b'!'
    || c == b'#'
    || c == b'$'
    || c == b'&'
    || c == b'^'
    || c == b'_'
    || c == b'.'
    || c == b'+'
    || c == b'-'

is_subtype : List ℕ → Bool
is_subtype s = leb 1 (length s) && all is_token_char s

-- what follows the first character of the type
after_first : List ℕ → Bool
unfolding is_subtype
after_first [] = false
after_first (c ∷ s) =
    let rest = after_first s in if c == b'/' then is_subtype s else is_token_char c && rest

-- `_MEDIA_TYPE.fullmatch(media_type)`
unfoldable pub is_media_type : List ℕ → Bool
unfolding after_first
is_media_type [] = false
is_media_type (c ∷ s) = is_token_char c && after_first s

pub record ClassificationResult : Type 0 where
  pub taxonomy : String
  pub value : String
  pub producer : String

-- `ClassificationResult(...)`, with `__post_init__`
unfoldable pub classification_result : String → String → String → Result ClassificationResult
unfolding identifier
classification_result taxonomy value producer = do
  t ← identifier (str taxonomy)
  v ← identifier (str value)
  p ← identifier (str producer)
  ok (record { taxonomy = taxonomy; value = value; producer = producer })

pub record DataEndpoint : Type 0 where
  pub kind : String
  pub id : Option String

-- `DataEndpoint(...)`, with `__post_init__`
unfoldable pub data_endpoint : String → Option String → Result DataEndpoint
unfolding identifier
data_endpoint kind none = identifier (str kind) >>= λ k. ok (record { kind = kind; id = none })
data_endpoint kind (some i) = do
  k ← identifier (str kind)
  j ← identifier (str i)
  ok (record { kind = kind; id = some i })

id_field : Option String → List (String × Value)
id_field none = []
id_field (some i) = if str_eq i "" then [] else ("id", str i) ∷ []

-- `as_event_value`
unfoldable pub endpoint_value : DataEndpoint → Value
unfolding id_field
endpoint_value e = dict (record_of (("kind", str e.kind) ∷ id_field e.id))

-- the keyword arguments of `classified_data_flow`, null for None
pub record FlowArguments : Type 0 where
  pub run_id : String
  pub agent_id : String
  pub direction : String
  pub source : DataEndpoint
  pub destination : DataEndpoint
  pub purpose : String
  pub policy_decision : String
  pub content_digest : Value
  pub size_bytes : Value
  pub token_count : Value
  pub media_type : Value
  pub transformation : Value

unfoldable pub check_media_type : Value → Result (Unit {0})
unfolding is_media_type
check_media_type null = ok tt
check_media_type (str s) =
    raise_if (not (is_media_type (codes s)) || ltb 255 (length (codes s)))
      (value_error "media_type must be a parameter-free type/subtype identifier")
check_media_type v = err (value_error "media_type must be a parameter-free type/subtype identifier")

-- the payload of a flow
abbrev pub flow_payload : FlowArguments → ClassificationResult → List (String × Value)
flow_payload p result =
    (("direction", str p.direction)
      ∷ ("source", endpoint_value p.source)
      ∷ ("destination", endpoint_value p.destination)
      ∷ (
        "classification",
        dict (
            record_of (
              ("taxonomy", str result.taxonomy)
              ∷ ("value", str result.value)
              ∷ ("producer", str result.producer)
              ∷ [])),
      )
      ∷ ("purpose", str p.purpose)
      ∷ ("policy_decision", str p.policy_decision)
      ∷ [])
    ++ without_null (
        ("content_digest", p.content_digest)
        ∷ ("size_bytes", p.size_bytes)
        ∷ ("token_count", p.token_count)
        ∷ ("media_type", p.media_type)
        ∷ ("transformation", p.transformation)
        ∷ [])

-- `isinstance(result, ClassificationResult)`
abbrev pub classified : Option ClassificationResult → Result ClassificationResult
classified none = err (type_error "classifier must return ClassificationResult")
classified (some result) = ok result

module _ {A : Type 0} (f : EventFactory) (classify : A → Result (Option ClassificationResult)) where
  unfoldable pub classified_data_flow : A → FlowArguments → Extra → ℤ → String → Result Value
  unfolding build_with check_media_type identifier
  classified_data_flow value p x now fresh = do
    answer ← classify value
    result ← classified answer
    purpose ← identifier (str p.purpose)
    check_media_type p.media_type
    build_with f "data_flow.observed" p.run_id p.agent_id (flow_payload p result) x now fresh
