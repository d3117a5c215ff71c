-- ===== src/Factory.antt =====
-- agentrust_telemetry/adapters/base.py: the envelope that every adapter builds its events in. The
-- clock, the id generator and the validator are parameters.
pub mod Optional
pub mod Build
pub mod Payload
pub mod Time
pub mod Extra
use Prim.Native.String
use agentrust_telemetry.Base.{
  ℕ, zero, suc, ◌/◌, ◌%◌, Bool, true, false, not, ◌&&◌, ◌||◌, String, Option, none, some, List, [],
  ◌∷◌, ◌++◌, any, all, length, ltb, leb, ◌==◌, str_eq, if◌then◌else◌,
}
use agentrust_telemetry.Base.Integer.{ℤ, pos, negsuc}
use agentrust_telemetry.Base.Outcome.{
  Result, ok, err, ◌>>=◌, ◌>>◌, raise_if, type_error, value_error,
}
use agentrust_telemetry.Value.{Value, int, str, dict, Fields, end, field, text, record_of, assign}
use agentrust_telemetry.Value.Words.{codes, is_digit, has_prefix}
use agentrust_telemetry.Bytes.{hex_char}

-- the decimal digits of a number, on fuel
unfoldable pub decimal : ℕ → ℕ → String
unfolding hex_char
decimal zero n = ""
decimal (suc fuel) n = elim (ltb n 10) [
  | true ↦ String.◌∷◌ (hex_char n) ""
  | false ↦ String.◌++◌ (decimal fuel (n / 10)) (String.◌∷◌ (hex_char (n % 10)) "")
]

-- str(n)
unfoldable pub integer_text : ℤ → String
unfolding decimal
integer_text (pos n) = decimal (suc n) n
integer_text (negsuc n) = String.◌∷◌ "-" (decimal (suc (suc n)) (suc n))

leads_with_zero : List ℕ → Bool
leads_with_zero [] = false
leads_with_zero (c ∷ s) = c == b'0'

-- text.isascii() and text.isdecimal(), with no leading zero
unfoldable pub is_canonical : List ℕ → Bool
unfolding leads_with_zero is_digit
is_canonical s =
    not (length s == 0) && all is_digit s && not (ltb 1 (length s) && leads_with_zero s)

unfoldable pub canonical_text : String → Result String
canonical_text t = do
  raise_if (not (is_canonical (codes t)))
      (value_error "Unix nanosecond timestamps must be canonical non-negative decimals")
  raise_if (ltb 20 (length (codes t)))
      (value_error "Unix nanosecond timestamps cannot exceed 20 digits")
  ok t

-- `_unix_nano`
unfoldable pub unix_nano : Value → Result String
unfolding canonical_text
unix_nano (int n) = canonical_text (integer_text n)
unix_nano (str s) = canonical_text s
unix_nano v = err (type_error "Unix nanosecond timestamps must be integers or decimal strings")

pub record EventFactory : Type 0 where
  pub validate : Value → Result (Unit {0})
  pub producer : Fields

-- `__init__`
unfoldable pub new_factory :
    (Value → Result (Unit {0})) → String → String → Option String → EventFactory
new_factory validate name version instance_id = record {
  validate = validate;
  producer = record_of (
      ("name", str name) ∷ ("version", str version) ∷ (elim instance_id [
        | none ↦ []
        | some i ↦ if str_eq i "" then [] else ("instance_id", str i) ∷ []
      ]));
}

-- the arguments of `build`
pub record Envelope : Type 0 where
  pub event_type : String
  pub run_id : String
  pub agent_id : Option String
  pub workflow_id : Option String
  pub parent_agent_id : Option String
  pub task_id : Option String
  pub trace_id : Option String
  pub span_id : Option String
  pub event_id : Option String
  pub time_unix_nano : Option Value
  pub payload : List (String × Value)

abbrev pub reserved : List String
reserved =
    "spec_version" ∷ "event_id" ∷ "event_type" ∷ "time_unix_nano" ∷ "run_id" ∷ "producer"
    ∷ "agent_id" ∷ "workflow_id" ∷ "parent_agent_id" ∷ "task_id" ∷ "trace_id" ∷ "span_id" ∷ []

unfoldable pub is_reserved : String → Bool
is_reserved k = any (str_eq k) reserved

-- key.endswith(suffix), by what stands before the suffix
ends_with : List ℕ → List ℕ → Bool
ends_with suffix [] = length suffix == 0
ends_with suffix (c ∷ s) =
    length suffix == length (c ∷ s) && has_prefix suffix (c ∷ s) || ends_with suffix s

unfoldable pub payload_value : String → Value → Result Value
unfolding ends_with
payload_value key value =
    if ends_with (codes "_at_unix_nano") (codes key)
    then (unix_nano value >>= λ t. ok (str t))
    else ok value

unfoldable pub payload_fields : List (String × Value) → Result Fields
payload_fields [] = ok end
payload_fields ((k, v) ∷ rest) = do
  value ← payload_value k v
  others ← payload_fields rest
  ok (field (text k) value others)

unfoldable pub given : String → Option String → Fields → Fields
given k none fs = fs
given k (some s) fs = assign k (str s) fs

-- `event.update(...)`
unfoldable pub with_optional : Envelope → Fields → Fields
unfolding given
with_optional e fs = given "span_id" e.span_id (
    given "trace_id" e.trace_id (
      given "task_id" e.task_id (
        given "parent_agent_id" e.parent_agent_id
          (given "workflow_id" e.workflow_id (given "agent_id" e.agent_id fs)))))

-- `event_id or str(self._event_id_factory())`
unfoldable pub chosen_id : Option String → String → String
chosen_id none fresh = fresh
chosen_id (some s) fresh = if str_eq s "" then fresh else s

abbrev pub time_or : Option Value → ℤ → Value
time_or none now = int now
time_or (some v) now = v

-- The envelope before the optional fields.
unfoldable pub required_fields : EventFactory → Envelope → String → String → Fields → Fields
unfolding chosen_id
required_fields f e fresh time payload = field (text "spec_version") (str "0.1.0-alpha.6") (
    field (text "event_id") (str (chosen_id e.event_id fresh)) (
      field (text "event_type") (str e.event_type) (
        field (text "time_unix_nano") (str time) (
          field (text "run_id") (str e.run_id)
            (field (text "producer") (dict f.producer) payload)))))

-- `EventFactory.build`, at a time of the clock and with a fresh id
unfoldable pub build : EventFactory → Envelope → ℤ → String → Result Value
build f e now fresh = do
  raise_if (any (λ (k, v). is_reserved k) e.payload)
      (value_error "payload cannot override envelope fields")
  time ← unix_nano (time_or e.time_unix_nano now)
  payload ← payload_fields e.payload
  let event = dict (with_optional e (required_fields f e fresh time payload))
  f.validate event
  ok event
