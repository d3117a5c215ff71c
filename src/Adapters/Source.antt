-- ===== src/Adapters/Source.antt =====
-- What the AGT adapters share: reading a source's fields, and the checks on what is read. Each of
-- adapters/agt.py, agt_approval.py and agt_audit.py declares these helpers with the same bodies.
pub mod Table
use Prim.Native.String
use agentrust_telemetry.Base.{
  ℕ, zero, suc, ◌+◌, ◌*◌, Bool, true, false, not, ◌&&◌, ◌||◌, String, Option, none, some, List, [],
  ◌∷◌, all, length, leb, ◌==◌, str_eq, if◌then◌else◌,
}
use agentrust_telemetry.Base.Integer.{ℤ, pos, scale, ◌+ℤ◌}
use agentrust_telemetry.Base.Outcome.{Exn, Result, ok, err, ◌>>=◌, ◌>>◌, raise_if, value_error}
use agentrust_telemetry.Value.{Value, null, str, dict, record_of}
use agentrust_telemetry.Value.Words.{codes, is_digit, has_prefix}
use agentrust_telemetry.Factory.{Envelope}

-- What a field holds: a value, a member of an `Enum` that is no `str` itself by its value, a datetime without a time zone,
-- or one with a time zone, by its difference from the epoch in days, seconds and microseconds as
-- `timedelta` keeps them.
pub data Attribute : Type 0 where
  plain member : Value → Attribute
  naive : Attribute
  aware : ℤ → ℕ → ℕ → Attribute

-- the fields that a source has
abbrev pub Source : Type 0
Source = String → Option Attribute

-- `_field(source, name, default)`
unfoldable pub field_or : Attribute → Source → String → Attribute
field_or default source name = elim (source name) [ none ↦ default | some a ↦ a ]

-- `_field(source, name)`
unfoldable pub field_of : Source → String → Attribute
unfolding field_or
field_of source name = field_or (plain null) source name

unfoldable pub enum_value : Attribute → Attribute
enum_value (member v) = plain v
enum_value a = a

unfoldable pub required_string : Attribute → Result String
required_string (plain (str s)) =
    if str_eq s "" then err (value_error "must be a non-empty string") else ok s
required_string a = err (value_error "must be a non-empty string")

-- `None if value is None else _required_string(value, field)`
unfoldable pub optional_string : Attribute → Result (Option String)
unfolding required_string
optional_string (plain null) = ok none
optional_string a = required_string a >>= λ s. ok (some s)

unfoldable pub datetime_ns : Attribute → Result ℤ
datetime_ns (aware days seconds microseconds) =
    ok (scale days 86400000000000 +ℤ pos (seconds * 1000000000 + microseconds * 1000))
datetime_ns a = err (value_error "must be a timezone-aware datetime")

-- a text without its first n characters
unfoldable pub strip : ℕ → String → String
strip zero s = s
strip (suc n) String.[] = ""
strip (suc n) (String.◌∷◌ c s) = strip n s

unfoldable pub is_hex : ℕ → Bool
unfolding is_digit
is_hex c = is_digit c || leb b'a' c && leb c b'f'

-- `_DIGEST.fullmatch(value)`: sha256: and 64 lowercase hexadecimal digits
unfoldable pub is_digest : String → Bool
unfolding strip is_hex
is_digest s =
    has_prefix (codes "sha256:") (codes s)
    && length (codes (strip 7 s)) == 64
    && all is_hex (codes (strip 7 s))

unfoldable pub digest_value : String → Value
digest_value s = dict (record_of (("algorithm", str "sha256") ∷ ("value", str (strip 7 s)) ∷ []))

-- `_digest`
unfoldable pub digest : Attribute → Result Value
unfolding is_digest digest_value
digest a = do
  s ← required_string a
  raise_if (not (is_digest s)) (value_error "must use sha256:<lowercase-hex>")
  ok (digest_value s)

-- the text that a literal dictionary has for a text
unfoldable pub named : String → List (String × String) → Option String
named k [] = none
named k ((j, t) ∷ table) = if str_eq j k then some t else named k table

-- `not isinstance(value, str) or value not in mapping` raises, else `mapping[value]`
unfoldable pub mapped : Exn → List (String × String) → Attribute → Result String
unfolding named
mapped e table (plain (str s)) = elim (named s table) [ none ↦ err e | some t ↦ ok t ]
mapped e table a = err e

-- f"{kind}:{id}"
abbrev pub join : String → String → String
join kind id = String.◌++◌ kind (String.◌++◌ ":" id)

-- The arguments of `build` that every adapter gives; the others are None.
abbrev pub bare : String → String → String → List (String × Value) → Envelope
bare event_type run_id agent_id payload = record {
  event_type = event_type;
  run_id = run_id;
  agent_id = some agent_id;
  workflow_id = none;
  parent_agent_id = none;
  task_id = none;
  trace_id = none;
  span_id = none;
  event_id = none;
  time_unix_nano = none;
  payload = payload;
}
