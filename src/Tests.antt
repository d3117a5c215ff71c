-- ===== src/Tests.antt =====
-- Sample inputs for the modules below, which run the development on them: toy versions of the
-- libraries, a short run of events and the accumulators that hold it.
pub mod EvidenceRuns
pub mod TraceRuns
pub mod ValidationRuns
pub mod ClientRuns
pub mod EnvelopeRuns
pub mod ApprovalRuns
pub mod AuditRuns
pub mod FlowRuns
pub mod UsageRuns
pub mod BatchRuns
use agentrust_telemetry.Base.{
  ℕ, zero, suc, ◌+◌, ◌*◌, ◌%◌, ◌≡◌, refl, ap, ◌∙◌, Bool, true, false, String, Option, none, some,
  List, [], ◌∷◌, arith, length, All, str_eq, if◌then◌else◌,
}
use agentrust_telemetry.Base.Integer.{pos}
use agentrust_telemetry.Base.Outcome.{
  Result, ok, err, ◌>>=◌, >>=-eq-ok, event_validation_error, value_error,
}
use agentrust_telemetry.Value.{Value, str, dict, bool, int, Fields, end, record_of, lookup}
use agentrust_telemetry.Value.Access.{get_item}
use agentrust_telemetry.Value.Words.{codes}
use agentrust_telemetry.Factory.{EventFactory}
use agentrust_telemetry.Factory.Extra.{Extra}
use agentrust_telemetry.Adapters.Source.{Attribute, Source}
use agentrust_telemetry.Bytes.{Bytes, IsDigest, IsByte}
use agentrust_telemetry.Evidence.{Hashing, IsSha256, EvidenceEntry, unknown}
use agentrust_telemetry.Evidence.Accumulator.{EvidenceAccumulator, DurableAppend}
use agentrust_telemetry.Evidence.Accumulator.Invariant.{NamesEvents}

abbrev pub zeros : ℕ → Bytes
zeros zero = []
zeros (suc n) = 0 ∷ zeros n

abbrev pub checksum : Bytes → ℕ
checksum [] = 0
checksum (b ∷ bs) = b + 3 * checksum bs

abbrev pub text_bytes : Value → Result Bytes
text_bytes (str s) = ok (codes s)
text_bytes v = err (value_error "no text")

-- a checksum in place of SHA-256, and the id of an event in place of its canonical form
abbrev pub toy_hashing : Hashing
toy_hashing = record {
  dumps = λ event. get_item event "event_id" >>= text_bytes;
  sha256 = λ m. checksum m % 256 ∷ zeros 31;
}

zeros-IsByte : (n : ℕ) → All IsByte (zeros n)
zeros-IsByte zero = tt
zeros-IsByte (suc n) = (omega arith, zeros-IsByte n)

pub toy_hashing-IsSha256 : IsSha256 toy_hashing
toy_hashing-IsSha256 m = (refl, (omega arith, zeros-IsByte 31))

-- accepts a dictionary whose id is a text
abbrev pub toy_validate : Value → Result (Unit {0})
toy_validate event = get_item event "event_id" >>= λ id. text_bytes id >>= λ bytes. ok tt

toy_named :
    (v : Value) {u : Unit {0}}
    → (text_bytes v >>= λ bytes. ok tt) ≡ ok u
    → (s : String) × (v ≡ str s)
toy_named (str s) e = (s, refl)
toy_named v e = cc

pub toy_validate-NamesEvents : NamesEvents toy_validate
toy_validate-NamesEvents event e =
    let (id, found, e1) = >>=-eq-ok (get_item event "event_id") _ e in
    let (s, named) = toy_named id e1 in (s, found ∙ ap ok named)

-- a callback that counts its calls and acknowledges
abbrev pub counting : DurableAppend ℕ
counting entry w = (ok (bool true), suc w)

abbrev pub event_fields : String → List (String × Value) → Value
event_fields event_id more =
    dict (record_of (("run_id", str "r1") ∷ ("event_id", str event_id) ∷ more))

abbrev pub first_event : Value
first_event = event_fields "e1" []

abbrev pub second_event : Value
second_event = event_fields "e2" []

abbrev pub empty_run : EvidenceAccumulator
empty_run = record {
  run_id = "r1";
  max_events = 2;
  entries = [];
  event_ids = [];
  sealed = false;
  completeness = unknown;
  owner = none;
}

abbrev pub sample_factory : EventFactory
sample_factory = record { validate = toy_validate; producer = record_of (("name", str "n") ∷ []) }

-- the event of a call that returned one
abbrev pub event_of : Result Value → Value
event_of (ok event) = event
event_of (err e) = dict end

-- an object with these fields
abbrev pub object_with : List (String × Attribute) → Source
object_with [] name = none
object_with ((k, a) ∷ rest) name =
    let others = object_with rest name in if str_eq k name then some a else others

-- no keywords besides the adapter's own
abbrev pub nothing_more : Extra
nothing_more = record {
  workflow_id = none;
  parent_agent_id = none;
  task_id = none;
  trace_id = none;
  span_id = none;
  event_id = none;
  time_unix_nano = none;
  others = [];
}
