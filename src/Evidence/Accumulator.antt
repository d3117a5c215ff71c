-- ===== src/Evidence/Accumulator.antt =====
-- `EvidenceAccumulator` of evidence.py. A call runs on a thread and is atomic but for the durable
-- callback, which the lock serialises: `owner` is the thread inside the critical section. The
-- callback acts on a world `W` of its own.
pub mod Append
pub mod Invariant
pub mod Sealing
pub mod Progress
use agentrust_telemetry.Base.{
  ℕ, Bool, true, false, not, String, Option, none, some, List, [], ◌∷◌, ◌++◌, leb, ◌==◌, length,
  any, last?, if◌then◌else◌, str_eq,
}
use mathlib.Core.Option
use agentrust_telemetry.Base.Integer.{ℤ, pos, pos_part, leb_ℤ}
use agentrust_telemetry.Base.Outcome.{
  Result, ok, err, ◌>>=◌, ◌>>◌, raise_if, type_error, value_error, canonicalization_error,
  evidence_error, evidence_persistence_error,
}
use agentrust_telemetry.Value.{Value, str, bool}
use agentrust_telemetry.Value.Equality.{eq_value}
use agentrust_telemetry.Value.Access.{get_item, check_hashable}
use agentrust_telemetry.Evidence.{
  Hashing, EvidenceEntry, EvidenceSnapshot, Completeness, complete, incomplete, unknown,
  canonicalization_profile, entry_digest,
}

pub record EvidenceAccumulator : Type 0 where
  pub run_id : String
  pub max_events : ℕ
  pub entries : List EvidenceEntry
  pub event_ids : List Value
  pub sealed : Bool
  pub completeness : Completeness
  pub owner : Option ℕ

-- `__init__`; `validator` and `durable_append` are parameters of the methods.
unfoldable pub new : Value → ℤ → Result EvidenceAccumulator
new (str run) max_events =
    if str_eq run ""
    then err (evidence_error "run_id must be a non-empty string")
    else if not (leb_ℤ (pos 1) max_events)
    then err (evidence_error "max_events must be at least 1")
    else ok (record {
      run_id = run;
      max_events = pos_part max_events;
      entries = [];
      event_ids = [];
      sealed = false;
      completeness = unknown;
      owner = none;
    })
new _ max_events = err (evidence_error "run_id must be a non-empty string")

abbrev owned_by : ℕ → Option ℕ → Bool
owned_by thread none = false
owned_by thread (some t) = t == thread

-- the checks before the lock
unfoldable pub admit :
    (Value → Result (Unit {0})) → ℕ → Value → EvidenceAccumulator → Result (Unit {0})
admit validate thread event acc = do
  validate event
  run ← get_item event "run_id"
  raise_if (not (eq_value run (str acc.run_id)))
      (evidence_error "event run_id does not match accumulator run_id")
  raise_if (owned_by thread acc.owner)
      (evidence_error "reentrant evidence mutation is not supported")

-- `except (TypeError, ValueError, rfc8785.CanonicalizationError)`
unfoldable pub canonicalized : Result String → Result String
canonicalized (ok d) = ok d
canonicalized (err (type_error m)) = err (evidence_error "cannot be canonicalized")
canonicalized (err (value_error m)) = err (evidence_error "cannot be canonicalized")
canonicalized (err canonicalization_error) = err (evidence_error "cannot be canonicalized")
canonicalized (err e) = err e

-- the entry that the critical section makes of the event
unfoldable pub chain_entry : Hashing → Value → EvidenceAccumulator → Result EvidenceEntry
chain_entry h event acc = do
  raise_if acc.sealed (evidence_error "evidence run is sealed")
  event_id ← get_item event "event_id"
  event_id ← check_hashable event_id
  raise_if (any (eq_value event_id) acc.event_ids) (evidence_error "duplicate event_id")
  raise_if (leb acc.max_events (length acc.entries))
      (evidence_error "evidence run exceeds max_events")
  let sequence = length acc.entries
  let previous = Option.map (λ (e : EvidenceEntry). e.digest) (last? acc.entries)
  digest ← canonicalized (entry_digest h sequence previous event)
  ok (record {
    sequence = sequence;
    event_id = event_id;
    previous_digest = previous;
    digest = digest;
    event = event;
  })

-- A durable callback on its world: what it returns or raises, and the world after it.
abbrev pub DurableAppend : Type 0 → Type 0
DurableAppend W = EvidenceEntry → W → Result Value × W

abbrev pub is_true : Value → Bool
is_true (bool b) = b
is_true _ = false

unfoldable pub acknowledged : Result Value → Result (Unit {0})
acknowledged (err e) = err (evidence_persistence_error "durable evidence callback failed")
acknowledged (ok v) =
    raise_if (not (is_true v))
      (evidence_persistence_error "durable evidence callback did not acknowledge")

unfoldable pub persist :
    {W : Type 0} → Option (DurableAppend W) → EvidenceEntry → W → Result (Unit {0}) × W
persist none entry w = (ok tt, w)
persist (some durable_append) entry w = let (r, w') = durable_append entry w in (acknowledged r, w')

unfoldable pub commit : EvidenceEntry → EvidenceAccumulator → EvidenceAccumulator
commit entry acc = record acc {
  entries = acc.entries ++ entry ∷ [];
  event_ids = acc.event_ids ++ entry.event_id ∷ [];
}

-- `self._owner = get_ident()`
unfoldable pub enter : ℕ → EvidenceAccumulator → EvidenceAccumulator
enter thread acc = record acc { owner = some thread }

-- `finally: self._owner = None`
abbrev pub release : EvidenceAccumulator → EvidenceAccumulator
release acc = record acc { owner = none }

module _ {W : Type 0} where
  unfoldable pub finish_append :
      EvidenceEntry
      → EvidenceAccumulator
      → Result (Unit {0}) × W
      → Result EvidenceEntry × EvidenceAccumulator × W
  finish_append entry acc (err e, w) = (err e, release acc, w)
  finish_append entry acc (ok _, w) = (ok entry, release (commit entry acc), w)

  unfoldable pub persist_entry :
      Option (DurableAppend W)
      → Result EvidenceEntry
      → EvidenceAccumulator
      → W
      → Result EvidenceEntry × EvidenceAccumulator × W
  unfolding finish_append
  persist_entry durable (err e) acc w = (err e, release acc, w)
  persist_entry durable (ok entry) acc w = finish_append entry acc (persist durable entry w)

  -- the critical section
  unfoldable pub guarded_append :
      Hashing
      → Option (DurableAppend W)
      → ℕ
      → Result (Unit {0})
      → Value
      → EvidenceAccumulator
      → W
      → Result EvidenceEntry × EvidenceAccumulator × W
  unfolding persist_entry
  guarded_append h durable thread (err e) event acc w = (err e, acc, w)
  guarded_append h durable thread (ok _) event acc w =
      let entered = enter thread acc in
      persist_entry durable (chain_entry h event entered) entered w

  unfoldable pub append :
      Hashing
      → (Value → Result (Unit {0}))
      → Option (DurableAppend W)
      → ℕ
      → Value
      → EvidenceAccumulator
      → W
      → Result EvidenceEntry × EvidenceAccumulator × W
  unfolding guarded_append
  append h validate durable thread event acc w =
      guarded_append h durable thread (admit validate thread event acc) event acc w

unfoldable pub snapshot_now : EvidenceAccumulator → EvidenceSnapshot
snapshot_now acc = record {
  run_id = acc.run_id;
  entries = acc.entries;
  chain_digest = Option.map (λ (e : EvidenceEntry). e.digest) (last? acc.entries);
  canonicalization_profile = canonicalization_profile;
  completeness = if acc.sealed then acc.completeness else unknown;
  sealed = acc.sealed;
}

-- `snapshot`: with or without the lock it reads what has been committed.
unfoldable pub snapshot : ℕ → EvidenceAccumulator → EvidenceSnapshot
unfolding snapshot_now
snapshot thread acc = if owned_by thread acc.owner then snapshot_now acc else snapshot_now acc

-- `completeness not in ("complete", "incomplete", "unknown")` is `none`
unfoldable pub to_completeness : Value → Option Completeness
to_completeness (str s) =
    if str_eq s "complete"
    then some complete
    else if str_eq s "incomplete"
    then some incomplete
    else if str_eq s "unknown"
    then some unknown
    else none
to_completeness _ = none

-- the critical section of `seal`
unfoldable pub close :
    Completeness → EvidenceAccumulator → Result EvidenceSnapshot × EvidenceAccumulator
unfolding snapshot_now
close completeness acc =
    if acc.sealed
    then (err (evidence_error "evidence run is already sealed"), release acc)
    else (let closed = record acc { sealed = true; completeness = completeness } in
        (ok (snapshot_now closed), release closed))

unfoldable pub seal_as :
    ℕ → Completeness → EvidenceAccumulator → Result EvidenceSnapshot × EvidenceAccumulator
unfolding close enter
seal_as thread completeness acc =
    if owned_by thread acc.owner
    then (err (evidence_error "reentrant evidence mutation is not supported"), acc)
    else close completeness (enter thread acc)

unfoldable pub seal :
    ℕ → Value → EvidenceAccumulator → Result EvidenceSnapshot × EvidenceAccumulator
unfolding seal_as
seal thread completeness acc = elim (to_completeness completeness) [
  | none ↦ (err (evidence_error "unsupported completeness"), acc)
  | some c ↦ seal_as thread c acc
]
