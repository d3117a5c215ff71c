-- ===== src/Evidence/Accumulator/Append.antt =====
-- What `append` does on every path: which entry it makes, when the callback runs, what it keeps.
use agentrust_telemetry.Base.{
  ℕ, ◌≡◌, refl, true, false, String, Option, none, some, [], ◌∷◌, ◌++◌, arith, leb, length, any,
  last?,
}
use agentrust_telemetry.Base.Outcome.{
  Exn, Result, ok, err, evidence_error, raise_if, >>=-eq-ok, raise_if-eq-ok,
}
use mathlib.Core.Option
use agentrust_telemetry.Value.{Value, bool}
use agentrust_telemetry.Value.Access.{get_item, check_hashable}
use agentrust_telemetry.Value.Equality.{eq_value}
use agentrust_telemetry.Evidence.{Hashing, EvidenceEntry, entry_digest}
use agentrust_telemetry.Evidence.Accumulator.{
  EvidenceAccumulator, DurableAppend, admit, chain_entry, acknowledged, persist, commit, release,
  enter, append, canonicalized,
}

persist-eq-ok :
    {W : Type 0} (f : DurableAppend W) (entry : EvidenceEntry) (w : W) {w' : W}
    → persist (some f) entry w ≡ (ok tt, w')
    → f entry w ≡ (ok (bool true), w')
unfolding persist acknowledged
persist-eq-ok f entry w eq = ground arith

pub canonicalized-eq-ok : (r : Result String) {d : String} → canonicalized r ≡ ok d → r ≡ ok d
unfolding canonicalized
canonicalized-eq-ok r eq = ground arith

check_hashable-eq-ok : (v : Value) {w : Value} → check_hashable v ≡ ok w → w ≡ v
unfolding check_hashable
check_hashable-eq-ok v eq = ground arith

-- What the critical section makes of an event, and the checks that it passed.
pub record IsNext (h : Hashing) (event : Value) (acc : EvidenceAccumulator) (entry : EvidenceEntry)
    : Type 0 where
  pub open_run : acc.sealed ≡ false
  pub id_found : get_item event "event_id" ≡ ok entry.event_id
  pub fresh : any (eq_value entry.event_id) acc.event_ids ≡ false
  pub room : leb acc.max_events (length acc.entries) ≡ false
  pub of_event : entry.event ≡ event
  pub placed : entry.sequence ≡ length acc.entries
  pub linked :
      entry.previous_digest ≡ Option.map (λ (e : EvidenceEntry). e.digest) (last? acc.entries)
  pub hashed : entry_digest h (length acc.entries) entry.previous_digest event ≡ ok entry.digest

pub chain_entry-eq-ok :
    (h : Hashing) (event : Value) (acc : EvidenceAccumulator) {entry : EvidenceEntry}
    → chain_entry h event acc ≡ ok entry
    → IsNext h event acc entry
unfolding chain_entry
chain_entry-eq-ok h event acc {entry} eq =
    let (_, opened, e1) =
      >>=-eq-ok (raise_if acc.sealed (evidence_error "evidence run is sealed")) _ eq in
    let (id, found, e2) = >>=-eq-ok (get_item event "event_id") _ e1 in
    let (id', hashable, e3) = >>=-eq-ok (check_hashable id) _ e2 in
    let same = check_hashable-eq-ok id hashable in
    let (_, fresh, e4) =
      >>=-eq-ok (raise_if (any (eq_value id') acc.event_ids) (evidence_error "duplicate event_id"))
        _ e3 in
    let (_, room, e5) =
      >>=-eq-ok
        (raise_if (leb acc.max_events (length acc.entries))
          (evidence_error "evidence run exceeds max_events"))
        _ e4 in
    let (d, digest, e6) =
      >>=-eq-ok (canonicalized (entry_digest h (length acc.entries) _ event)) _ e5 in
    let hashed = canonicalized-eq-ok _ digest in
    record {
      open_run = raise_if-eq-ok _ _ opened;
      id_found = cc;
      fresh = (let named : id' ≡ entry.event_id = cc in rw (← named) (raise_if-eq-ok _ _ fresh));
      room = raise_if-eq-ok _ _ room;
      of_event = cc;
      placed = cc;
      linked = cc;
      hashed = cc;
    }

-- The critical section reads nothing of the owner.
pub chain_entry-enter :
    (h : Hashing) (event : Value) (thread : ℕ) (acc : EvidenceAccumulator)
    → chain_entry h event (enter thread acc) ≡ chain_entry h event acc
unfolding chain_entry enter
chain_entry-enter h event thread acc = refl

module _ {W : Type 0} (h : Hashing) (validate : Value → Result (Unit {0}))
    (durable : Option (DurableAppend W)) (thread : ℕ) (event : Value) (acc : EvidenceAccumulator)
    (w : W) where
  -- An accepted event passed every check, its entry was acknowledged by the callback, if there is
  -- one, and then the entry was committed.
  pub append-eq-ok :
      {entry : EvidenceEntry} {acc' : EvidenceAccumulator} {w' : W}
      → append h validate durable thread event acc w ≡ (ok entry, acc', w')
      → (admit validate thread event acc ≡ ok tt)
        × (chain_entry h event acc ≡ ok entry)
        × (persist durable entry w ≡ (ok tt, w'))
        × (acc' ≡ release (commit entry acc))
  unfolding append enter commit
  append-eq-ok eq = ground (arith, chain_entry-enter h event thread acc)

  -- A call that raises changes nothing but the owner.
  pub append-eq-err :
      {e : Exn} {acc' : EvidenceAccumulator} {w' : W}
      → append h validate durable thread event acc w ≡ (err e, acc', w')
      → release acc' ≡ release acc
  unfolding append enter
  append-eq-err eq = ground (arith, chain_entry-enter h event thread acc)

  -- A call that raises, for whatever reason, leaves an accumulator with no call in progress as it
  -- was: the same event can be sent again.
  pub append_atomic :
      {e : Exn} {acc' : EvidenceAccumulator} {w' : W}
      → append h validate durable thread event acc w ≡ (err e, acc', w')
      → acc.owner ≡ none
      → acc' ≡ acc
  unfolding append enter
  append_atomic eq free = ground (arith, chain_entry-enter h event thread acc)

-- An accepted event with a durable callback: the callback was called once, with the entry that is
-- returned, on the world before the call, and returned `True`; the entry holds the event, stands
-- behind the old entries and is the last of the new.
pub append_durable :
    {W : Type 0} (h : Hashing) (validate : Value → Result (Unit {0})) (f : DurableAppend W)
    (thread : ℕ) (event : Value) (acc : EvidenceAccumulator) (w : W) {entry : EvidenceEntry}
    {acc' : EvidenceAccumulator} {w' : W}
    → append h validate (some f) thread event acc w ≡ (ok entry, acc', w')
    → (f entry w ≡ (ok (bool true), w'))
      × (acc'.entries ≡ acc.entries ++ entry ∷ [])
      × (entry.event ≡ event)
      × (entry.sequence ≡ length acc.entries)
append_durable h validate f thread event acc w {entry} eq =
    let (_, made, kept, committed) = append-eq-ok h validate (some f) thread event acc w eq in
    let next = chain_entry-eq-ok h event acc made in
    (persist-eq-ok f entry w kept, unfold commit in cc committed, next.of_event, next.placed)
