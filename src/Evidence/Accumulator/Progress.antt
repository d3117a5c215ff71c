-- ===== src/Evidence/Accumulator/Progress.antt =====
-- `EvidenceAccumulator.append`: when it takes an event.
use mathlib.Core.Option
use agentrust_telemetry.Base.{
  ℕ, suc, ◌≡◌, refl, ◌<◌, ◌≤◌, ◌^◌, ◌++◌, true, false, String, Option, none, [], ◌∷◌, any, length,
  length-append, last?, leb, eq_iff, arith,
}
use agentrust_telemetry.Base.Outcome.{Result, ok, err}
use agentrust_telemetry.Value.{Value, str}
use agentrust_telemetry.Value.Access.{get_item, check_hashable}
use agentrust_telemetry.Value.Equality.{eq_value}
use agentrust_telemetry.Bytes.{Bytes, hex, big_endian}
use agentrust_telemetry.Bytes.Laws.{to_bytes-ok}
use agentrust_telemetry.Evidence.{Hashing, IsSha256, EvidenceEntry, entry_digest}
use agentrust_telemetry.Evidence.Accumulator.Append.{chain_entry-enter}
use agentrust_telemetry.Evidence.Accumulator.{
  EvidenceAccumulator, DurableAppend, admit, canonicalized, chain_entry, persist, commit, release,
  enter, finish_append, persist_entry, guarded_append, append,
}
use agentrust_telemetry.Evidence.Accumulator.Invariant.{IsValid, digest_of}
use agentrust_telemetry.Trace.Chain.Binding.{verify_from-previous_bytes}

-- An open run with room that no call holds, and a valid event of it, under a new id, that the
-- canonicalizer takes; 2^64 entries is what an entry's position has room for.
pub record IsReady (h : Hashing) (validate : Value → Result (Unit {0})) (event : Value)
    (acc : EvidenceAccumulator) : Type 0 where
  pub valid : validate event ≡ ok tt
  pub of_run : get_item event "run_id" ≡ ok (str acc.run_id)
  pub free : acc.owner ≡ none
  pub is_open : acc.sealed ≡ false
  pub id : String
  pub is_named : get_item event "event_id" ≡ ok (str id)
  pub fresh : any (eq_value (str id)) acc.event_ids ≡ false
  pub room : length acc.entries < acc.max_events
  pub small : acc.max_events ≤ 256 ^ 8
  pub canonical : Bytes
  pub dumped : h.dumps event ≡ ok canonical

str_same : (s : String) → eq_value (str s) (str s) ≡ true
unfolding eq_value
str_same s = (eq_iff s s).1 refl

room-leb : (n m : ℕ) → n < m → leb m n ≡ false
room-leb n m h = ground arith

module _ (h : Hashing) (sound : IsSha256 h) (validate : Value → Result (Unit {0})) (thread : ℕ)
    (event : Value) (acc : EvidenceAccumulator) (v : IsValid h acc)
    (r : IsReady h validate event acc) where
  admitted : admit validate thread event acc ≡ ok tt
  unfolding admit
  admitted = rw (r.valid, r.of_run, str_same acc.run_id, r.free) refl

  digested :
      (d : String) × (entry_digest h
          (length acc.entries)
          (Option.map digest_of (last? acc.entries))
          event
        ≡ ok d)
  unfolding entry_digest
  digested =
      let (b, linked) = verify_from-previous_bytes h sound acc.run_id acc.entries v.chained in
      (
        hex (h.sha256 (b ++ (big_endian 8 (length acc.entries) ++ r.canonical))),
        rw (r.dumped, linked, to_bytes-ok 8 (length acc.entries) (omega (arith, r.room, r.small)))
            refl,
      )

  chained_entry : (entry : EvidenceEntry) × (chain_entry h event acc ≡ ok entry)
  unfolding chain_entry canonicalized check_hashable
  chained_entry =
      let (d, made) = digested in
      (
        record {
          sequence = length acc.entries;
          event_id = str r.id;
          previous_digest = Option.map digest_of (last? acc.entries);
          digest = d;
          event = event;
        },
        rw
            (
              r.is_open,
              r.is_named,
              r.fresh,
              room-leb (length acc.entries) acc.max_events r.room,
              made,
            )
            refl,
      )

  persisted :
      {W : Type 0} (entry : EvidenceEntry) (p : Result (Unit {0}) × W)
      → p.0 ≡ ok tt
      → finish_append entry acc p ≡ (ok entry, release (commit entry acc), p.1)
  unfolding finish_append
  persisted entry (ok _, w) e = refl
  persisted entry (err x, w) e = cc

  -- In a state that keeps the invariant, an event that is ready is taken: if the durable callback
  -- acknowledges whatever entry it is given, or there is none, `append` returns an entry and commits
  -- it as one more. Ready are the conditions of `IsReady`: an open run with room, and a valid event
  -- of it under a new id that the canonicalizer takes.
  pub append_progress :
      {W : Type 0} (durable : Option (DurableAppend W)) (w : W)
      → ((entry : EvidenceEntry) → (persist durable entry w).0 ≡ ok tt)
      → (entry : EvidenceEntry) × (w' : W) × (append h validate durable thread event acc w
          ≡ (ok entry, release (commit entry acc), w'))
        × (length (commit entry acc).entries ≡ suc (length acc.entries))
  unfolding append guarded_append persist_entry commit enter
  append_progress durable w acks =
      let (entry, made) = chained_entry in
      (
        entry,
        (persist durable entry w).1,
        rw (admitted, chain_entry-enter h event thread acc, made)
            (persisted entry (persist durable entry w) (acks entry)),
        omega (arith, length-append acc.entries (entry ∷ [])),
      )
