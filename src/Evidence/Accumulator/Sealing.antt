-- ===== src/Evidence/Accumulator/Sealing.antt =====
-- A run: any calls of `append`, `seal` and `snapshot`, from any threads, in the order in which they
-- take the lock.
use mathlib.Core.Bool.{false≢true}
use mathlib.Core.List.{append_assoc, append-nil}
use agentrust_telemetry.Base.{
  ℕ, ◌≡◌, refl, sym, ap, ◌∙◌, inl, inr, true, Option, List, [], ◌∷◌, ◌++◌, arith,
}
use agentrust_telemetry.Base.Integer.{ℤ}
use agentrust_telemetry.Base.Outcome.{Exn, Result, Result-cases, ok, err}
use agentrust_telemetry.Value.{Value}
use agentrust_telemetry.Evidence.{Hashing, EvidenceEntry}
use agentrust_telemetry.Evidence.Accumulator.{
  EvidenceAccumulator, new, DurableAppend, commit, release, append, snapshot_now, snapshot, seal,
}
use agentrust_telemetry.Evidence.Accumulator.Append.{chain_entry-eq-ok, append-eq-ok, append-eq-err}
use agentrust_telemetry.Evidence.Accumulator.Invariant.{
  IsValid, NamesEvents, new-IsValid, append-IsValid, snapshot_lem, verify_chain-snapshot,
}
use agentrust_telemetry.Trace.Chain.{verify_chain}

pub data Call : Type 0 where
  append_call : ℕ → Value → Call
  seal_call : ℕ → Value → Call
  snapshot_call : ℕ → Call

-- `seal` leaves the entries and their ids alone.
seal_keeps :
    (thread : ℕ) (completeness : Value) (acc : EvidenceAccumulator)
    → ((seal thread completeness acc).1.run_id ≡ acc.run_id)
      × ((seal thread completeness acc).1.max_events ≡ acc.max_events)
      × ((seal thread completeness acc).1.entries ≡ acc.entries)
      × ((seal thread completeness acc).1.event_ids ≡ acc.event_ids)
unfolding seal
seal_keeps thread completeness acc = ground arith

seal-sealed :
    (thread : ℕ) (completeness : Value) (acc : EvidenceAccumulator)
    → acc.sealed ≡ true
    → release (seal thread completeness acc).1 ≡ release acc
unfolding seal
seal-sealed thread completeness acc s = ground arith

module _ {W : Type 0} (h : Hashing) (validate : Value → Result (Unit {0}))
    (durable : Option (DurableAppend W)) where
  pub perform : Call → EvidenceAccumulator → W → EvidenceAccumulator × W
  perform (append_call thread event) acc w =
      let r = append h validate durable thread event acc w in (r.1, r.2)
  perform (seal_call thread completeness) acc w = ((seal thread completeness acc).1, w)
  perform (snapshot_call thread) acc w = (acc, w)

  pub run : List Call → EvidenceAccumulator → W → EvidenceAccumulator × W
  run [] acc w = (acc, w)
  run (c ∷ cs) acc w = let (acc', w') = perform c acc w in run cs acc' w'

  seal-IsValid :
      (thread : ℕ) (completeness : Value) (acc : EvidenceAccumulator)
      → IsValid h acc
      → IsValid h (seal thread completeness acc).1
  seal-IsValid thread completeness acc v =
      let (runs, most, same, ids) = seal_keeps thread completeness acc in
      record {
        chained = rw (runs, same) v.chained;
        ids = rw (ids, same) v.ids;
        distinct = rw ids v.distinct;
        bounded = rw (most, same) v.bounded;
      }

  perform-IsValid :
      (c : Call) (acc : EvidenceAccumulator) (w : W)
      → NamesEvents validate
      → IsValid h acc
      → IsValid h (perform c acc w).0
  unfolding perform
  perform-IsValid (append_call thread event) acc w names v =
      append-IsValid h validate durable thread event acc w names v
  perform-IsValid (seal_call thread completeness) acc w names v =
      seal-IsValid thread completeness acc v
  perform-IsValid (snapshot_call thread) acc w names v = v

  pub run-IsValid :
      (cs : List Call) (acc : EvidenceAccumulator) (w : W)
      → NamesEvents validate
      → IsValid h acc
      → IsValid h (run cs acc w).0
  unfolding run
  run-IsValid [] acc w names v = v
  run-IsValid (c ∷ cs) acc w names v =
      let (acc', w') = perform c acc w in run-IsValid cs _ _ names (perform-IsValid c acc w names v)

  -- Whatever is called on a new accumulator, from whatever threads and with whatever callback, each
  -- snapshot of it passes `_verify_chain`. The condition is that a valid event has a string for
  -- its id.
  pub run_verifies :
      (run_id : Value) (max_events : ℤ) (acc : EvidenceAccumulator) (cs : List Call) (w : W)
      (thread : ℕ)
      → NamesEvents validate
      → new run_id max_events ≡ ok acc
      → verify_chain h (snapshot thread (run cs acc w).0) ≡ ok tt
  run_verifies run_id max_events acc cs w thread names started =
      verify_chain-snapshot h thread _
        (run-IsValid cs acc w names (new-IsValid h run_id max_events started))

  append_refused :
      (thread : ℕ) (event : Value) (acc : EvidenceAccumulator) (w : W)
      → acc.sealed ≡ true
      → (e : Exn) × ((append h validate durable thread event acc w).0 ≡ err e)
  append_refused thread event acc w closed =
      let r = append h validate durable thread event acc w in
      elim (Result-cases r.0) [
        | inr (e, raised) ↦ (e, raised)
        | inl (entry, returned) ↦
            let (_, made, _, _) =
              append-eq-ok h validate durable thread event acc w (λ i. (returned i, r.1, r.2)) in
            let next = chain_entry-eq-ok h event acc made in
            absurd (false≢true (sym next.open_run ∙ closed))
      ]

  perform-sealed :
      (c : Call) (acc : EvidenceAccumulator) (w : W)
      → acc.sealed ≡ true
      → release (perform c acc w).0 ≡ release acc
  unfolding perform
  perform-sealed (append_call thread event) acc w closed =
      let r = append h validate durable thread event acc w in
      let (e, raised) = append_refused thread event acc w closed in
      append-eq-err h validate durable thread event acc w (λ i. (raised i, r.1, r.2))
  perform-sealed (seal_call thread completeness) acc w closed =
      seal-sealed thread completeness acc closed
  perform-sealed (snapshot_call thread) acc w closed = refl

  run-sealed :
      (cs : List Call) (acc : EvidenceAccumulator) (w : W)
      → acc.sealed ≡ true
      → release (run cs acc w).0 ≡ release acc
  unfolding run
  run-sealed [] acc w closed = refl
  run-sealed (c ∷ cs) acc w closed =
      let same = perform-sealed c acc w closed in
      let (acc', w') = perform c acc w in
      run-sealed cs acc' w' (ap (λ (a : EvidenceAccumulator). a.sealed) same ∙ closed) ∙ same

  -- Once a run is sealed, no calls, from any threads, change what a snapshot shows.
  pub sealed_is_final :
      (cs : List Call) (acc : EvidenceAccumulator) (w : W) (thread : ℕ)
      → acc.sealed ≡ true
      → snapshot thread (run cs acc w).0 ≡ snapshot thread acc
  sealed_is_final cs acc w thread closed =
      snapshot_lem thread (run cs acc w).0
      ∙ unfold snapshot_now in
        ap (λ (a : EvidenceAccumulator). snapshot_now a) (run-sealed cs acc w closed)
        ∙ sym (snapshot_lem thread acc)

  perform_grows :
      (c : Call) (acc : EvidenceAccumulator) (w : W)
      → (more : List EvidenceEntry) × ((perform c acc w).0.entries ≡ acc.entries ++ more)
  unfolding perform
  perform_grows (append_call thread event) acc w =
      let r = append h validate durable thread event acc w in
      elim (Result-cases r.0) [
        | inr (e, raised) ↦
            let same =
              append-eq-err h validate durable thread event acc w (λ i. (raised i, r.1, r.2)) in
            ([], ap (λ (a : EvidenceAccumulator). a.entries) same ∙ sym (append-nil _))
        | inl (entry, returned) ↦
            let (_, _, _, committed) =
              append-eq-ok h validate durable thread event acc w (λ i. (returned i, r.1, r.2)) in
            (entry ∷ [], unfold commit in ap (λ (a : EvidenceAccumulator). a.entries) committed)
      ]
  perform_grows (seal_call thread completeness) acc w =
      ([], (seal_keeps thread completeness acc).2 ∙ sym (append-nil _))
  perform_grows (snapshot_call thread) acc w = ([], sym (append-nil _))

  -- Whatever is called, the entries that were there stay as they are and in their places.
  pub run_grows :
      (cs : List Call) (acc : EvidenceAccumulator) (w : W)
      → (more : List EvidenceEntry) × ((run cs acc w).0.entries ≡ acc.entries ++ more)
  unfolding run
  run_grows [] acc w = ([], sym (append-nil _))
  run_grows (c ∷ cs) acc w =
      let (some_more, first) = perform_grows c acc w in
      let (acc', w') = perform c acc w in
      let (more, rest) = run_grows cs acc' w' in
      (
        some_more ++ more,
        rest ∙ ap (λ es. es ++ more) first ∙ append_assoc acc.entries some_more more,
      )
