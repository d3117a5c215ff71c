-- ===== src/Tests/EvidenceRuns.antt =====
-- Runs of evidence.py and of `_verify_chain` on the samples.
use agentrust_telemetry.Base.{
  ℕ, suc, length, arith, false, ◌≡◌, refl, ◌⊎◌, true, none, some, List, [], ◌∷◌, ◌++◌, map,
}
use agentrust_telemetry.Base.Integer.{pos}
use agentrust_telemetry.Base.Outcome.{ok, err, evidence_persistence_error, external_error}
use agentrust_telemetry.Value.{str, bool, lookup}
use agentrust_telemetry.Value.Access.{get_item, get, check_hashable}
use agentrust_telemetry.Value.Words.{codes}
use agentrust_telemetry.Value.Equality.{eq_value}
use agentrust_telemetry.Bytes.{to_bytes, hex}
use agentrust_telemetry.Evidence.{
  EvidenceEntry, EvidenceSnapshot, canonicalization_profile, complete, unknown, entry_digest,
  previous_bytes,
}
use agentrust_telemetry.Evidence.Accumulator.{
  EvidenceAccumulator, DurableAppend, canonicalized, persist, acknowledged, commit, release, new,
  append, admit, enter, chain_entry, snapshot,
}
use agentrust_telemetry.Evidence.Accumulator.Append.{append_durable, append_atomic}
use agentrust_telemetry.Evidence.Accumulator.Invariant.{new-IsValid}
use agentrust_telemetry.Evidence.Accumulator.Progress.{IsReady, append_progress}
use agentrust_telemetry.Evidence.Accumulator.Sealing.{
  Call, append_call, seal_call, run, run_verifies, sealed_is_final, run_grows,
}
use agentrust_telemetry.Trace.Chain.{
  verify_chain, verify_from, verify_entry, recompute, differs, chain_error,
}
use agentrust_telemetry.Trace.Chain.Binding.{canonical, chain_binding}
use agentrust_telemetry.Trace.Chain.Collision.{Collision}
use agentrust_telemetry.Tests.{
  toy_hashing, toy_hashing-IsSha256, toy_validate, toy_validate-NamesEvents, counting, first_event,
  second_event, empty_run,
}

new_run : new (str "r1") (pos 2) ≡ ok empty_run
unfolding new
new_run = refl

-- two events, one of them sent twice, then a seal and a late event
abbrev calls : List Call
calls =
    append_call 1 first_event
    ∷ append_call 2 first_event
    ∷ append_call 2 second_event
    ∷ seal_call 1 (str "complete")
    ∷ append_call 1 second_event
    ∷ []

run_verifies_example :
    verify_chain toy_hashing
      (snapshot 7 (run toy_hashing toy_validate (some counting) calls empty_run 0).0)
    ≡ ok tt
run_verifies_example =
    run_verifies toy_hashing toy_validate (some counting) (str "r1") (pos 2) empty_run calls 0 7
      toy_validate-NamesEvents new_run

abbrev sealed_run : EvidenceAccumulator
sealed_run = record empty_run { sealed = true; completeness = complete }

sealed_is_final_example :
    snapshot 3 (run toy_hashing toy_validate (some counting) calls sealed_run 0).0
    ≡ snapshot 3 sealed_run
sealed_is_final_example =
    sealed_is_final toy_hashing toy_validate (some counting) calls sealed_run 0 3 refl

run_grows_example :
    (more : List EvidenceEntry) × ((run toy_hashing toy_validate
        (some counting)
        calls
        empty_run
        0).0.entries
      ≡ more)
run_grows_example = run_grows toy_hashing toy_validate (some counting) calls empty_run 0

abbrev first_entry : EvidenceEntry
first_entry = record {
  sequence = 0;
  event_id = str "e1";
  previous_digest = none;
  digest = "f800000000000000000000000000000000000000000000000000000000000000";
  event = first_event;
}

abbrev one_event : EvidenceAccumulator
one_event = record empty_run { entries = first_entry ∷ []; event_ids = str "e1" ∷ [] }

first_append :
    append toy_hashing toy_validate (some counting) 1 first_event empty_run 0
    ≡ (ok first_entry, one_event, 1)
unfolding append admit chain_entry get_item lookup eq_value check_hashable entry_digest
    previous_bytes to_bytes hex canonicalized persist acknowledged commit enter
first_append = refl

append_durable_example :
    (counting first_entry 0 ≡ (ok (bool true), 1))
    × (one_event.entries ≡ [] ++ first_entry ∷ [])
    × (first_entry.event ≡ first_event)
    × (first_entry.sequence ≡ 0)
append_durable_example =
    append_durable toy_hashing toy_validate counting 1 first_event empty_run 0 first_append

first_event-IsReady : IsReady toy_hashing toy_validate first_event empty_run
unfolding get_item lookup eq_value
first_event-IsReady = record {
  valid = refl;
  of_run = refl;
  free = refl;
  is_open = refl;
  id = "e1";
  is_named = refl;
  fresh = refl;
  room = omega arith;
  small = omega arith;
  canonical = codes "e1";
  dumped = refl;
}

counting_acknowledges : (entry : EvidenceEntry) → (persist (some counting) entry 0).0 ≡ ok tt
unfolding persist acknowledged
counting_acknowledges entry = refl

append_progress_example :
    (entry : EvidenceEntry) × (w' : ℕ) × (append toy_hashing toy_validate
        (some counting)
        1
        first_event
        empty_run
        0
      ≡ (ok entry, release (commit entry empty_run), w'))
    × (length (commit entry empty_run).entries ≡ suc 0)
append_progress_example =
    append_progress toy_hashing toy_hashing-IsSha256 toy_validate 1 first_event empty_run
      (new-IsValid toy_hashing (str "r1") (pos 2) new_run) first_event-IsReady (some counting) 0
      counting_acknowledges

-- a callback that fails
abbrev failing : DurableAppend ℕ
failing entry w = (err (external_error "disk full"), suc w)

failed_append :
    append toy_hashing toy_validate (some failing) 1 first_event empty_run 0
    ≡ (err (evidence_persistence_error "durable evidence callback failed"), empty_run, 1)
unfolding append admit chain_entry get_item lookup eq_value check_hashable entry_digest
    previous_bytes to_bytes hex canonicalized persist acknowledged commit enter
failed_append = refl

append_atomic_example : empty_run ≡ empty_run
append_atomic_example =
    append_atomic toy_hashing toy_validate (some failing) 1 first_event empty_run 0 failed_append
      refl

abbrev sealed_snapshot : EvidenceSnapshot
sealed_snapshot = record {
  run_id = "r1";
  entries = first_entry ∷ [];
  chain_digest = some "f800000000000000000000000000000000000000000000000000000000000000";
  canonicalization_profile = canonicalization_profile;
  completeness = complete;
  sealed = true;
}

abbrev open_snapshot : EvidenceSnapshot
open_snapshot = record sealed_snapshot { completeness = unknown; sealed = false }

sealed_verifies : verify_chain toy_hashing sealed_snapshot ≡ ok tt
unfolding verify_chain verify_from verify_entry recompute differs chain_error entry_digest
    previous_bytes to_bytes hex get_item get lookup eq_value
sealed_verifies = refl

open_verifies : verify_chain toy_hashing open_snapshot ≡ ok tt
unfolding verify_chain verify_from verify_entry recompute differs chain_error entry_digest
    previous_bytes to_bytes hex get_item get lookup eq_value
open_verifies = refl

chain_binding_example :
    (map (canonical toy_hashing) sealed_snapshot.entries
      ≡ map (canonical toy_hashing) open_snapshot.entries)
    ⊎ Collision toy_hashing sealed_snapshot.entries open_snapshot.entries
chain_binding_example =
    chain_binding toy_hashing sealed_snapshot open_snapshot toy_hashing-IsSha256 sealed_verifies
      open_verifies refl
