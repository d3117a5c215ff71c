-- ===== src/Trace/Chain.antt =====
-- `_verify_chain` of trace_adapter.py: the digests of a snapshot are computed again.
pub mod Laws
pub mod Collision
pub mod Binding
use agentrust_telemetry.Base.{
  ℕ, suc, ◌+◌, Bool, true, false, not, ◌||◌, String, Option, none, some, List, [], ◌∷◌, ◌==◌,
  if◌then◌else◌, str_eq,
}
use agentrust_telemetry.Base.Outcome.{
  Result, ok, err, ◌>>=◌, ◌>>◌, raise_if, type_error, value_error, attribute_error,
  canonicalization_error, trace_finalization_error,
}
use agentrust_telemetry.Value.{Value, str}
use agentrust_telemetry.Value.Equality.{eq_value}
use agentrust_telemetry.Value.Access.{get}
use agentrust_telemetry.Evidence.{
  Hashing, EvidenceEntry, EvidenceSnapshot, canonicalization_profile, entry_digest,
}

abbrev pub eq_digest : Option String → Option String → Bool
eq_digest none none = true
eq_digest (some a) (some b) = str_eq a b
eq_digest _ _ = false

-- `except (TypeError, ValueError, AttributeError, rfc8785.CanonicalizationError)`
unfoldable pub chain_error {ℓ} : {A : Type ℓ} → Result A → Result A
chain_error (ok a) = ok a
chain_error (err (type_error m)) = err (trace_finalization_error "evidence chain does not verify")
chain_error (err (value_error m)) = err (trace_finalization_error "evidence chain does not verify")
chain_error (err (attribute_error m)) =
    err (trace_finalization_error "evidence chain does not verify")
chain_error (err canonicalization_error) =
    err (trace_finalization_error "evidence chain does not verify")
chain_error (err e) = err e

-- what the `try` block of the loop computes
pub record Recomputed : Type 0 where
  pub digest : String
  pub event_id : Value
  pub run_id : Value

unfoldable pub recompute : Hashing → ℕ → Option String → Value → Result Recomputed
recompute h position previous event = do
  digest ← entry_digest h position previous event
  event_id ← get event "event_id"
  run_id ← get event "run_id"
  ok (record { digest = digest; event_id = event_id; run_id = run_id })

-- The condition under which an entry is rejected.
unfoldable pub differs : String → ℕ → Option String → EvidenceEntry → Recomputed → Bool
differs run_id position previous entry found =
    not (entry.sequence == position)
    || not (eq_digest entry.previous_digest previous)
    || not (str_eq entry.digest found.digest)
    || not (eq_value entry.event_id found.event_id)
    || not (eq_value found.run_id (str run_id))

unfoldable pub verify_entry : Hashing → String → ℕ → Option String → EvidenceEntry → Result String
unfolding recompute differs chain_error
verify_entry h run_id position previous entry = do
  found ← chain_error (recompute h position previous entry.event)
  raise_if (differs run_id position previous entry found)
      (trace_finalization_error "evidence chain does not verify")
  ok found.digest

-- The loop from a position on; it returns the last digest.
unfoldable pub verify_from :
    Hashing → String → ℕ → Option String → List EvidenceEntry → Result (Option String)
verify_from h run_id position previous [] = ok previous
verify_from h run_id position previous (entry ∷ entries) = do
  digest ← verify_entry h run_id position previous entry
  verify_from h run_id (position + 1) (some digest) entries

unfoldable pub verify_chain : Hashing → EvidenceSnapshot → Result (Unit {0})
verify_chain h s = do
  raise_if (not (str_eq s.canonicalization_profile canonicalization_profile))
      (trace_finalization_error "unsupported canonicalization profile")
  previous ← verify_from h s.run_id 0 none s.entries
  raise_if (not (eq_digest s.chain_digest previous))
      (trace_finalization_error "evidence chain does not verify: chain_digest mismatch")
