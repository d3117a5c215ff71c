-- ===== src/Evidence.antt =====
-- agentrust_telemetry/evidence.py: the entries of a run, and the digest that chains them. RFC 8785
-- and SHA-256 are parameters; so is the validator, which is modelled in `Validation`.
pub mod Accumulator
use agentrust_telemetry.Base.{
  ℕ, zero, suc, Bool, String, Option, none, some, List, [], ◌∷◌, ◌++◌, str_eq, if◌then◌else◌,
}
use agentrust_telemetry.Base.Outcome.{Result, ok, ◌>>=◌}
use agentrust_telemetry.Value.{Value}
use agentrust_telemetry.Value.Words.{codes}
use agentrust_telemetry.Bytes.{Bytes, IsDigest, hex, from_hex, to_bytes}

-- The libraries that the chain calls: `rfc8785.dumps`, which raises where the event has no
-- canonical form, and `hashlib.sha256(...).digest()`.
pub record Hashing : Type 0 where
  pub dumps : Value → Result Bytes
  pub sha256 : Bytes → Bytes

-- A digest has 32 bytes.
abbrev pub IsSha256 : Hashing → Type 0
IsSha256 h = (m : Bytes) → IsDigest (h.sha256 m)

pub record EvidenceEntry : Type 0 where
  pub sequence : ℕ
  pub event_id : Value
  pub previous_digest : Option String
  pub digest : String
  pub event : Value

pub data Completeness : Type 0 where
  complete incomplete unknown : Completeness

pub record EvidenceSnapshot : Type 0 where
  pub run_id : String
  pub entries : List EvidenceEntry
  pub chain_digest : Option String
  pub canonicalization_profile : String
  pub completeness : Completeness
  pub sealed : Bool

abbrev pub canonicalization_profile : String
canonicalization_profile = "rfc8785-jcs-v1"

abbrev zeros : ℕ → Bytes
zeros zero = []
zeros (suc n) = 0 ∷ zeros n

abbrev pub genesis_digest : Bytes
genesis_digest = zeros 32

-- `bytes.fromhex(previous_digest) if previous_digest else _GENESIS_DIGEST`
unfoldable pub previous_bytes : Option String → Result Bytes
previous_bytes none = ok genesis_digest
previous_bytes (some p) = if str_eq p "" then ok genesis_digest else from_hex (codes p)

unfoldable pub entry_digest : Hashing → ℕ → Option String → Value → Result String
entry_digest h sequence previous_digest event = do
  canonical ← h.dumps event
  previous ← previous_bytes previous_digest
  position ← to_bytes 8 sequence
  ok (hex (h.sha256 (previous ++ (position ++ canonical))))
