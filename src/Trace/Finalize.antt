-- ===== src/Trace/Finalize.antt =====
-- `finalize_trace` of trace_adapter.py. The package agentrust-trace and the caller's signing key
-- are parameters.
pub mod Laws
use mathlib.Core.Option
use agentrust_telemetry.Base.{
  ℕ, ◌+◌, ◌*◌, ◌/◌, ◌^◌, ◌≡◌, Bool, true, false, not, ◌||◌, ◌&&◌, String, Option, none, some, List,
  [], ◌∷◌, ◌++◌, map, any, length, str_eq, if◌then◌else◌,
}
use Prim.Native.String
use agentrust_telemetry.Base.Integer.{ℤ, pos, negsuc, max_ℤ, sub_ℕ}
use agentrust_telemetry.Base.Outcome.{
  Exn, Result, ok, err, ◌>>=◌, ◌>>◌, raise_if, traverse, type_error, value_error, key_error,
  attribute_error, canonicalization_error, trace_finalization_error,
}
use agentrust_telemetry.Value.{Value, null, int, str, list, dict, from_items, record_of}
use agentrust_telemetry.Value.Access.{get_item, is_null}
use agentrust_telemetry.Value.Number.{to_int}
use agentrust_telemetry.Bytes.{hex}
use agentrust_telemetry.Evidence.{Hashing, EvidenceEntry, EvidenceSnapshot, Completeness, complete}
use agentrust_telemetry.Trace.Events.{has_type}
use agentrust_telemetry.Trace.Chain.{verify_chain}
use agentrust_telemetry.Trace.Policy.{policy_binding}
use agentrust_telemetry.Trace.DataClass.{highest_data_class}
use agentrust_telemetry.Trace.Appraisal.{Appraisal, appraisal, appraisal_status, is_empty}

pub record TraceConfiguration : Type 0 where
  pub subject : String
  pub model_provider : String
  pub model_id : String
  pub build_digest : String
  pub origin_kind : String
  pub origin_producer : String
  pub appraisal_verifier : String
  pub classification_taxonomy : String
  pub classification_order : List String
  pub model_version : Option String
  pub build_slsa_level : ℕ
  pub build_builder : Option String
  pub build_provenance_uri : Option String
  pub transparency : Option String

-- The package agentrust-trace: its profile name, and its signing, validation and verification
-- with the caller's key; `has_key` says whether a key with `sign` and `public_key` was given.
pub record TracePackage : Type 0 where
  pub profile : String
  pub has_key : Bool
  pub sign_record : Value → Result Value
  pub model_validate : Value → Result (Unit {0})
  pub verify_record : Value → Result (Unit {0})

abbrev is_blank : String → Bool
is_blank s = str_eq s ""

-- an optional text that is missing or empty
abbrev is_blank? : Option String → Bool
is_blank? none = true
is_blank? (some s) = is_blank s

abbrev is_complete : Completeness → Bool
is_complete complete = true
is_complete _ = false

unfoldable pub has_duplicates : List String → Bool
has_duplicates [] = false
has_duplicates (s ∷ ss) = any (str_eq s) ss || has_duplicates ss

unfoldable pub require_finalizable :
    TracePackage → EvidenceSnapshot → TraceConfiguration → Result (Unit {0})
require_finalizable tracer s config = do
  raise_if (not s.sealed) (trace_finalization_error "evidence snapshot must be sealed")
  raise_if (not (is_complete s.completeness))
      (trace_finalization_error "TRACE finalization requires completeness='complete'")
  raise_if (is_empty s.entries || is_blank? s.chain_digest)
      (trace_finalization_error "TRACE finalization requires non-empty chained evidence")
  raise_if (not tracer.has_key)
      (trace_finalization_error "a caller-supplied signing key is required")
  raise_if
      (is_blank config.subject
        || is_blank config.model_provider
        || is_blank config.model_id
        || is_blank config.build_digest
        || is_blank config.origin_producer
        || is_blank config.appraisal_verifier)
      (trace_finalization_error "trusted TRACE configuration is missing")
  raise_if (has_duplicates config.classification_order)
      (trace_finalization_error "classification_order contains duplicates")

-- {"sequence": entry.sequence, "event": entry.event} for the executed actions
unfoldable pub actions_of : List EvidenceEntry → Result (List Value)
actions_of [] = ok []
actions_of (entry ∷ entries) = do
  executed ← has_type "action.executed" entry.event
  rest ← actions_of entries
  let action =
      dict (record_of (("sequence", int (pos entry.sequence)) ∷ ("event", entry.event) ∷ []))
  ok (if executed then action ∷ rest else rest)

unfoldable pub transcript : Hashing → List Value → Result (Option Value)
transcript h [] = ok none
transcript h (action ∷ others) = do
  let actions = action ∷ others
  canonical ← h.dumps (list (from_items actions))
  ok (
      some (
        dict (
          record_of (
            ("hash", str (String.◌++◌ "sha256:" (hex (h.sha256 canonical))))
            ∷ ("call_count", int (pos (length actions)))
            ∷ []))))

unfoldable pub tool_transcript : Hashing → EvidenceSnapshot → Result (Option Value)
tool_transcript h s = do actions ← actions_of s.entries; transcript h actions

unfoldable pub event_time : Value → Result ℤ
event_time event = do t ← get_item event "time_unix_nano"; to_int t

unfoldable pub latest : ℤ → List ℤ → ℤ
latest t [] = t
latest t (u ∷ us) = latest (max_ℤ t u) us

unfoldable pub maximum : List ℤ → Result ℤ
maximum [] = err (value_error "max() arg is an empty sequence")
maximum (t ∷ ts) = ok (latest t ts)

-- t // 1_000_000_000, which rounds toward minus infinity
unfoldable pub seconds_of : ℤ → ℤ
seconds_of (pos n) = pos (n / 1000000000)
seconds_of (negsuc n) = negsuc (n / 1000000000)

unfoldable pub issue_time : List Value → Result ℤ
issue_time events = do times ← traverse event_time events; t ← maximum times; ok (seconds_of t)

-- what the first `try` block computes
pub record Findings : Type 0 where
  pub bundle_hash : String
  pub enforcement_mode : String
  pub data_class : Value
  pub transcript : Option Value
  pub appraisal : Appraisal
  pub issued_at : ℤ

unfoldable pub examine :
    Hashing → (Value → String) → EvidenceSnapshot → TraceConfiguration → Result Findings
examine h display s config = do
  let events = map (λ (e : EvidenceEntry). e.event) s.entries
  (bundle, mode) ← policy_binding display events
  data_class ← highest_data_class config.classification_taxonomy config.classification_order events
  calls ← tool_transcript h s
  status ← appraisal display events
  issued_at ← issue_time events
  ok (record {
    bundle_hash = bundle;
    enforcement_mode = mode;
    data_class = data_class;
    transcript = calls;
    appraisal = status;
    issued_at = issued_at;
  })

-- `except (KeyError, TypeError, ValueError, AttributeError)`
unfoldable pub malformed {ℓ} : {A : Type ℓ} → Result A → Result A
malformed (err (key_error m)) = err (trace_finalization_error "evidence contains a malformed event")
malformed (err (type_error m)) =
    err (trace_finalization_error "evidence contains a malformed event")
malformed (err (value_error m)) =
    err (trace_finalization_error "evidence contains a malformed event")
-- in rfc8785 a subclass of ValueError
malformed (err canonicalization_error) =
    err (trace_finalization_error "evidence contains a malformed event")
malformed (err (attribute_error m)) =
    err (trace_finalization_error "evidence contains a malformed event")
malformed r = r

-- `**({name: value} if value else {})`
abbrev given : String → Option String → List (String × Value)
given name none = []
given name (some s) = if is_blank s then [] else (name, str s) ∷ []

abbrev given_value : String → Option Value → List (String × Value)
given_value name none = []
given_value name (some v) = (name, v) ∷ []

abbrev or_none_text : Option String → String
or_none_text none = "None"
or_none_text (some s) = s

unfoldable pub trace_record :
    TracePackage → EvidenceSnapshot → TraceConfiguration → Findings → Value
trace_record tracer s config f = dict (
    record_of (
      ("eat_profile", str tracer.profile)
      ∷ ("iat", int f.issued_at)
      ∷ ("subject", str config.subject)
      ∷ (
        "model",
        dict (
            record_of (
              ("provider", str config.model_provider)
              ∷ ("model_id", str config.model_id)
              ∷ given "version" config.model_version)),
      )
      ∷ (
        "runtime",
        dict (
            record_of (
              ("platform", str "software-only")
              ∷ ("measurement", str (String.◌++◌ "sha256:" (or_none_text s.chain_digest)))
              ∷ [])),
      )
      ∷ (
        "policy",
        dict (
            record_of (
              ("bundle_hash", str f.bundle_hash)
              ∷ ("enforcement_mode", str f.enforcement_mode)
              ∷ [])),
      )
      ∷ ("data_class", f.data_class)
      ∷ (given_value "tool_transcript" f.transcript
          ++ ((
            "origin",
            dict (
                record_of (
                  ("kind", str config.origin_kind)
                  ∷ ("producer", str config.origin_producer)
                  ∷ [])),
          )
              ∷ (
                "build_provenance",
                dict (
                    record_of (
                      ("slsa_level", int (pos config.build_slsa_level))
                      ∷ ("digest", str config.build_digest)
                      ∷ (given "builder" config.build_builder
                          ++ given "provenance_uri" config.build_provenance_uri))),
              )
              ∷ (
                "appraisal",
                dict (
                    record_of (
                      ("status", str (appraisal_status f.appraisal))
                      ∷ ("verifier", str config.appraisal_verifier)
                      ∷ ("timestamp", int f.issued_at)
                      ∷ [])),
              )
              ∷ given "transparency" config.transparency))))

-- `except Exception` around the calls of the package
unfoldable pub signing_failed {ℓ} : {A : Type ℓ} → Result A → Result A
signing_failed (ok a) = ok a
signing_failed (err e) =
    err (trace_finalization_error "official TRACE signing or validation failed")

unfoldable pub sign_and_verify : TracePackage → Value → Result Value
sign_and_verify tracer unsigned = do
  signed ← tracer.sign_record unsigned
  tracer.model_validate signed
  tracer.verify_record signed
  ok signed

-- `_trace_package`: `none` is a package that is not installed.
unfoldable pub trace_package : Option TracePackage → Result TracePackage
trace_package none =
    err (trace_finalization_error "TRACE finalization requires the 'trace' optional dependency")
trace_package (some tracer) = ok tracer

unfoldable pub finalize_trace :
    Hashing
    → (Value → String)
    → Option TracePackage
    → EvidenceSnapshot
    → TraceConfiguration
    → Result Value
finalize_trace h display installed s config = do
  tracer ← trace_package installed
  require_finalizable tracer s config
  verify_chain h s
  findings ← malformed (examine h display s config)
  signing_failed (sign_and_verify tracer (trace_record tracer s config findings))
