-- ===== src/Tests/TraceRuns.antt =====
-- Runs of trace_adapter.py on the samples: a run with a policy decision and a data flow.
use agentrust_telemetry.Base.{
  ◌≡◌, inl, refl, true, false, String, some, none, List, [], ◌∷◌, All, Some,
}
use agentrust_telemetry.Base.Integer.{ℤ, pos, max_ℤ}
use agentrust_telemetry.Base.Outcome.{ok}
use agentrust_telemetry.Value.{Value, str, dict, record_of, lookup}
use agentrust_telemetry.Value.Access.{get_item, get, has_key, check_hashable}
use agentrust_telemetry.Value.Equality.{eq_value}
use agentrust_telemetry.Value.Number.{to_int}
use agentrust_telemetry.Bytes.{to_bytes, hex, from_hex}
use agentrust_telemetry.Evidence.{
  EvidenceEntry, EvidenceSnapshot, canonicalization_profile, complete, entry_digest, previous_bytes,
}
use agentrust_telemetry.Trace.Chain.{
  verify_chain, verify_from, verify_entry, recompute, differs, chain_error,
}
use agentrust_telemetry.Trace.Events.{
  has_type, of_type, filter_result, is_approval, hashed, set_by, text_starts, assign_key,
}
use agentrust_telemetry.Trace.Policy.{
  policy_binding, bind_policy, some_unbundled, bundle_part, bundle_text, is_supported, only,
  or_conflict, mapped_mode,
}
use agentrust_telemetry.Trace.Policy.Laws.{IsBoundTo, policy_binding_lem}
use agentrust_telemetry.Trace.DataClass.{
  highest_data_class, rank_flows, some_foreign, classified, rank, rank_from, rank_item, highest,
  highest_from,
}
use agentrust_telemetry.Trace.DataClass.Laws.{RanksBelow, highest_data_class_lem}
use agentrust_telemetry.Trace.Approvals.{
  bound_approvals, is_bound, some_answered, answers, some_differs, field_differs, or_continue,
  in_window,
}
use agentrust_telemetry.Trace.Approvals.Laws.{Answered, bound_approvals_lem}
use agentrust_telemetry.Value.Words.{has_prefix}
use agentrust_telemetry.Trace.Actions.{
  has_run, action_approval_binding, bind_actions, action_binding,
}
use agentrust_telemetry.Trace.Actions.Laws.{IsCovered}
use agentrust_telemetry.Trace.Appraisal.{
  affirming, appraisal, decisions_from, grade, policy_event_text,
}
use agentrust_telemetry.Trace.Appraisal.Decisions.{IsAnswered}
use agentrust_telemetry.Trace.Appraisal.Laws.{Examined, IsClear, appraisal-affirming}
use agentrust_telemetry.Trace.Finalize.{
  TraceConfiguration, TracePackage, finalize_trace, event_time, issue_time, seconds_of, maximum,
  latest, require_finalizable, has_duplicates, examine, sign_and_verify, trace_package,
  tool_transcript, actions_of, transcript, malformed, signing_failed,
}
use agentrust_telemetry.Trace.Finalize.Laws.{
  IsFinalized, finalize_trace-IsFinalized, is_refused, finalize_trace_refuses, IsBySecond,
  IsFromSecond, issue_time_lem,
}
use agentrust_telemetry.Tests.{event_fields, toy_hashing}

abbrev show : Value → String
show v = ""

abbrev policy_event : Value
policy_event = event_fields "p1" (
    ("event_type", str "policy.decision")
    ∷ ("time_unix_nano", str "1000000000")
    ∷ ("decision", str "allow")
    ∷ ("enforcement_mode", str "enforce")
    ∷ (
      "policy",
      dict (
          record_of (
            (
              "bundle_digest",
              dict (record_of (("algorithm", str "sha256") ∷ ("value", str "ab") ∷ [])),
            )
            ∷ [])),
    )
    ∷ [])

abbrev flow_event : Value
flow_event = event_fields "f1" (
    ("event_type", str "data_flow.observed")
    ∷ ("time_unix_nano", str "2500000000")
    ∷ ("classification", dict (record_of (("taxonomy", str "t") ∷ ("value", str "internal") ∷ [])))
    ∷ [])

abbrev events : List Value
events = policy_event ∷ flow_event ∷ []

policy_of_run : policy_binding show events ≡ ok ("sha256:ab", "enforce")
unfolding policy_binding bind_policy some_unbundled bundle_part bundle_text is_supported only
    or_conflict mapped_mode of_type filter_result has_type hashed set_by get_item has_key lookup
    eq_value check_hashable
policy_of_run = refl

policy_binding_lem_example :
    All
      (λ e. has_type "policy.decision" e ≡ ok true → IsBoundTo show "sha256:ab" "enforce" e)
      events
    × Some (λ e. has_type "policy.decision" e ≡ ok true) events
policy_binding_lem_example = policy_binding_lem show events policy_of_run

abbrev order : List String
order = "public" ∷ "internal" ∷ "secret" ∷ []

class_of_run : highest_data_class "t" order events ≡ ok (str "internal")
unfolding highest_data_class rank_flows some_foreign classified rank rank_from rank_item highest
    highest_from of_type filter_result has_type set_by get_item lookup eq_value check_hashable
class_of_run = refl

highest_data_class_lem_example :
    All
      (λ e. has_type "data_flow.observed" e ≡ ok true → RanksBelow "t" order (str "internal") e)
      events
    × Some
        (λ e.
          (has_type "data_flow.observed" e ≡ ok true)
          × (classified "value" e ≡ ok (str "internal")))
        events
highest_data_class_lem_example = highest_data_class_lem "t" order events class_of_run

appraisal_of_run : appraisal show events ≡ ok affirming
unfolding appraisal decisions_from grade policy_event_text bound_approvals action_approval_binding
    bind_actions action_binding is_approval text_starts of_type filter_result has_type hashed set_by
    assign_key get_item get lookup eq_value check_hashable has_prefix has_run
appraisal_of_run = refl

appraisal-affirming_example :
    (x : Examined show events) × IsClear x.decisions x.approved x.types
    × IsAnswered x.approved events
    × All (IsCovered x.decisions x.requests x.resolutions) events
appraisal-affirming_example = appraisal-affirming show events appraisal_of_run

issued : issue_time events ≡ ok (pos 2)
unfolding issue_time event_time seconds_of maximum latest get_item lookup to_int max_ℤ
issued = refl

issue_time_lem_example :
    All (λ e. (t : ℤ) × (event_time e ≡ ok t) × IsBySecond (pos 2) t) events
    × Some (λ e. (t : ℤ) × (event_time e ≡ ok t) × IsFromSecond (pos 2) t) events
issue_time_lem_example = issue_time_lem events issued

-- a request, and the approval that answers it
abbrev approval_fields : String → String → String → Value
approval_fields event_id event_type time = event_fields event_id (
    ("event_type", str event_type)
    ∷ ("time_unix_nano", str time)
    ∷ ("approval_id", str "a1")
    ∷ ("policy_event_id", str "p1")
    ∷ ("action_digest", dict (record_of (("algorithm", str "sha256") ∷ ("value", str "cd") ∷ [])))
    ∷ ("chain_id", str "c1")
    ∷ ("chain_version", str "1")
    ∷ ("requested_at_unix_nano", str "10")
    ∷ ("expires_at_unix_nano", str "20")
    ∷ [])

abbrev request_event : Value
request_event = approval_fields "r1" "approval.requested" "10"

abbrev approved_event : Value
approved_event = approval_fields "r2" "approval.approved" "15"

approved_of_run : bound_approvals (request_event ∷ approved_event ∷ []) ≡ ok (approved_event ∷ [])
unfolding bound_approvals is_bound of_type filter_result has_type get_item get has_key lookup
    eq_value to_int some_answered answers some_differs field_differs or_continue in_window
approved_of_run = refl

bound_approvals_lem_example :
    All
      (λ a.
        (has_type "approval.approved" a ≡ ok true)
        × Some
            (λ r. (has_type "approval.requested" r ≡ ok true) × Answered a r)
            (request_event ∷ approved_event ∷ []))
      (approved_event ∷ [])
bound_approvals_lem_example =
    bound_approvals_lem (request_event ∷ approved_event ∷ []) approved_of_run

abbrev policy_entry : EvidenceEntry
policy_entry = record {
  sequence = 0;
  event_id = str "p1";
  previous_digest = none;
  digest = "6300000000000000000000000000000000000000000000000000000000000000";
  event = policy_event;
}

abbrev flow_entry : EvidenceEntry
flow_entry = record {
  sequence = 1;
  event_id = str "f1";
  previous_digest = some "6300000000000000000000000000000000000000000000000000000000000000";
  digest = "8700000000000000000000000000000000000000000000000000000000000000";
  event = flow_event;
}

abbrev sealed_snapshot : EvidenceSnapshot
sealed_snapshot = record {
  run_id = "r1";
  entries = policy_entry ∷ flow_entry ∷ [];
  chain_digest = some "8700000000000000000000000000000000000000000000000000000000000000";
  canonicalization_profile = canonicalization_profile;
  completeness = complete;
  sealed = true;
}

abbrev configuration : TraceConfiguration
configuration = record {
  subject = "agent";
  model_provider = "provider";
  model_id = "model";
  build_digest = "sha256:00";
  origin_kind = "kind";
  origin_producer = "producer";
  appraisal_verifier = "verifier";
  classification_taxonomy = "t";
  classification_order = order;
  model_version = none;
  build_slsa_level = 1;
  build_builder = none;
  build_provenance_uri = none;
  transparency = none;
}

-- a package that adds no signature and accepts every record
abbrev lenient : TracePackage
lenient = record {
  profile = "profile";
  has_key = true;
  sign_record = λ v. ok (str "signed");
  model_validate = λ v. ok tt;
  verify_record = λ v. ok tt;
}

finalized :
    finalize_trace toy_hashing show (some lenient) sealed_snapshot configuration ≡ ok (str "signed")
unfolding finalize_trace trace_package require_finalizable has_duplicates verify_chain verify_from
    verify_entry recompute differs chain_error entry_digest previous_bytes to_bytes hex examine
    malformed sign_and_verify signing_failed tool_transcript actions_of transcript has_type get_item
    get lookup eq_value from_hex
finalized = rw (policy_of_run, class_of_run, appraisal_of_run, issued) refl

finalize_trace-IsFinalized_example :
    IsFinalized toy_hashing show lenient sealed_snapshot configuration (str "signed")
finalize_trace-IsFinalized_example =
    finalize_trace-IsFinalized toy_hashing show lenient sealed_snapshot configuration finalized

abbrev open_snapshot : EvidenceSnapshot
open_snapshot = record sealed_snapshot { sealed = false }

finalize_trace_refuses_example :
    is_refused (finalize_trace toy_hashing show (some lenient) open_snapshot configuration) ≡ true
finalize_trace_refuses_example =
    finalize_trace_refuses toy_hashing show (some lenient) open_snapshot configuration (inl refl)
