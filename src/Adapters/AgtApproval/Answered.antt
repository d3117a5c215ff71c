-- ===== src/Adapters/AgtApproval/Answered.antt =====
-- adapters/agt_approval.py and `_bound_approvals` of trace_adapter.py, one after the other.
use mathlib.Core.Path.{subst}
use agentrust_telemetry.Base.{◌≡◌, refl, sym, ap, ◌∙◌, true, false, String, [], ◌∷◌}
use agentrust_telemetry.Base.Integer.{ℤ, ltb_ℤ, ◌≤ℤ◌}
use agentrust_telemetry.Base.Outcome.{ok, ok-injective}
use agentrust_telemetry.Value.{Value, str}
use agentrust_telemetry.Value.Words.{has_prefix}
use agentrust_telemetry.Value.Equality.{eq_value}
use agentrust_telemetry.Factory.{EventFactory, is_reserved, payload_value, unix_nano}
use agentrust_telemetry.Factory.Payload.{
  Holds, Holds-get_item, Holds-plain, Holds-time, find, build-Holds-event_type, build-Holds-time,
}
use agentrust_telemetry.Adapters.Source.{
  plain, Source, field_of, enum_value, datetime_ns, digest_value,
}
use agentrust_telemetry.Adapters.AgtApproval.{
  Correlation, source_event_id, outcome_type, agt_approval_request, agt_approval_resolution,
}
use agentrust_telemetry.Adapters.AgtApproval.Binding.{
  IsRequest, IsResolution, agt_approval_request-IsRequest, agt_approval_resolution-IsResolution,
}
use agentrust_telemetry.Trace.Events.{has_type, of_type, filter_result}
use agentrust_telemetry.Trace.Approvals.{
  binding_fields, or_continue, answers, some_answered, is_bound, bound_approvals,
}
use agentrust_telemetry.Adapters.AgtApproval.Agreement.{
  AgreeOn, some_differs-AgreeOn, HasTime, in_window-HasTime, str_same, digest_same, agree,
  agree_time, shared_text, digest-eq-ok,
}

module _ (f g : EventFactory) (uuid5 : String → String) (source policy resolution : Source)
    (c c' : Correlation) (now now' : ℤ) (id id' : String) {request approval : Value}
    (r : IsRequest f uuid5 source policy c now id request)
    (a : IsResolution g uuid5 resolution source c' now' id' approval) where
  agree_ids : AgreeOn approval request "approval_id" × AgreeOn approval request "policy_event_id"
  unfolding is_reserved find payload_value has_prefix
  agree_ids = (
    agree approval request "approval_id"
        (Holds-plain g _ now' id' a.built "approval_id" (str a.approval_id) refl refl refl)
        (Holds-plain f _ now id r.built "approval_id" (str r.approval_id) refl refl refl)
        (ap str (
          shared_text resolution source "approval_request_id" a.shared.0 a.approval_found
            r.approval_found))
        (str_same r.approval_id),
    agree approval request "policy_event_id"
        (Holds-plain g _ now' id' a.built "policy_event_id" _ refl refl refl)
        (Holds-plain f _ now id r.built "policy_event_id"
          (str (source_event_id uuid5 "policy" r.policy_id)) refl refl refl)
        (ap (λ p. str (source_event_id uuid5 "policy" p))
          (ok-injective (sym a.policy_found ∙ r.policy_found)))
        (str_same (source_event_id uuid5 "policy" r.policy_id)),
  )

  agree_digest : AgreeOn approval request "action_digest"
  unfolding is_reserved find payload_value has_prefix
  agree_digest =
      let (s, found, made) = digest-eq-ok (field_of resolution "action_digest") a.digest_found in
      let (t, found', made') = digest-eq-ok (field_of source "action_digest") r.digest_found in
      agree approval request "action_digest"
        (Holds-plain g _ now' id' a.built "action_digest" a.action_digest refl refl refl)
        (Holds-plain f _ now id r.built "action_digest" r.action_digest refl refl refl)
        (made
          ∙ ap digest_value
              (shared_text resolution source "action_digest" (a.shared.1).0 found found')
          ∙ sym made')
        (subst (λ d. eq_value d d ≡ true) (sym made') (digest_same t))

  agree_chain : AgreeOn approval request "chain_id" × AgreeOn approval request "chain_version"
  unfolding is_reserved find payload_value has_prefix
  agree_chain = (
    agree approval request "chain_id"
        (Holds-plain g _ now' id' a.built "chain_id" (str a.chain_id) refl refl refl)
        (Holds-plain f _ now id r.built "chain_id" (str r.chain_id) refl refl refl)
        (ap str (ok-injective (sym a.chain_found ∙ r.chain_found))) (str_same r.chain_id),
    agree approval request "chain_version"
        (Holds-plain g _ now' id' a.built "chain_version" (str a.chain_version) refl refl refl)
        (Holds-plain f _ now id r.built "chain_version" (str r.chain_version) refl refl refl)
        (ap str (ok-injective (sym a.version_found ∙ r.version_found))) (str_same r.chain_version),
  )

  request_times :
      HasTime request "requested_at_unix_nano" r.requested_at
      × HasTime request "expires_at_unix_nano" r.expires_at
  unfolding is_reserved find payload_value unix_nano has_prefix
  request_times = (
    Holds-time f _ now id r.built "requested_at_unix_nano" r.requested_at refl refl refl,
    Holds-time f _ now id r.built "expires_at_unix_nano" r.expires_at refl refl refl,
  )

  agree_times :
      AgreeOn approval request "requested_at_unix_nano"
      × AgreeOn approval request "expires_at_unix_nano"
  unfolding is_reserved find payload_value unix_nano has_prefix
  agree_times =
      let (requested, expires) = request_times in
      (
        agree_time approval request _ a.requested_at r.requested_at
            (Holds-time g _ now' id' a.built "requested_at_unix_nano" a.requested_at refl refl refl)
            requested (ok-injective (sym a.requested ∙ r.requested)),
        agree_time approval request _ a.expires_at r.expires_at
            (Holds-time g _ now' id' a.built "expires_at_unix_nano" a.expires_at refl refl refl)
            expires (ok-injective (sym a.expires ∙ r.expires)),
      )

  answers-ok : a.resolved_at ≤ℤ a.expires_at → answers approval request ≡ ok true
  unfolding answers or_continue
  answers-ok in_time =
      let (approval_id, policy_id) = agree_ids in
      let (chain_id, chain_version) = agree_chain in
      let (requested, expires) = agree_times in
      let (asked, ends) = request_times in
      rw
        (
          some_differs-AgreeOn binding_fields approval request (
            approval_id,
            (policy_id, (agree_digest, (chain_id, (chain_version, (requested, (expires, tt)))))),
          ),
          in_window-HasTime approval request r.requested_at a.resolved_at r.expires_at asked
              (build-Holds-time g _ now' id' a.built) ends
              (subst (λ n. ltb_ℤ a.resolved_at n ≡ false)
                (ok-injective (sym a.requested ∙ r.requested)) a.in_order)
              (subst (λ n. a.resolved_at ≤ℤ n) (ok-injective (sym a.expires ∙ r.expires)) in_time),
        )
        refl

allow_type : outcome_type (plain (str "allow")) ≡ ok ("approval.approved", "allow")
unfolding outcome_type
allow_type = refl

has_type-Holds :
    (name kind : String) (event : Value)
    → Holds event "event_type" (str kind)
    → has_type name event ≡ ok (eq_value (str kind) (str name))
unfolding has_type
has_type-Holds name kind event h = rw (Holds-get_item event "event_type" h) refl

bound_pair :
    (request approval : Value)
    → Holds request "event_type" (str "approval.requested")
    → Holds approval "event_type" (str "approval.approved")
    → answers approval request ≡ ok true
    → bound_approvals (request ∷ approval ∷ []) ≡ ok (approval ∷ [])
unfolding bound_approvals of_type filter_result is_bound some_answered eq_value
bound_pair request approval r a h =
    rw
      (
        has_type-Holds "approval.requested" "approval.requested" request r,
        has_type-Holds "approval.requested" "approval.approved" approval a,
        has_type-Holds "approval.approved" "approval.requested" request r,
        has_type-Holds "approval.approved" "approval.approved" approval a,
        h,
      )
      refl

-- A request that the adapter mapped, and the resolution of it with the outcome "allow" that the
-- adapter mapped, are an approval that TRACE finalization counts as bound, if the resolution is no
-- later than the request's expiry.
pub bound_approvals-agt :
    (f g : EventFactory) (uuid5 : String → String) (source policy resolution : Source)
    (c c' : Correlation) (now now' : ℤ) (id id' : String) (resolved expires : ℤ)
    {request approval : Value}
    → agt_approval_request f uuid5 source policy c now id ≡ ok request
    → agt_approval_resolution g uuid5 resolution source c' now' id' ≡ ok approval
    → enum_value (field_of resolution "outcome") ≡ plain (str "allow")
    → datetime_ns (field_of resolution "resolved_at") ≡ ok resolved
    → datetime_ns (field_of source "expires_at") ≡ ok expires
    → resolved ≤ℤ expires
    → bound_approvals (request ∷ approval ∷ []) ≡ ok (approval ∷ [])
bound_approvals-agt f g uuid5 source policy resolution c c' now now' id id' resolved expires
      {request} {approval} asked answered allowed at until in_time =
    let r = agt_approval_request-IsRequest f uuid5 source policy c now id asked in
    let a = agt_approval_resolution-IsResolution g uuid5 resolution source c' now' id' answered in
    let kind : a.event_type ≡ "approval.approved" =
      ap (λ p. p.0) (ok-injective (sym a.outcome_found ∙ ap outcome_type allowed ∙ allow_type)) in
    bound_pair request approval (build-Holds-event_type f _ now id r.built)
      (subst (λ t. Holds approval "event_type" (str t)) kind
        (build-Holds-event_type g _ now' id' a.built))
      (answers-ok f g uuid5 source policy resolution c c' now now' id id' r a (
        subst (λ n. n ≤ℤ a.expires_at) (ok-injective (sym at ∙ a.resolved))
          (subst (λ n. resolved ≤ℤ n) (ok-injective (sym until ∙ a.expires)) in_time)))
