-- ===== src/Client/Emit.antt =====
-- What an emission does: in which order, what stops it, and what a projection can do to it.
use agentrust_telemetry.Base.{
  ◌≡◌, sym, ap, ◌∙◌, ◌↔◌, ◌⊎◌, inl, inr, Bool, true, Option, none, some, ◌++◌,
}
use agentrust_telemetry.Base.Outcome.{Exn, Result, ok, ok-injective, err, |>-eq-ok, |>-eq-err}
use agentrust_telemetry.Value.{Value, Fields}
use agentrust_telemetry.Client.{
  SpanLike, ContextIds, active_context_ids, correlate, EmitResult, TelemetryClient, Projected,
  append_evidence, project_all, project_span, project_log, project_metric, span_event, log_record,
  emit,
}
use agentrust_telemetry.Client.Delivery.{
  IsRecorded, append_evidence-IsRecorded, IsRecorded-append_evidence, add_event_of, IsSpanRun,
  project_span-IsSpanRun, IsSpanRun-project_span, IsLogRun, project_log-IsLogRun,
  IsLogRun-project_log, IsMetricRun, project_metric-IsMetricRun, IsMetricRun-project_metric,
}

module _ {W : Type 0} (c : TelemetryClient W) (event : Value) where
  -- An emission that returns: the event is valid, a span resolves, the event agrees with its
  -- context, the sink takes the event on the world that the resolver left, and then the span, the
  -- log emitter and the metric emitter have their turns, each on the world of the one before.
  pub record IsEmitted (w : W) (r : EmitResult) (w' : W) : Type 0 where
    pub span : Option (SpanLike W)
    pub before : W
    pub valid : c.validate event ≡ ok tt
    pub resolved : c.resolver w ≡ (ok span, before)
    pub correlated : correlate (active_context_ids span) event ≡ ok tt
    pub persisted : Bool
    pub evidence : W
    pub recorded : IsRecorded c.evidence_sink event before persisted evidence
    pub spans : Projected W
    pub span_run : IsSpanRun span (active_context_ids span) event evidence spans
    pub logs : Projected W
    pub log_run : IsLogRun c.log_emitter (active_context_ids span) event spans.2 logs
    pub metrics : Projected W
    pub metric_run : IsMetricRun c.metric_emitter event logs.2 metrics
    pub is_accepted : r.accepted ≡ true
    pub span_flag : r.span_event_emitted ≡ spans.0
    pub log_flag : r.log_emitted ≡ logs.0
    pub metric_flag : r.metrics_emitted ≡ metrics.0
    pub context : r.context ≡ active_context_ids span
    pub errors : r.projection_errors ≡ spans.1 ++ (logs.1 ++ metrics.1)
    pub evidence_flag : r.evidence_persisted ≡ persisted
    pub left : w' ≡ metrics.2

  emit-IsEmitted :
      (w : W) (r : EmitResult) (w' : W) → emit c event w ≡ (ok r, w') → IsEmitted w r w'
  unfolding emit project_all
  emit-IsEmitted w r w' e =
      let (_, w0, valid, e1) = |>-eq-ok (c.validate event, w) _ e in
      let (span, before, resolved, e2) = |>-eq-ok (c.resolver w0) _ e1 in
      let context = active_context_ids span in
      let (_, w1, correlated, e3) = |>-eq-ok (correlate context event, before) _ e2 in
      let (persisted, w2, recorded, e4) =
        |>-eq-ok (append_evidence c.evidence_sink event w1) _ e3 in
      let spans = project_span span context event w2 in
      let logs = project_log c.log_emitter context event spans.2 in
      let metrics = project_metric c.metric_emitter event logs.2 in
      let same : ok r ≡ ok (project_all c span context persisted event w2).0 =
        sym (ap (λ x. x.0) e4) in
      let result = ok-injective same in
      record {
        span = span;
        before = before;
        valid = ap (λ p. p.0) valid;
        resolved = ap (λ p. c.resolver p.1) valid ∙ resolved;
        correlated = ap (λ p. p.0) correlated;
        persisted = persisted;
        evidence = w2;
        recorded =
            append_evidence-IsRecorded c.evidence_sink event before persisted w2
              (ap (λ p. append_evidence c.evidence_sink event p.1) correlated ∙ recorded);
        spans = spans;
        span_run = project_span-IsSpanRun span context event w2;
        logs = logs;
        log_run = project_log-IsLogRun c.log_emitter context event spans.2;
        metrics = metrics;
        metric_run = project_metric-IsMetricRun c.metric_emitter event logs.2;
        is_accepted = ap (λ (x : EmitResult). x.accepted) result;
        span_flag = ap (λ (x : EmitResult). x.span_event_emitted) result;
        log_flag = ap (λ (x : EmitResult). x.log_emitted) result;
        metric_flag = ap (λ (x : EmitResult). x.metrics_emitted) result;
        context = ap (λ (x : EmitResult). x.context) result;
        errors = ap (λ (x : EmitResult). x.projection_errors) result;
        evidence_flag = ap (λ (x : EmitResult). x.evidence_persisted) result;
        left = sym (ap (λ x. x.1) e4);
      }

  same_result :
      (w : W) (r : EmitResult) (w' : W) (a : IsEmitted w r w')
      → project_all c a.span (active_context_ids a.span) a.persisted event a.evidence ≡ (r, w')
  unfolding project_all
  same_result w r w' a =
      rw
        (
          IsSpanRun-project_span a.span (active_context_ids a.span) event a.evidence a.spans
              a.span_run,
          IsLogRun-project_log c.log_emitter (active_context_ids a.span) event a.spans.2 a.logs
              a.log_run,
          IsMetricRun-project_metric c.metric_emitter event a.logs.2 a.metrics a.metric_run,
        )
        (λ i. (
          record {
            accepted = sym a.is_accepted i;
            span_event_emitted = sym a.span_flag i;
            log_emitted = sym a.log_flag i;
            context = sym a.context i;
            projection_errors = sym a.errors i;
            evidence_persisted = sym a.evidence_flag i;
            metrics_emitted = sym a.metric_flag i;
          },
          sym a.left i,
        ))

  IsEmitted-emit :
      (w : W) (r : EmitResult) (w' : W) → IsEmitted w r w' → emit c event w ≡ (ok r, w')
  unfolding emit
  IsEmitted-emit w r w' a =
      rw
        (
          a.valid,
          a.resolved,
          a.correlated,
          IsRecorded-append_evidence c.evidence_sink event a.before a.persisted a.evidence
              a.recorded,
        )
        (ap (λ (x, v). (ok x, v)) (same_result w r w' a))

  -- An emission returns exactly if the event is valid, a span resolves, the event agrees with its
  -- context and the sink, where there is one, is called with the event and returns. Then, each on
  -- the world that the one before left, the span gets its event, if a context is active, and the log
  -- emitter and the metric emitter are called, where there are any. One of these that raises, or
  -- whose arguments do, has its flag cleared and is reported, and the emission does not fail. The
  -- result has the context and what each of these steps left.
  pub emit_lem :
      (w : W) (r : EmitResult) (w' : W) → (emit c event w ≡ (ok r, w')) ↔ IsEmitted w r w'
  emit_lem w r w' = (emit-IsEmitted w r w', IsEmitted-emit w r w')

  -- How an emission fails: the event is refused before anything runs, or after the resolver, or the
  -- sink raises. No projection has then run.
  pub data IsRefused (w : W) (e : Exn) (w' : W) : Type 0 where
    invalid : c.validate event ≡ err e → w' ≡ w → IsRefused w e w'
    unresolved : c.resolver w ≡ (err e, w') → IsRefused w e w'
    mismatched :
        (span : Option (SpanLike W))
        → c.resolver w ≡ (ok span, w')
        → correlate (active_context_ids span) event ≡ err e
        → IsRefused w e w'
    unrecorded :
        (span : Option (SpanLike W)) (before : W)
        → c.resolver w ≡ (ok span, before)
        → append_evidence c.evidence_sink event before ≡ (err e, w')
        → IsRefused w e w'

  -- An emission that raises was refused by the validator, the resolver, the correlation with the
  -- active span or the evidence sink, and the world is the one that this step left.
  pub emit-IsRefused : (w : W) (e : Exn) (w' : W) → emit c event w ≡ (err e, w') → IsRefused w e w'
  unfolding emit
  emit-IsRefused w e w' h = elim (|>-eq-err (c.validate event, w) _ h) [
    | inl x ↦ invalid (ap (λ p. p.0) x) (sym (ap (λ p. p.1) x))
    | inr (_, w0, valid, h1) ↦
        let start = ap (λ p. c.resolver p.1) valid in
        elim (|>-eq-err (c.resolver w0) _ h1) [
          | inl x ↦ unresolved (start ∙ x)
          | inr (span, before, resolved, h2) ↦
              elim (|>-eq-err (correlate (active_context_ids span) event, before) _ h2) [
                | inl x ↦
                    mismatched span (start ∙ resolved ∙ ap (λ p. (ok span, p.1)) x)
                      (ap (λ p. p.0) x)
                | inr (_, w1, correlated, h3) ↦
                    elim (|>-eq-err (append_evidence c.evidence_sink event w1) _ h3) [
                      | inl x ↦
                          unrecorded span before (start ∙ resolved)
                            (ap (λ p. append_evidence c.evidence_sink event p.1) correlated ∙ x)
                      | inr (_, w2, recorded, h4) ↦ cc
                    ]
              ]
        ]
  ]

  -- An external call that was made with the arguments and returned.
  abbrev pub IsDelivered : {A : Type 0} → Result A → (A → W → Result (Unit {0}) × W) → Type 0
  IsDelivered {A} arguments export =
      (a : A) × (w1 : W) × (w2 : W) × (arguments ≡ ok a) × (export a w1 ≡ (ok tt, w2))

  -- the span of an active context got its event
  abbrev pub IsAdded : Option (SpanLike W) → Option ContextIds → Type 0
  IsAdded span context =
      (context ≡ none)
      ⊎ (s : SpanLike W) × (span ≡ some s) × IsDelivered (span_event event) (add_event_of s)

  -- the log emitter, if there is one, got the record of the event
  abbrev pub IsLogged : Option (Fields → W → Result (Unit {0}) × W) → Option ContextIds → Type 0
  IsLogged emitter context =
      (emitter ≡ none)
      ⊎ (export : Fields → W → Result (Unit {0}) × W) × (emitter ≡ some export)
        × IsDelivered (log_record event context) export
