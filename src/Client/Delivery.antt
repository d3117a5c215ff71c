-- ===== src/Client/Delivery.antt =====
-- The external calls of `TelemetryClient.emit`, described by what they are given and what they
-- leave, apart from the code that makes them.
use agentrust_telemetry.Base.{
  ◌≡◌, refl, sym, ap, ◌∙◌, Bool, true, false, Option, none, some, [], ◌∷◌, arith,
}
use agentrust_telemetry.Base.Integer.{ℤ}
use agentrust_telemetry.Base.Outcome.{Exn, Result, ok, err}
use agentrust_telemetry.Value.{Value, Fields}
use agentrust_telemetry.Client.{
  SpanLike, ContextIds, ProjectionError, Projected, span_projection_failed, log_projection_failed,
  metric_projection_failed, span_event, log_record, project_span, project_log, project_metric,
  append_evidence, emitted, call, caught,
}

module _ {W : Type 0} where
  -- The sink takes the event: there is none and nothing happens, or it is called with the event on
  -- this world and returns.
  pub data IsRecorded (sink : Option (Value → W → Result (Unit {0}) × W)) (event : Value) (w : W)
      (persisted : Bool) (w' : W) : Type 0 where
    no_sink : sink ≡ none → persisted ≡ false → w' ≡ w → IsRecorded sink event w persisted w'
    taken :
        (append : Value → W → Result (Unit {0}) × W)
        → sink ≡ some append
        → append event w ≡ (ok tt, w')
        → persisted ≡ true
        → IsRecorded sink event w persisted w'

  -- An exporter and its arguments: it is called with them and returns, they raise before the call,
  -- or the call raises. What it raises is reported under a label.
  pub data IsExported {A : Type 0} (label : Exn → ProjectionError) (arguments : Result A)
      (export : A → W → Result (Unit {0}) × W) (w : W) (p : Projected W) : Type 0 where
    delivered :
        (a : A) (w' : W)
        → arguments ≡ ok a
        → export a w ≡ (ok tt, w')
        → p ≡ (true, [], w')
        → IsExported label arguments export w p
    unmade :
        (e : Exn)
        → arguments ≡ err e
        → p ≡ (false, label e ∷ [], w)
        → IsExported label arguments export w p
    raised :
        (a : A) (e : Exn) (w' : W)
        → arguments ≡ ok a
        → export a w ≡ (err e, w')
        → p ≡ (false, label e ∷ [], w')
        → IsExported label arguments export w p

  -- The metric emitter is called with the event; what it returns is the flag.
  pub data IsMeasured (measure : Value → W → Result Bool × W) (event : Value) (w : W)
      (p : Projected W) : Type 0 where
    measured :
        (flag : Bool) (w' : W)
        → measure event w ≡ (ok flag, w')
        → p ≡ (flag, [], w')
        → IsMeasured measure event w p
    unmeasured :
        (e : Exn) (w' : W)
        → measure event w ≡ (err e, w')
        → p ≡ (false, metric_projection_failed e ∷ [], w')
        → IsMeasured measure event w p

  abbrev pub add_event_of : SpanLike W → Value × Fields × ℤ → W → Result (Unit {0}) × W
  add_event_of span (name, attributes, timestamp) = span.add_event name attributes timestamp

  -- The span gets its event exactly if there is a span and an active context.
  abbrev pub IsSpanRun : Option (SpanLike W) → Option ContextIds → Value → W → Projected W → Type 0
  IsSpanRun (some span) (some ids) event w p =
      IsExported span_projection_failed (span_event event) (add_event_of span) w p
  IsSpanRun _ _ event w p = p ≡ (false, [], w)

  abbrev pub IsLogRun :
      Option (Fields → W → Result (Unit {0}) × W)
      → Option ContextIds
      → Value
      → W
      → Projected W
      → Type 0
  IsLogRun none context event w p = p ≡ (false, [], w)
  IsLogRun (some export) context event w p =
      IsExported log_projection_failed (log_record event context) export w p

  abbrev pub IsMetricRun : Option (Value → W → Result Bool × W) → Value → W → Projected W → Type 0
  IsMetricRun none event w p = p ≡ (false, [], w)
  IsMetricRun (some measure) event w p = IsMeasured measure event w p

  of_call :
      {A : Type 0} (label : Exn → ProjectionError) (arguments : Result A)
      (export : A → W → Result (Unit {0}) × W) (w : W) (q : Result (Unit {0}) × W)
      → call arguments export w ≡ q
      → IsExported label arguments export w (caught label (emitted q))
  unfolding caught
  of_call label (err e) export w (ok _, v) h = cc
  of_call label (err e) export w (err x, v) h =
      unmade e refl (ap (λ (q : Result (Unit {0}) × W). caught label (emitted q)) (sym h))
  of_call label (ok a) export w (ok _, v) h = delivered a v refl h refl
  of_call label (ok a) export w (err x, v) h = raised a x v refl h refl

  of_export :
      {A : Type 0} (label : Exn → ProjectionError) (arguments : Result A)
      (export : A → W → Result (Unit {0}) × W) (w : W) (p : Projected W)
      → IsExported label arguments export w p
      → caught label (emitted (call arguments export w)) ≡ p
  unfolding caught
  of_export label arguments export w p (delivered a w' made called left) =
      rw (made, called) (sym left)
  of_export label arguments export w p (unmade e made left) = rw made (sym left)
  of_export label arguments export w p (raised a e w' made called left) =
      rw (made, called) (sym left)

  pub project_span-IsSpanRun :
      (span : Option (SpanLike W)) (context : Option ContextIds) (event : Value) (w : W)
      → IsSpanRun span context event w (project_span span context event w)
  unfolding project_span
  project_span-IsSpanRun (some span) (some ids) event w =
      of_call span_projection_failed (span_event event) (add_event_of span) w _ refl
  project_span-IsSpanRun (some span) none event w = refl
  project_span-IsSpanRun none context event w = refl

  pub IsSpanRun-project_span :
      (span : Option (SpanLike W)) (context : Option ContextIds) (event : Value) (w : W)
      (p : Projected W)
      → IsSpanRun span context event w p
      → project_span span context event w ≡ p
  unfolding project_span
  IsSpanRun-project_span (some span) (some ids) event w p r =
      of_export span_projection_failed (span_event event) (add_event_of span) w p r
  IsSpanRun-project_span (some span) none event w p r = sym r
  IsSpanRun-project_span none context event w p r = sym r

  pub project_log-IsLogRun :
      (emitter : Option (Fields → W → Result (Unit {0}) × W)) (context : Option ContextIds)
      (event : Value) (w : W)
      → IsLogRun emitter context event w (project_log emitter context event w)
  unfolding project_log
  project_log-IsLogRun none context event w = refl
  project_log-IsLogRun (some export) context event w =
      of_call log_projection_failed (log_record event context) export w _ refl

  pub IsLogRun-project_log :
      (emitter : Option (Fields → W → Result (Unit {0}) × W)) (context : Option ContextIds)
      (event : Value) (w : W) (p : Projected W)
      → IsLogRun emitter context event w p
      → project_log emitter context event w ≡ p
  unfolding project_log
  IsLogRun-project_log none context event w p r = sym r
  IsLogRun-project_log (some export) context event w p r =
      of_export log_projection_failed (log_record event context) export w p r

  of_measurement :
      (measure : Value → W → Result Bool × W) (event : Value) (w : W) (q : Result Bool × W)
      → measure event w ≡ q
      → IsMeasured measure event w (caught metric_projection_failed q)
  unfolding caught
  of_measurement measure event w (ok flag, v) h = measured flag v h refl
  of_measurement measure event w (err e, v) h = unmeasured e v h refl

  pub project_metric-IsMetricRun :
      (emitter : Option (Value → W → Result Bool × W)) (event : Value) (w : W)
      → IsMetricRun emitter event w (project_metric emitter event w)
  unfolding project_metric
  project_metric-IsMetricRun none event w = refl
  project_metric-IsMetricRun (some measure) event w = of_measurement measure event w _ refl

  of_measure :
      (measure : Value → W → Result Bool × W) (event : Value) (w : W) (p : Projected W)
      → IsMeasured measure event w p
      → caught metric_projection_failed (measure event w) ≡ p
  unfolding caught
  of_measure measure event w p (measured flag w' called left) = rw called (sym left)
  of_measure measure event w p (unmeasured e w' called left) = rw called (sym left)

  pub IsMetricRun-project_metric :
      (emitter : Option (Value → W → Result Bool × W)) (event : Value) (w : W) (p : Projected W)
      → IsMetricRun emitter event w p
      → project_metric emitter event w ≡ p
  unfolding project_metric
  IsMetricRun-project_metric none event w p r = sym r
  IsMetricRun-project_metric (some measure) event w p r = of_measure measure event w p r

  of_append :
      (append : Value → W → Result (Unit {0}) × W) (event : Value) (w : W)
      (q : Result (Unit {0}) × W) (persisted : Bool) (w' : W)
      → append event w ≡ q
      → emitted q ≡ (ok persisted, w')
      → IsRecorded (some append) event w persisted w'
  of_append append event w (ok _, v) persisted w' called h =
      taken append refl (called ∙ ap (λ x. (ok tt, x)) (ap (λ x. x.1) h)) (ground arith)
  of_append append event w (err e, v) persisted w' called h = cc

  pub append_evidence-IsRecorded :
      (sink : Option (Value → W → Result (Unit {0}) × W)) (event : Value) (w : W) (persisted : Bool)
      (w' : W)
      → append_evidence sink event w ≡ (ok persisted, w')
      → IsRecorded sink event w persisted w'
  unfolding append_evidence
  append_evidence-IsRecorded none event w persisted w' h =
      no_sink refl (ground arith) (sym (ap (λ x. x.1) h))
  append_evidence-IsRecorded (some append) event w persisted w' h =
      of_append append event w _ persisted w' refl h

  pub IsRecorded-append_evidence :
      (sink : Option (Value → W → Result (Unit {0}) × W)) (event : Value) (w : W) (persisted : Bool)
      (w' : W)
      → IsRecorded sink event w persisted w'
      → append_evidence sink event w ≡ (ok persisted, w')
  unfolding append_evidence
  IsRecorded-append_evidence sink event w persisted w' (no_sink absent flag same) =
      rw (absent, flag, same) refl
  IsRecorded-append_evidence sink event w persisted w' (taken append there called flag) =
      rw (there, called, flag) refl
