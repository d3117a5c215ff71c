-- ===== src/Adapters/Agt/Sink.antt =====
-- `AgtGovernanceEventSink.emit` of adapters/agt.py: when a batch is exported.
use mathlib.Core.Path.{subst}
use agentrust_telemetry.Base.{
  ◌≡◌, refl, sym, ap, ◌≢◌, ◌↔◌, Bool, true, false, not, List, [], ◌∷◌, if◌then◌else◌,
}
use agentrust_telemetry.Base.Outcome.{Exn, Result, ok, err, ◌|>◌, |>-eq-ok, ok-injective}
use agentrust_telemetry.Value.{Value}
use agentrust_telemetry.Client.{EmitResult, ProjectionError}
use agentrust_telemetry.Adapters.Agt.{
  AgtGovernanceEventSink, has_errors, normalize, emit_all, or_failure, sink_emit,
}

returned : {W R : Type 0} {r s : R} {w w' : W} → ◌≡◌ {A = Result R × W} (ok r, w) (ok s, w') → r ≡ s
returned e = ok-injective (ap (λ p. p.0) e)

returned_ok :
    {W R : Type 0} (success failure : R) (p : Result R × W) (w' : W)
    → success ≢ failure
    → or_failure failure p ≡ (success, w')
    → p ≡ (ok success, w')
unfolding or_failure
returned_ok success failure (ok r, w) w' apart e = ap (λ q. (ok q.0, q.1)) e
returned_ok success failure (err x, w) w' apart e = absurd (apart (sym (ap (λ q. q.0) e)))

-- the two guards of the loop, where it went on
judged :
    {A : Type 0} (a b : Bool) (x rest y : A)
    → x ≢ y
    → (if not a then x else if b then x else rest) ≡ y
    → (a ≡ true) × (b ≡ false) × (rest ≡ y)
judged true false x rest y apart e = (refl, refl, e)
judged true true x rest y apart e = absurd (apart e)
judged false b x rest y apart e = absurd (apart e)

no_errors : (es : List ProjectionError) → (elim es [ [] ↦ false | e ∷ es ↦ true ]) ≡ false → es ≡ []
no_errors [] e = refl
no_errors (x ∷ xs) e = cc

module _ {W S R : Type 0} (sink : AgtGovernanceEventSink W S R) where
  -- The client took every event, one after the other, and each without a projection error.
  pub data IsDelivered : List Value → W → W → Type 0 where
    none_left : (w : W) → IsDelivered [] w w
    next :
        (event : Value) {events : List Value} (w w1 : W) {w2 : W} (result : EmitResult)
        → sink.client event w ≡ (ok result, w1)
        → result.accepted ≡ true
        → result.projection_errors ≡ []
        → IsDelivered events w1 w2
        → IsDelivered (event ∷ events) w w2

  -- The mapper gave events for every source, before the client saw any of them.
  pub record IsExported (sources : List S) (w w' : W) : Type 0 where
    pub events : List Value
    pub between : W
    pub mapped : normalize sink.mapper sources w ≡ (ok events, between)
    pub delivered : IsDelivered events between w'

  emit_all-IsDelivered :
      sink.success ≢ sink.failure
      → (events : List Value) (w w' : W) → emit_all sink events w ≡ (ok sink.success, w')
      → IsDelivered events w w'
  unfolding emit_all
  emit_all-IsDelivered apart [] w w' e = subst (IsDelivered [] w) (ap (λ p. p.1) e) (none_left w)
  emit_all-IsDelivered apart (event ∷ events) w w' e =
      let (result, w1, emitted, e1) = |>-eq-ok (sink.client event w) _ e in
      let (accepted, clean, e2) =
        judged result.accepted (has_errors result) (ok sink.failure, w1) _ (ok sink.success, w')
          (λ same. apart (sym (returned same))) e1 in
      next event w w1 result emitted accepted (no_errors result.projection_errors clean)
        (emit_all-IsDelivered apart events w1 w' e2)

  IsDelivered-emit_all :
      {events : List Value} {w w' : W}
      → IsDelivered events w w'
      → emit_all sink events w ≡ (ok sink.success, w')
  unfolding emit_all
  IsDelivered-emit_all (none_left w) = refl
  IsDelivered-emit_all (next event w w1 result e accepted clean rest) =
      rw (e, accepted, clean) (IsDelivered-emit_all rest)

  -- Where success and failure are two results, a batch is reported as exported exactly if the mapper
  -- normalized all of it and the client then accepted every event in order without a projection
  -- error; the world is the one that the last emission left.
  pub sink_emit_lem :
      sink.success ≢ sink.failure
      → (sources : List S) (w w' : W)
      → (sink_emit sink sources w ≡ (sink.success, w')) ↔ IsExported sources w w'
  unfolding sink_emit or_failure
  sink_emit_lem apart sources w w' = (
    λ e.
        let inner =
          returned_ok sink.success sink.failure
            (normalize sink.mapper sources w |> λ events w1. emit_all sink events w1) w' apart e in
        let (events, between, mapped, e1) = |>-eq-ok (normalize sink.mapper sources w) _ inner in
        record {
          events = events;
          between = between;
          mapped = mapped;
          delivered = emit_all-IsDelivered apart events between w' e1;
        },
    λ x. rw (x.mapped, IsDelivered-emit_all x.delivered) refl,
  )

  -- A source that the mapper cannot map fails the whole batch before the client sees any event of
  -- it: the world is the mapper's.
  pub sink_emit-unmapped :
      (sources : List S) (w w' : W) (e : Exn)
      → normalize sink.mapper sources w ≡ (err e, w')
      → sink_emit sink sources w ≡ (sink.failure, w')
  unfolding sink_emit or_failure
  sink_emit-unmapped sources w w' e h = rw h refl
