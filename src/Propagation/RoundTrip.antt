-- ===== src/Propagation/RoundTrip.antt =====
-- `inject_context` and `extract_context` of propagation.py, one after the other.
use agentrust_telemetry.Base.{◌≡◌, refl, sym, ap, ◌∙◌, String, some, [], ◌∷◌, arith}
use agentrust_telemetry.Base.Outcome.{ok, |>-eq-ok, >>=-eq-ok, ok-injective}
use agentrust_telemetry.Value.{Value, str, Fields, lookup, assign, record_of, field, text, end}
use agentrust_telemetry.Value.Access.{or_null}
use agentrust_telemetry.Value.Lookup.{lookup-assign, lookup-assign_other}
use agentrust_telemetry.Propagation.{
  safe_text, safe_value, Propagator, set_header, set_workflow, header, header_from, checked,
  ExtractedContext, event_fields, put, inject_context, extract_context, run_id_header,
  workflow_id_header, upstream_agent_id_header,
}

set_header-eq-ok :
    (name : String) (value : Value) (carrier : Fields) {c : Fields}
    → set_header name value carrier ≡ (ok tt, c)
    → (s : String) × (safe_value value ≡ ok s) × (c ≡ assign name (str s) carrier)
unfolding set_header
set_header-eq-ok name value carrier e =
    let (s, same, safe, set) = |>-eq-ok (safe_value value, carrier) _ e in
    (
      s,
      ap (λ p. p.0) safe,
      sym (ap (λ p. p.1) set) ∙ ap (assign name (str s)) (sym (ap (λ p. p.1) safe)),
    )

safe_text-eq-ok : (s : String) {t : String} → safe_text s ≡ ok t → (t ≡ s) × (safe_text t ≡ ok t)
unfolding safe_text
safe_text-eq-ok s e = ground arith

safe_value-eq-ok :
    (v : Value) {s : String} → safe_value v ≡ ok s → (v ≡ str s) × (safe_value (str s) ≡ ok s)
unfolding safe_value
safe_value-eq-ok (str t) e = let (same, safe) = safe_text-eq-ok t e in (ap str (sym same), safe)
safe_value-eq-ok v e = cc

header-found :
    (carrier : Fields) (name s : String)
    → lookup name carrier ≡ some (str s)
    → safe_value (str s) ≡ ok s
    → header carrier name ≡ ok (some s)
unfolding header checked
header-found carrier name s h safe =
    ap (λ o. header_from name carrier (or_null o)) h ∙ (unfold header_from in rw safe refl)

injected : String → String → String → Fields → Fields
injected run agent workflow base =
    assign workflow_id_header (str workflow)
      (assign upstream_agent_id_header (str agent) (assign run_id_header (str run) base))

extract_context-injected :
    {C : Type 0} (p : Propagator C) (run agent workflow : String) (base c : Fields)
    → c ≡ injected run agent workflow base
    → safe_value (str run) ≡ ok run
    → safe_value (str agent) ≡ ok agent
    → safe_value (str workflow) ≡ ok workflow
    → extract_context p c
      ≡ ok (record {
        otel_context = p.extract c;
        run_id = some run;
        workflow_id = some workflow;
        upstream_agent_id = some agent;
      })
unfolding extract_context injected
extract_context-injected p run agent workflow base c e r a w =
    let run_there =
      ap (lookup run_id_header) e
      ∙ lookup-assign_other run_id_header workflow_id_header (str workflow) _ refl
      ∙ lookup-assign_other run_id_header upstream_agent_id_header (str agent) _ refl
      ∙ lookup-assign run_id_header (str run) base in
    let agent_there =
      ap (lookup upstream_agent_id_header) e
      ∙ lookup-assign_other upstream_agent_id_header workflow_id_header (str workflow) _ refl
      ∙ lookup-assign upstream_agent_id_header (str agent) _ in
    let workflow_there =
      ap (lookup workflow_id_header) e ∙ lookup-assign workflow_id_header (str workflow) _ in
    rw
      (
        header-found c run_id_header run run_there r,
        header-found c workflow_id_header workflow workflow_there w,
        header-found c upstream_agent_id_header agent agent_there a,
      )
      refl

-- After an injection that succeeds, an extraction from the same carrier gives the run, the workflow
-- and the agent that were injected, whatever headers the carrier held before.
pub extract_context-inject_context :
    {C : Type 0} (p : Propagator C) (run_id agent_id workflow_id : Value) (carrier : Fields)
    {c : Fields}
    → inject_context p run_id agent_id (some workflow_id) carrier ≡ (ok tt, c)
    → (run : String) × (agent : String) × (workflow : String) × (run_id ≡ str run)
      × (agent_id ≡ str agent)
      × (workflow_id ≡ str workflow)
      × (extract_context p c
          ≡ ok (record {
            otel_context = p.extract c;
            run_id = some run;
            workflow_id = some workflow;
            upstream_agent_id = some agent;
          }))
unfolding inject_context set_workflow
extract_context-inject_context p run_id agent_id workflow_id carrier {c} e =
    let (_, c1, first, e1) = |>-eq-ok (set_header run_id_header run_id (p.inject carrier)) _ e in
    let (_, c2, second, third) = |>-eq-ok (set_header upstream_agent_id_header agent_id c1) _ e1 in
    let (run, run_safe, to1) = set_header-eq-ok run_id_header run_id (p.inject carrier) first in
    let (agent, agent_safe, to2) = set_header-eq-ok upstream_agent_id_header agent_id c1 second in
    let (workflow, workflow_safe, to3) = set_header-eq-ok workflow_id_header workflow_id c2 third in
    let (run_text, run_ok) = safe_value-eq-ok run_id run_safe in
    let (agent_text, agent_ok) = safe_value-eq-ok agent_id agent_safe in
    let (workflow_text, workflow_ok) = safe_value-eq-ok workflow_id workflow_safe in
    let whole =
      to3
      ∙ ap (assign workflow_id_header (str workflow))
          (to2 ∙ ap (assign upstream_agent_id_header (str agent)) to1) in
    (
      run,
      agent,
      workflow,
      run_text,
      agent_text,
      workflow_text,
      extract_context-injected p run agent workflow (p.inject carrier) c
          (whole ∙ (unfold injected in refl)) run_ok agent_ok workflow_ok,
    )

same_fields :
    (a b c d a' b' c' d' : String)
    → str a' ≡ str a
    → str b' ≡ str b
    → str c' ≡ str c
    → str d' ≡ str d
    → record_of (
        ("agent_id", str a)
        ∷ ("run_id", str b)
        ∷ ("workflow_id", str c)
        ∷ ("parent_agent_id", str d)
        ∷ [])
      ≡ record_of (
          ("agent_id", str a')
          ∷ ("run_id", str b')
          ∷ ("workflow_id", str c')
          ∷ ("parent_agent_id", str d')
          ∷ [])
same_fields a b c d a' b' c' d' p q r t = cc

-- The envelope of work that was handed over names the run and the workflow that were injected, the
-- injecting agent as the parent and the receiving agent as its own.
pub handoff_lem :
    {C : Type 0} (p : Propagator C) (run agent workflow receiver : String) (carrier : Fields)
    {c : Fields} {x : ExtractedContext C} {fs : Fields}
    → inject_context p (str run) (str agent) (some (str workflow)) carrier ≡ (ok tt, c)
    → extract_context p c ≡ ok x
    → event_fields x (str receiver) ≡ ok fs
    → fs
      ≡ record_of (
          ("agent_id", str receiver)
          ∷ ("run_id", str run)
          ∷ ("workflow_id", str workflow)
          ∷ ("parent_agent_id", str agent)
          ∷ [])
unfolding event_fields put assign
handoff_lem {C} p run agent workflow receiver carrier {c} {x} {fs} sent got made =
    let (run', agent', workflow', same_run, same_agent, same_workflow, whole) =
      extract_context-inject_context p (str run) (str agent) (str workflow) carrier sent in
    let (own, safe, e1) = >>=-eq-ok (safe_value (str receiver)) _ made in
    let (own_text, _) = safe_value-eq-ok (str receiver) safe in
    let same : x ≡ record {
      otel_context = p.extract c;
      run_id = some run';
      workflow_id = some workflow';
      upstream_agent_id = some agent';
    } =
      ok-injective (sym got ∙ whole) in
    sym (ok-injective e1)
    ∙ ap
        (λ (y : ExtractedContext C). put "parent_agent_id" y.upstream_agent_id (
          put "workflow_id" y.workflow_id
            (put "run_id" y.run_id (field (text "agent_id") (str own) end))))
        same
    ∙ same_fields own run' workflow' agent' receiver run workflow agent own_text same_run
        same_workflow same_agent
