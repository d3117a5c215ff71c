-- ===== src/Trace/Finalize/Laws.antt =====
-- `finalize_trace` of trace_adapter.py: what stands behind a returned record.
use mathlib.Core.Path.{subst}
use agentrust_telemetry.Base.{
  ◌+◌, ◌≡◌, sym, ◌⊎◌, inl, inr, Bool, true, false, String, Option, some, List, [], ◌∷◌, All, Some,
  arith, All-map, Some-map,
}
use agentrust_telemetry.Base.Integer.{
  ℤ, pos, negsuc, ◌≤ℤ◌, ◌+ℤ◌, scale, pos_part, neg_part, max_ℤ, max_ℤ_bounds,
}
use agentrust_telemetry.Base.Outcome.{
  Result, ok, ok-injective, err, >>=-eq-ok, traverse, trace_finalization_error,
}
use agentrust_telemetry.Value.{Value}
use agentrust_telemetry.Evidence.{Hashing, EvidenceSnapshot, Completeness, complete}
use agentrust_telemetry.Trace.Events.Laws.{traverse-All, traverse-Some}
use agentrust_telemetry.Trace.Chain.{verify_chain}
use agentrust_telemetry.Trace.Finalize.{
  TraceConfiguration, TracePackage, is_complete, require_finalizable, event_time, latest, maximum,
  seconds_of, issue_time, Findings, examine, malformed, trace_record, signing_failed,
  sign_and_verify, trace_package, finalize_trace,
}
use agentrust_telemetry.Trace.Appraisal.{is_empty}

-- What stands behind a record that is returned.
pub record IsFinalized (h : Hashing) (display : Value → String) (tracer : TracePackage)
    (s : EvidenceSnapshot) (config : TraceConfiguration) (signed : Value) : Type 0 where
  pub sealed : s.sealed ≡ true
  pub completeness : s.completeness ≡ complete
  pub nonempty : is_empty s.entries ≡ false
  pub keyed : tracer.has_key ≡ true
  pub chained : verify_chain h s ≡ ok tt
  pub findings : Findings
  pub examined : examine h display s config ≡ ok findings
  pub signed_record : tracer.sign_record (trace_record tracer s config findings) ≡ ok signed
  pub validated : tracer.model_validate signed ≡ ok tt
  pub verified : tracer.verify_record signed ≡ ok tt

is_complete-eq-true : (c : Completeness) → is_complete c ≡ true → c ≡ complete
is_complete-eq-true c h = ground arith

required :
    (tracer : TracePackage) (s : EvidenceSnapshot) (config : TraceConfiguration)
    → require_finalizable tracer s config ≡ ok tt
    → (s.sealed ≡ true)
      × (is_complete s.completeness ≡ true)
      × (is_empty s.entries ≡ false)
      × (tracer.has_key ≡ true)
unfolding require_finalizable
required tracer s config h = ground arith

malformed-eq-ok {ℓ} : {A : Type ℓ} (r : Result A) {a : A} → malformed r ≡ ok a → r ≡ ok a
unfolding malformed
malformed-eq-ok r h = ground arith

signing_failed-eq-ok {ℓ} : {A : Type ℓ} (r : Result A) {a : A} → signing_failed r ≡ ok a → r ≡ ok a
unfolding signing_failed
signing_failed-eq-ok r h = ground arith

signed_and_verified :
    (tracer : TracePackage) (unsigned : Value) {signed : Value}
    → sign_and_verify tracer unsigned ≡ ok signed
    → (tracer.sign_record unsigned ≡ ok signed)
      × (tracer.model_validate signed ≡ ok tt)
      × (tracer.verify_record signed ≡ ok tt)
unfolding sign_and_verify
signed_and_verified tracer unsigned h = ground arith

-- A record is returned only for a sealed, complete, non-empty snapshot whose chain verifies, with
-- a key; it is what the package signed of the record that the findings make, and the package
-- validated and verified it.
pub finalize_trace-IsFinalized :
    (h : Hashing) (display : Value → String) (tracer : TracePackage) (s : EvidenceSnapshot)
    (config : TraceConfiguration) {signed : Value}
    → finalize_trace h display (some tracer) s config ≡ ok signed
    → IsFinalized h display tracer s config signed
unfolding finalize_trace trace_package
finalize_trace-IsFinalized h display tracer s config eq =
    let (_, ready, e1) = >>=-eq-ok (require_finalizable tracer s config) _ eq in
    let (_, chained, e2) = >>=-eq-ok (verify_chain h s) _ e1 in
    let (f, examined, e3) = >>=-eq-ok (malformed (examine h display s config)) _ e2 in
    let (sealed, complete_run, nonempty, keyed) = required tracer s config ready in
    let (signed_ok, valid, verified) = signed_and_verified tracer _ (signing_failed-eq-ok _ e3) in
    record {
      sealed = sealed;
      completeness = is_complete-eq-true s.completeness complete_run;
      nonempty = nonempty;
      keyed = keyed;
      chained = chained;
      findings = f;
      examined = malformed-eq-ok _ examined;
      signed_record = signed_ok;
      validated = valid;
      verified = verified;
    }

abbrev pub is_refused : Result Value → Bool
is_refused (err (trace_finalization_error m)) = true
is_refused _ = false

-- For a snapshot that is open, incomplete or empty, finalization raises `TraceFinalizationError`,
-- whether the package is installed or not, and whatever it would do.
pub finalize_trace_refuses :
    (h : Hashing) (display : Value → String) (installed : Option TracePackage)
    (s : EvidenceSnapshot) (config : TraceConfiguration)
    → (s.sealed ≡ false) ⊎ (is_complete s.completeness ≡ false) ⊎ (s.entries ≡ [])
    → is_refused (finalize_trace h display installed s config) ≡ true
unfolding finalize_trace trace_package require_finalizable
finalize_trace_refuses h display installed s config bad = ground arith

latest-le : (t : ℤ) (us : List ℤ) (m : ℤ) → latest t us ≡ m → (t ≤ℤ m) × All (λ u. u ≤ℤ m) us
unfolding latest
latest-le t [] m e = (rw e (omega arith), tt)
latest-le t (u ∷ us) m e =
    let (le, rest) = latest-le (max_ℤ t u) us m e in
    (omega (arith, max_ℤ_bounds t u), (omega (arith, max_ℤ_bounds t u), rest))

max_ℤ-cases : (t u m : ℤ) → max_ℤ t u ≡ m → (t ≡ m) ⊎ (u ≡ m)
unfolding max_ℤ
max_ℤ-cases t u m e = ground arith

latest-Some : (t : ℤ) (us : List ℤ) (m : ℤ) → latest t us ≡ m → (t ≡ m) ⊎ Some (λ u. u ≡ m) us
unfolding latest
latest-Some t [] m e = inl e
latest-Some t (u ∷ us) m e = elim (latest-Some (max_ℤ t u) us m e) [
  | inr s ↦ inr (inr s)
  | inl same ↦ elim (max_ℤ-cases t u m same) [ inl old ↦ inl old | inr new ↦ inr (inl new) ]
]

maximum-eq-ok :
    (ts : List ℤ) {m : ℤ} → maximum ts ≡ ok m → All (λ t. t ≤ℤ m) ts × Some (λ t. t ≡ m) ts
unfolding maximum
maximum-eq-ok [] e = cc
maximum-eq-ok (t ∷ ts) {m} e =
    (latest-le t ts m (ok-injective e), latest-Some t ts m (ok-injective e))

-- Where a number of nanoseconds stands: in the given second or before, and not before it.
abbrev pub IsBySecond : ℤ → ℤ → Type 0
IsBySecond s t = t +ℤ pos 1 ≤ℤ scale (s +ℤ pos 1) 1000000000

abbrev pub IsFromSecond : ℤ → ℤ → Type 0
IsFromSecond s t = scale s 1000000000 ≤ℤ t

plus_one : (t : ℤ) → pos_part (t +ℤ pos 1) + neg_part t ≡ neg_part (t +ℤ pos 1) + pos_part t + 1
unfolding ◌+ℤ◌
plus_one t = ground arith

seconds_of-bounds : (t : ℤ) → IsBySecond (seconds_of t) t × IsFromSecond (seconds_of t) t
unfolding seconds_of ◌+ℤ◌
seconds_of-bounds (pos n) = (ground arith, ground arith)
seconds_of-bounds (negsuc n) = (ground arith, ground arith)

by_second : (t m s : ℤ) → t ≤ℤ m → IsBySecond s m → IsBySecond s t
unfolding ◌+ℤ◌
by_second t m s le h = omega (arith, plus_one t, plus_one m)

-- The record is issued in the whole second in which the latest event of the run happened: no event
-- happened after the end of that second, and some event happened no earlier than its start.
pub issue_time_lem :
    (events : List Value) {issued : ℤ}
    → issue_time events ≡ ok issued
    → All (λ e. (t : ℤ) × (event_time e ≡ ok t) × IsBySecond issued t) events
      × Some (λ e. (t : ℤ) × (event_time e ≡ ok t) × IsFromSecond issued t) events
unfolding issue_time
issue_time_lem events {issued} eq =
    let (times, read, e1) = >>=-eq-ok (traverse event_time events) _ eq in
    let (m, latest_time, e2) = >>=-eq-ok (maximum times) _ e1 in
    let (each, there) = maximum-eq-ok times latest_time in
    let (by, from) =
      subst (λ s. IsBySecond s m × IsFromSecond s m) (ok-injective e2) (seconds_of-bounds m) in
    (
      All-map (λ e (t, found, le). (t, found, by_second t m issued le by)) events
          (traverse-All (λ t. t ≤ℤ m) event_time events read each),
      Some-map (λ e (t, found, same). (t, found, subst (IsFromSecond issued) (sym same) from))
          events (traverse-Some (λ t. t ≡ m) event_time events read there),
    )
