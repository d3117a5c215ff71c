-- ===== src/Trace/Chain/Laws.antt =====
-- What a chain that verifies is made of, and how it grows.
use native.Mathlib.Nat.{add-zero}
use agentrust_telemetry.Base.{
  ℕ, ◌+◌, ◌≡◌, refl, ◌↔◌, ap, ◌∙◌, true, false, String, Option, none, some, List, [], ◌∷◌, ◌++◌,
  arith, length, ==_iff, eq_iff,
}
use agentrust_telemetry.Base.Outcome.{Result, ok, raise_if, ◌>>=◌, >>=-eq-ok, raise_if-eq-ok}
use agentrust_telemetry.Value.{Value, str}
use agentrust_telemetry.Value.Equality.{eq_value}
use agentrust_telemetry.Value.Access.{get}
use agentrust_telemetry.Evidence.{Hashing, EvidenceEntry, entry_digest}
use agentrust_telemetry.Trace.Chain.{
  eq_digest, chain_error, Recomputed, recompute, differs, verify_entry, verify_from,
}

pub eq_digest_iff : (a b : Option String) → (eq_digest a b ≡ true) ↔ (a ≡ b)
eq_digest_iff none none = (λ h. refl, λ e. refl)
eq_digest_iff (some a) (some b) = ground (arith, eq_iff a b)
eq_digest_iff none (some b) = ground arith
eq_digest_iff (some a) none = ground arith

-- What the loop establishes of the entry at a position.
pub record IsChecked (h : Hashing) (run_id : String) (n : ℕ) (p : Option String) (e : EvidenceEntry)
    (d : String) : Type 0 where
  pub position : e.sequence ≡ n
  pub previous : e.previous_digest ≡ p
  pub stored : e.digest ≡ d
  pub computed : entry_digest h n p e.event ≡ ok d
  pub id : Value
  pub id_found : get e.event "event_id" ≡ ok id
  pub id_equal : eq_value e.event_id id ≡ true
  pub run : Value
  pub run_found : get e.event "run_id" ≡ ok run
  pub run_equal : eq_value run (str run_id) ≡ true

chain_error-eq-ok {ℓ} : {A : Type ℓ} (r : Result A) {a : A} → chain_error r ≡ ok a → r ≡ ok a
unfolding chain_error
chain_error-eq-ok r h = ground arith

module _ (h : Hashing) (run_id : String) where
  differs_lem :
      (n : ℕ) (p : Option String) (e : EvidenceEntry) (r : Recomputed)
      → (differs run_id n p e r ≡ false)
        ↔ (e.sequence ≡ n)
          × (e.previous_digest ≡ p)
          × (e.digest ≡ r.digest)
          × (eq_value e.event_id r.event_id ≡ true)
          × (eq_value r.run_id (str run_id) ≡ true)
  unfolding differs
  differs_lem n p e r =
      ground
        (arith, ==_iff e.sequence n, eq_digest_iff e.previous_digest p, eq_iff e.digest r.digest)

  recompute-eq-ok :
      (n : ℕ) (p : Option String) (event : Value) (r : Recomputed)
      → recompute h n p event ≡ ok r
      → (entry_digest h n p event ≡ ok r.digest)
        × (get event "event_id" ≡ ok r.event_id)
        × (get event "run_id" ≡ ok r.run_id)
  unfolding recompute
  recompute-eq-ok n p event r e = ground arith

  pub verify_entry-eq-ok :
      (n : ℕ) (p : Option String) (e : EvidenceEntry) {d : String}
      → verify_entry h run_id n p e ≡ ok d
      → IsChecked h run_id n p e d
  unfolding verify_entry
  verify_entry-eq-ok n p e {d} eq =
      let (r, found, rest) = >>=-eq-ok (chain_error (recompute h n p e.event)) _ eq in
      let (_, guard, last) = >>=-eq-ok (raise_if (differs run_id n p e r) _) _ rest in
      let (position, previous, stored, id_equal, run_equal) =
        (differs_lem n p e r).0 (raise_if-eq-ok _ _ guard) in
      let (computed, id_found, run_found) =
        recompute-eq-ok n p e.event r (chain_error-eq-ok _ found) in
      let same : r.digest ≡ d = cc in
      record {
        position = position;
        previous = previous;
        stored = stored ∙ same;
        computed = computed ∙ ap ok same;
        id = r.event_id;
        id_found = id_found;
        id_equal = id_equal;
        run = r.run_id;
        run_found = run_found;
        run_equal = run_equal;
      }

  pub verify_entry_of_IsChecked :
      (n : ℕ) (p : Option String) (e : EvidenceEntry) {d : String}
      → IsChecked h run_id n p e d
      → verify_entry h run_id n p e ≡ ok d
  unfolding verify_entry recompute chain_error
  verify_entry_of_IsChecked n p e {d} c =
      rw (c.computed, c.id_found, c.run_found)
        (rw (
          (differs_lem n p e (record { digest = d; event_id = c.id; run_id = c.run })).1
            (c.position, c.previous, c.stored, c.id_equal, c.run_equal)))

  -- One more entry is one more step of the loop.
  pub verify_from-append :
      (n : ℕ) (p : Option String) (xs : List EvidenceEntry) (e : EvidenceEntry) {q : Option String}
      → verify_from h run_id n p xs ≡ ok q
      → verify_from h run_id n p (xs ++ e ∷ [])
        ≡ (verify_entry h run_id (n + length xs) q e >>= λ d. ok (some d))
  unfolding verify_from
  verify_from-append n p [] e {q} eq = let same : q ≡ p = cc in rw (add-zero, same)
  verify_from-append n p (x ∷ xs) e {q} eq =
      let (d, first, rest) = >>=-eq-ok (verify_entry h run_id n p x) _ eq in
      rw first (
        verify_from-append (n + 1) (some d) xs e rest
        ∙ ap (λ k. verify_entry h run_id k q e >>= λ d. ok (some d)) (omega arith))
