-- ===== src/Evidence/Accumulator/Invariant.antt =====
-- The invariant of an accumulator: its entries form a chain that `_verify_chain` accepts, its set
-- of ids is that of its entries and holds no id twice, and it keeps within `max_events`.
use native.Mathlib.Nat.{zero-add}
use mathlib.Core.Option
use mathlib.Core.Path.{subst}
use mathlib.Core.List.{map-append}
use agentrust_telemetry.Base.{
  ℕ, ◌≤◌, ◌≡◌, refl, sym, ap, inl, inr, ◌∙◌, Bool, true, false, String, Option, none, List, [], ◌∷◌,
  ◌++◌, map, arith, length, length-append, any, last?, last?-append, eq_iff,
}
use agentrust_telemetry.Base.Integer.{ℤ}
use agentrust_telemetry.Base.Outcome.{Result, Result-cases, ok, >>=-eq-ok}
use agentrust_telemetry.Value.{Value, str}
use agentrust_telemetry.Value.Access.{get_item, get-get_item}
use agentrust_telemetry.Value.Equality.{eq_value}
use agentrust_telemetry.Evidence.{Hashing, EvidenceEntry}
use agentrust_telemetry.Evidence.Accumulator.{
  EvidenceAccumulator, new, DurableAppend, admit, commit, release, append, snapshot_now, snapshot,
}
use agentrust_telemetry.Evidence.Accumulator.Append.{
  IsNext, chain_entry-eq-ok, append-eq-ok, append-eq-err,
}
use agentrust_telemetry.Trace.Chain.{eq_digest, verify_from, verify_chain}
use agentrust_telemetry.Trace.Chain.Laws.{
  eq_digest_iff, IsChecked, verify_entry_of_IsChecked, verify_from-append,
}

-- No id equals an earlier one.
abbrev pub Distinct : List Value → Type 0
Distinct [] = Unit
Distinct (x ∷ xs) = (any (λ y. eq_value y x) xs ≡ false) × Distinct xs

abbrev pub digest_of : EvidenceEntry → String
digest_of e = e.digest

pub record IsValid (h : Hashing) (acc : EvidenceAccumulator) : Type 0 where
  pub chained :
      verify_from h acc.run_id 0 none acc.entries ≡ ok (Option.map digest_of (last? acc.entries))
  pub ids : acc.event_ids ≡ map (λ (e : EvidenceEntry). e.event_id) acc.entries
  pub distinct : Distinct acc.event_ids
  pub bounded : length acc.entries ≤ acc.max_events

-- The schemas ask for an `event_id` that is a string.
abbrev pub NamesEvents : (Value → Result (Unit {0})) → Type 0
NamesEvents validate =
    (event : Value)
    → validate event ≡ ok tt
    → (id : String) × (get_item event "event_id" ≡ ok (str id))

any-append :
    (p : Value → Bool) (xs : List Value) (y : Value)
    → any p xs ≡ false
    → p y ≡ false
    → any p (xs ++ y ∷ []) ≡ false
any-append p [] y h k = ground arith
any-append p (x ∷ xs) y h k = ground (arith, any-append p xs y)

Distinct-append :
    (xs : List Value) (y : Value)
    → Distinct xs
    → any (eq_value y) xs ≡ false
    → Distinct (xs ++ y ∷ [])
Distinct-append [] y d h = (refl, tt)
Distinct-append (x ∷ xs) y (d, ds) h =
    (any-append (λ z. eq_value z x) xs y d (ground arith), Distinct-append xs y ds (ground arith))

IsValid-release :
    (h : Hashing) (a b : EvidenceAccumulator) → release a ≡ release b → IsValid h b → IsValid h a
IsValid-release h a b e v =
    let w =
      subst (IsValid h) (sym e)
        (record { chained = v.chained; ids = v.ids; distinct = v.distinct; bounded = v.bounded }) in
    record { chained = w.chained; ids = w.ids; distinct = w.distinct; bounded = w.bounded }

module _ (h : Hashing) (validate : Value → Result (Unit {0})) where
  pub admit-eq-ok :
      (thread : ℕ) (event : Value) (acc : EvidenceAccumulator)
      → admit validate thread event acc ≡ ok tt
      → (validate event ≡ ok tt)
        × (run : Value) × (get_item event "run_id" ≡ ok run)
        × (eq_value run (str acc.run_id) ≡ true)
  unfolding admit
  admit-eq-ok thread event acc eq =
      let (_, valid, e1) = >>=-eq-ok (validate event) _ eq in
      let (run, found, e2) = >>=-eq-ok (get_item event "run_id") _ e1 in
      (valid, run, found, ground arith)

  IsChecked-next :
      NamesEvents validate
      → (thread : ℕ) (event : Value) (acc : EvidenceAccumulator) (entry : EvidenceEntry)
      → admit validate thread event acc ≡ ok tt
      → IsNext h event acc entry
      → IsChecked h acc.run_id
          (length acc.entries)
          (Option.map digest_of (last? acc.entries))
          entry
          entry.digest
  unfolding eq_value
  IsChecked-next names thread event acc entry admitted next =
      let (valid, run, found, same) = admit-eq-ok thread event acc admitted in
      let (id, named) = names event valid in
      let is_id : entry.event_id ≡ str id = cc (next.id_found, named) in
      record {
        position = next.placed;
        previous = next.linked;
        stored = refl;
        computed = rw (next.of_event, ← next.linked) next.hashed;
        id = str id;
        id_found = rw next.of_event (get-get_item event "event_id" named);
        id_equal = rw is_id ((eq_iff id id).1 refl);
        run = run;
        run_found = rw next.of_event (get-get_item event "run_id" found);
        run_equal = same;
      }

  IsValid-commit :
      NamesEvents validate
      → (thread : ℕ) (event : Value) (acc : EvidenceAccumulator) (entry : EvidenceEntry)
      → IsValid h acc
      → admit validate thread event acc ≡ ok tt
      → IsNext h event acc entry
      → IsValid h (release (commit entry acc))
  unfolding commit
  IsValid-commit names thread event acc entry v admitted next = record {
    chained =
        verify_from-append h acc.run_id 0 none acc.entries entry v.chained
        ∙ rw
            (
              zero-add,
              verify_entry_of_IsChecked h acc.run_id (length acc.entries) _ entry
                  (IsChecked-next names thread event acc entry admitted next),
            )
            (ap (λ e. ok (Option.map digest_of e)) (sym (last?-append acc.entries entry)));
    ids = rw (v.ids, map-append);
    distinct = Distinct-append acc.event_ids entry.event_id v.distinct next.fresh;
    bounded = rw length-append (let room = next.room in ground arith);
  }

  -- Every call of `append`, whatever it returns and whatever the callback does, keeps the
  -- invariant. The condition is that a valid event has a string for its id.
  pub append-IsValid :
      {W : Type 0} (durable : Option (DurableAppend W)) (thread : ℕ) (event : Value)
      (acc : EvidenceAccumulator) (w : W)
      → NamesEvents validate
      → IsValid h acc
      → IsValid h (append h validate durable thread event acc w).1
  append-IsValid durable thread event acc w names v =
      let r = append h validate durable thread event acc w in
      elim (Result-cases r.0) [
        | inl (entry, returned) ↦
            let (admitted, made, _, committed) =
              append-eq-ok h validate durable thread event acc w (λ i. (returned i, r.1, r.2)) in
            rw committed (
              IsValid-commit names thread event acc entry v admitted
                (chain_entry-eq-ok h event acc made))
        | inr (e, raised) ↦
            IsValid-release h _ acc
              (append-eq-err h validate durable thread event acc w (λ i. (raised i, r.1, r.2))) v
      ]

new-eq-ok :
    (run : Value) (max_events : ℤ) {acc : EvidenceAccumulator}
    → new run max_events ≡ ok acc
    → (acc.entries ≡ []) × (acc.event_ids ≡ [])
unfolding new
new-eq-ok run max_events eq = ground arith

pub snapshot_lem : (thread : ℕ) (acc : EvidenceAccumulator) → snapshot thread acc ≡ snapshot_now acc
unfolding snapshot
snapshot_lem thread acc = ground arith

eq_digest_self : (q : Option String) → eq_digest q q ≡ true
eq_digest_self q = (eq_digest_iff q q).1 refl

-- A new accumulator is valid.
pub new-IsValid :
    (h : Hashing) (run : Value) (max_events : ℤ) {acc : EvidenceAccumulator}
    → new run max_events ≡ ok acc
    → IsValid h acc
unfolding new
new-IsValid h run max_events {acc} eq =
    let (entries, ids) = new-eq-ok run max_events eq in
    record {
      chained = rw entries (unfold verify_from in refl);
      ids = rw (entries, ids);
      distinct = rw ids tt;
      bounded = rw entries (omega arith);
    }

-- The snapshot of a valid accumulator passes `_verify_chain`.
pub verify_chain-snapshot :
    (h : Hashing) (thread : ℕ) (acc : EvidenceAccumulator)
    → IsValid h acc
    → verify_chain h (snapshot thread acc) ≡ ok tt
verify_chain-snapshot h thread acc v = rw (snapshot_lem thread acc) (
    unfold verify_chain snapshot_now in
    rw (v.chained, eq_digest_self (Option.map digest_of (last? acc.entries))))
