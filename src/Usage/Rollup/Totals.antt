-- ===== src/Usage/Rollup/Totals.antt =====
-- `rollup` of usage.py: what the token counts of a rollup come to.
use mathlib.Core.Path.{subst}
use agentrust_telemetry.Base.{
  ℕ, zero, suc, ◌≤◌, ◌==◌, ◌≡◌, refl, sym, ap, ◌∙◌, ◌⊎◌, inl, inr, false, String, Option, none,
  some, List, [], ◌∷◌, ◌++◌, All, All-map, length, Bool-cases, str_eq, eq_iff, if◌then◌else◌, arith,
}
use agentrust_telemetry.Base.Integer.{ℤ}
use agentrust_telemetry.Base.Outcome.{
  Result, ok, >>=-eq-ok, ok-injective, raise_if, raise_if-eq-ok, traverse, value_error,
}
use agentrust_telemetry.Value.{Value, int, str}
use agentrust_telemetry.Value.Words.{has_prefix}
use agentrust_telemetry.Trace.Events.{filter_result}
use agentrust_telemetry.Factory.{EventFactory, is_reserved, payload_value}
use agentrust_telemetry.Factory.Payload.{Holds, Holds-plain, find}
use agentrust_telemetry.Usage.{UsageAccumulator, token_fields}
use agentrust_telemetry.Usage.Rollup.{
  RollupArguments, is_match, observed, roll_field, roll_tokens, token_totals, text_at, are_mixed,
  cost_total, rollup_payload, events_of, lacks_workflow, rollup,
}
use agentrust_telemetry.Usage.Rollup.Tally.{IsTally, IsTally-le, roll_field-IsTally}

module _ {A : Type 0} (P Q : A → Type 0) where
  All-zip : (xs : List A) → All P xs → All Q xs → All (λ x. P x × Q x) xs
  All-zip [] p q = tt
  All-zip (x ∷ xs) (p, ps) (q, qs) = ((p, q), All-zip xs ps qs)

-- No name stands twice.
abbrev AreUnlike : List String → Type 0
AreUnlike [] = Unit
AreUnlike (k ∷ ks) = All (λ j. str_eq k j ≡ false) ks × AreUnlike ks

find_first : (k : String) (v : Value) (ps : List (String × Value)) → find k ((k, v) ∷ ps) ≡ some v
unfolding find
find_first k v ps = rw ((eq_iff k k).1 refl) refl

find_skip :
    (j k : String) (o : Option ℤ) (c : ℕ) (rest : List (String × Option ℤ × ℕ))
    → str_eq j k ≡ false
    → find k (token_totals rest) ≡ find k (token_totals ((j, o, c) ∷ rest))
unfolding find
find_skip j k none c rest f = refl
find_skip j k (some t) c rest f = rw f refl

find-append :
    (k : String) (ps qs : List (String × Value)) {v : Value}
    → find k ps ≡ some v
    → find k (ps ++ qs) ≡ some v
unfolding find
find-append k [] qs e = cc
find-append k ((j, w) ∷ ps) qs e = elim (Bool-cases (str_eq j k)) [
  | inl t ↦ ground arith
  | inr f ↦ let later = find-append k ps qs (ground arith) in rw f later
]

token_fields-AreUnlike : AreUnlike token_fields
token_fields-AreUnlike = (
  (refl, (refl, (refl, (refl, tt)))),
  ((refl, (refl, (refl, tt))), ((refl, (refl, tt)), ((refl, tt), (tt, tt)))),
)

-- What the fields of the loop hold of one of them.
abbrev Rolled : List Value → List (String × Value) → String → Type 0
Rolled events totals k =
    (t : ℤ) × (c : ℕ) × IsTally k events t c × ((c ≡ 0) ⊎ (find k totals ≡ some (int t)))

some_total :
    (c : ℕ) (t : ℤ) (o : Option ℤ) → o ≡ (if c == 0 then none else some t) → (c ≡ 0) ⊎ (o ≡ some t)
some_total zero t o e = inl refl
some_total (suc c) t o e = inr (ground arith)

roll_tokens-Rolled :
    (ks : List String) (events : List Value) {tokens : List (String × Option ℤ × ℕ)}
    → AreUnlike ks
    → roll_tokens ks events ≡ ok tokens
    → All (Rolled events (token_totals tokens)) ks
unfolding roll_tokens
roll_tokens-Rolled [] events u h = tt
roll_tokens-Rolled (k ∷ ks) events (fresh, u) h =
    let ((o, c), first, h1) = >>=-eq-ok (roll_field k events) _ h in
    let (rest, others, h2) = >>=-eq-ok (roll_tokens ks events) _ h1 in
    let (t, tally, total) = roll_field-IsTally k events first in
    subst (λ tokens. All (Rolled events (token_totals tokens)) (k ∷ ks)) (ok-injective h2)
      (
        (
          t,
          c,
          tally,
          elim (some_total c t o total) [
            | inl none_there ↦ inl none_there
            | inr there ↦ inr (
                ap (λ x. find k (token_totals ((k, x, c) ∷ rest))) there
                ∙ find_first k (int t) (token_totals rest))
          ],
        ),
        All-map
            (λ j ((i, d, own, held), apart). (
              i,
              d,
              own,
              elim held [ inl e ↦ inl e | inr e ↦ inr (sym (find_skip k j o c rest apart) ∙ e) ],
            ))
            ks
            (All-zip (Rolled events (token_totals rest)) (λ j. str_eq k j ≡ false) ks
              (roll_tokens-Rolled ks events u others) fresh),
      )

rollup_payload-eq-ok :
    (decimal_sum : List Value → Result Value) (p : RollupArguments) (matches : List Value)
    {payload : List (String × Value)}
    → rollup_payload decimal_sum p matches ≡ ok payload
    → (tokens : List (String × Option ℤ × ℕ)) × (cost aggregation : List (String × Value))
      × (roll_tokens token_fields matches ≡ ok tokens)
      × (payload
          ≡ ("scope", str p.scope) ∷ ("operation", str p.operation) ∷ token_totals tokens
            ++ cost
            ++ aggregation)
unfolding rollup_payload
rollup_payload-eq-ok decimal_sum p matches e =
    let (tokens, rolled, e1) = >>=-eq-ok (roll_tokens token_fields matches) _ e in
    let (costs, _, e2) = >>=-eq-ok (observed "cost" matches) _ e1 in
    let (currencies, _, e3) = >>=-eq-ok (traverse (text_at "currency") costs) _ e2 in
    let (_, _, e4) =
      >>=-eq-ok
        (raise_if (are_mixed currencies) (value_error "cannot roll up costs with mixed currencies"))
        _ e3 in
    let (cost, _, e5) = >>=-eq-ok (cost_total decimal_sum costs currencies) _ e4 in
    let (sources, _, e6) = >>=-eq-ok (traverse (text_at "source") costs) _ e5 in
    (tokens, cost, _, rolled, sym (ok-injective e6))

-- the field is neither one of the envelope's nor a time, nor the scope or the operation
abbrev IsCount : String → Type 0
IsCount k =
    (is_reserved k ≡ false)
    × (str_eq "scope" k ≡ false)
    × (str_eq "operation" k ≡ false)
    × ((t : ℤ) → payload_value k (int t) ≡ ok (int t))

token_fields-IsCount : All IsCount token_fields
unfolding is_reserved payload_value has_prefix
token_fields-IsCount = (
  (refl, refl, refl, λ t. refl),
  (
    (refl, refl, refl, λ t. refl),
    (
      (refl, refl, refl, λ t. refl),
      ((refl, refl, refl, λ t. refl), ((refl, refl, refl, λ t. refl), tt)),
    ),
  ),
)

find_past :
    (k : String) (u v : Value) (ps : List (String × Value))
    → str_eq "scope" k ≡ false
    → str_eq "operation" k ≡ false
    → find k (("scope", u) ∷ ("operation", v) ∷ ps) ≡ find k ps
unfolding find
find_past k u v ps a b = rw (a, b) refl

-- What the event reports of a token field: the sum over the matching events, unless none has it.
abbrev pub Reported : List Value → Value → String → Type 0
Reported matches event k =
    (t : ℤ) × (c : ℕ) × IsTally k matches t c
    × (c ≤ length matches)
    × ((c ≡ 0) ⊎ Holds event k (int t))

pub record IsRollup (p : RollupArguments) (events : UsageAccumulator) (event : Value) : Type 0 where
  pub matches : List Value
  pub selected : filter_result (is_match p) (events_of events) ≡ ok matches
  pub some_match : (length matches == 0) ≡ false
  pub reported : All (Reported matches event) token_fields

-- A rollup that is returned reports, for each of the five token fields that some matching event has,
-- the sum of the integers of the matching events that have it, as an independent fold over the
-- events gives it; at least one event matches.
pub rollup-IsRollup :
    (decimal_sum : List Value → Result Value) (f : EventFactory) (events : UsageAccumulator)
    (p : RollupArguments) (now : ℤ) (fresh : String) {event : Value}
    → rollup decimal_sum f events p now fresh ≡ ok event
    → IsRollup p events event
unfolding rollup
rollup-IsRollup decimal_sum f events p now fresh {event} e =
    let (_, _, e1) =
      >>=-eq-ok
        (raise_if (lacks_workflow p)
          (value_error "workflow_id is required for workflow_run rollups"))
        _ e in
    let (matches, selected, e2) = >>=-eq-ok (filter_result (is_match p) (events_of events)) _ e1 in
    let (_, some_match, e3) =
      >>=-eq-ok (raise_if (length matches == 0) (value_error "no matching model_call usage events"))
        _ e2 in
    let (payload, made, e4) = >>=-eq-ok (rollup_payload decimal_sum p matches) _ e3 in
    let (tokens, costs, aggregation, rolled, whole) =
      rollup_payload-eq-ok decimal_sum p matches made in
    record {
      matches = matches;
      selected = selected;
      some_match = raise_if-eq-ok _ _ some_match;
      reported =
          All-map {P = λ k. Rolled matches (token_totals tokens) k × IsCount k}
            {Q = Reported matches event}
            (λ k ((t, c, tally, held), (free, scope, operation, plain_count)). (
              t,
              c,
              tally,
              IsTally-le k tally,
              elim held [
                | inl nothing ↦ inl nothing
                | inr there ↦ inr (
                    Holds-plain f _ now fresh e4 k (int t) free
                      (ap (find k) whole
                        ∙ find_past k _ _ _ scope operation
                        ∙ find-append k (token_totals tokens ++ costs) aggregation
                            (find-append k (token_totals tokens) costs there))
                      (plain_count t))
              ],
            ))
            token_fields
            (All-zip (Rolled matches (token_totals tokens)) IsCount token_fields
              (roll_tokens-Rolled token_fields matches token_fields-AreUnlike rolled)
              token_fields-IsCount);
    }
