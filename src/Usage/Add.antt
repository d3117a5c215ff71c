-- ===== src/Usage/Add.antt =====
-- `UsageAccumulator.add` of usage.py: its outcomes, and the invariant of what it holds.
use agentrust_telemetry.Base.{
  ◌≡◌, refl, sym, ap, ◌∙◌, inl, inr, Bool, true, false, Option, none, some, [], ◌∷◌, ◌++◌, All,
  All-append, Bool-cases, arith, String, if◌then◌else◌, str_eq, eq_iff,
}
use agentrust_telemetry.Base.Outcome.{Exn, value_error, Result, ok, err}
use agentrust_telemetry.Value.{Value}
use agentrust_telemetry.Value.Equality.{eq_value}
use agentrust_telemetry.Usage.{UsageAccumulator, find_event, check_usage, found, keep, add}

swapped : (i j : String) → str_eq i j ≡ false → str_eq j i ≡ false
swapped i j f = elim (Bool-cases (str_eq j i)) [
  | inl t ↦ let back = (eq_iff i j).1 (sym ((eq_iff j i).0 t)) in cc
  | inr g ↦ g
]

module _ (validate : Value → Result (Unit {0})) where
  -- Each event passed every check and stands under its own id, and no id stands twice.
  abbrev pub IsChecked : String × Value → Type 0
  IsChecked (event_id, event) = check_usage validate event ≡ ok event_id

  abbrev pub AreDistinct : UsageAccumulator → Type 0
  AreDistinct [] = Unit
  AreDistinct ((event_id, event) ∷ events) =
      (find_event event_id events ≡ none) × AreDistinct events

  abbrev pub IsValid : UsageAccumulator → Type 0
  IsValid events = All IsChecked events × AreDistinct events

  find_event-append :
      (k j : String) (event : Value) (events : UsageAccumulator)
      → str_eq j k ≡ false
      → find_event k events ≡ none
      → find_event k (events ++ (j, event) ∷ []) ≡ none
  unfolding find_event
  find_event-append k j event [] h e = rw h refl
  find_event-append k j event ((i, x) ∷ events) h e = elim (Bool-cases (str_eq i k)) [
    | inl t ↦ ground arith
    | inr f ↦ rw f (find_event-append k j event events h (ground arith))
  ]

  AreDistinct-append :
      (j : String) (event : Value) (events : UsageAccumulator)
      → find_event j events ≡ none
      → AreDistinct events
      → AreDistinct (events ++ (j, event) ∷ [])
  unfolding find_event
  AreDistinct-append j event [] e d = (refl, tt)
  AreDistinct-append j event ((i, x) ∷ events) e (fresh, d) = elim (Bool-cases (str_eq i j)) [
    | inl t ↦ ground arith
    | inr f ↦ (
      find_event-append i j event events (swapped i j f) fresh,
      AreDistinct-append j event events (ground arith) d,
    )
  ]

  -- How an addition ends: it takes a new event that passed the checks, or leaves what it holds.
  pub data Added (event : Value) (events : UsageAccumulator)
      : Result Bool × UsageAccumulator → Type 0 where
    taken :
        (event_id : String)
        → check_usage validate event ≡ ok event_id
        → find_event event_id events ≡ none
        → Added event events (ok true, events ++ (event_id, event) ∷ [])
    repeated :
        (event_id : String) (known : Value)
        → check_usage validate event ≡ ok event_id
        → find_event event_id events ≡ some known
        → eq_value known event ≡ true
        → Added event events (ok false, events)
    refused : (e : Exn) → Added event events (err e, events)

  found-Added :
      (event : Value) (events : UsageAccumulator) (event_id : String) (o : Option Value)
      → check_usage validate event ≡ ok event_id
      → find_event event_id events ≡ o
      → Added event events (found event events event_id o)
  unfolding found
  found-Added event events k none c e = taken k c e
  found-Added event events k (some known) c e = elim (Bool-cases (eq_value known event)) [
    | inl t ↦ rw t (repeated k known c e t)
    | inr f ↦ rw f (refused _)
  ]

  keep-Added :
      (event : Value) (events : UsageAccumulator) (r : Result String)
      → check_usage validate event ≡ r
      → Added event events (keep event events r)
  unfolding keep
  keep-Added event events (err e) c = refused e
  keep-Added event events (ok k) c = found-Added event events k (find_event k events) c refl

  Added-IsValid :
      (event : Value) (events : UsageAccumulator) (r : Result Bool × UsageAccumulator)
      → IsValid events
      → Added event events r
      → IsValid (r.1)
  Added-IsValid event events r (checked, distinct) (taken k c e) = (
    All-append IsChecked events ((k, event) ∷ []) checked (c, tt),
    AreDistinct-append k event events e distinct,
  )
  Added-IsValid event events r v (repeated k known c e t) = v
  Added-IsValid event events r v (refused e) = v

  find_event-last :
      (k : String) (event : Value) (events : UsageAccumulator)
      → find_event k events ≡ none
      → find_event k (events ++ (k, event) ∷ []) ≡ some event
  unfolding find_event
  find_event-last k event [] e = rw ((eq_iff k k).1 refl) refl
  find_event-last k event ((i, x) ∷ events) e = elim (Bool-cases (str_eq i k)) [
    | inl t ↦ ground arith
    | inr f ↦ rw f (find_event-last k event events (ground arith))
  ]

  not_taken :
      {Y : Type 0} (b : Bool) (events later : UsageAccumulator)
      → ◌≡◌ {A = Result Bool × UsageAccumulator}
          (
            if b
                then ok false
                else err (value_error "event_id was reused with different usage data"),
            events,
          )
          (ok true, later)
      → Y
  not_taken true events later e = cc
  not_taken false events later e = cc

  kept :
      (event : Value) (events later : UsageAccumulator) (k : String) (o : Option Value)
      → found event events k o ≡ (ok true, later)
      → (o ≡ none) × (later ≡ events ++ (k, event) ∷ [])
  unfolding found
  kept event events later k none e =
      (refl, sym (ap (λ (p : Result Bool × UsageAccumulator). p.1) e))
  kept event events later k (some known) e = not_taken (eq_value known event) events later e

  taken_twice :
      (event : Value) (events later : UsageAccumulator) (r : Result String)
      → check_usage validate event ≡ r
      → keep event events r ≡ (ok true, later)
      → eq_value event event ≡ true
      → keep event later r ≡ (ok false, later)
  unfolding keep
  taken_twice event events later (err x) c e same = cc
  taken_twice event events later (ok k) c e same =
      let (free, grown) = kept event events later k (find_event k events) e in
      let there = ap (find_event k) grown ∙ find_event-last k event events free in
      rw (there, same) refl

  add-Added :
      (event : Value) (events : UsageAccumulator) → Added event events (add validate event events)
  unfolding add
  add-Added event events = keep-Added event events (check_usage validate event) refl

  -- An addition takes the event exactly as a new entry at the end, reports a repeated one, or
  -- raises; but for a taken event it leaves what is held, and it keeps every held event checked,
  -- under its own id, with no id held twice.
  pub add-IsValid :
      (event : Value) (events : UsageAccumulator)
      → IsValid events
      → Added event events (add validate event events) × IsValid ((add validate event events).1)
  add-IsValid event events v =
      let a = add-Added event events in
      (a, Added-IsValid event events (add validate event events) v a)

  -- An event that was taken, and that equals itself, is not counted again: adding it once more
  -- returns `false` and changes nothing.
  pub add_twice :
      (event : Value) (events later : UsageAccumulator)
      → add validate event events ≡ (ok true, later)
      → eq_value event event ≡ true
      → add validate event later ≡ (ok false, later)
  unfolding add
  add_twice event events later e same =
      taken_twice event events later (check_usage validate event) refl e same
