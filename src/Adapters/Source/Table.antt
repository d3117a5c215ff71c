-- ===== src/Adapters/Source/Table.antt =====
-- The literal dictionaries of the adapters, by the texts that one of them sends to a text, and the
-- fields that were read as texts.
use agentrust_telemetry.Base.{
  ◌≡◌, refl, sym, ap, inl, inr, String, Option, none, some, List, [], ◌∷◌, Some, Bool-cases, str_eq,
  eq_iff, if◌then◌else◌, arith,
}
use agentrust_telemetry.Base.Outcome.{Exn, ok, err, ok-injective}
use agentrust_telemetry.Value.{str}
use agentrust_telemetry.Adapters.Source.{Attribute, plain, required_string, named, mapped}

-- the texts that the table sends to this one
abbrev pub keys_of : String → List (String × String) → List String
keys_of t [] = []
keys_of t ((k, u) ∷ table) = if str_eq u t then k ∷ keys_of t table else keys_of t table

some-same : {s t : String} → ◌≡◌ {A = Option String} (some s) (some t) → s ≡ t
some-same e = cc

pub named-Some :
    (k : String) (table : List (String × String)) {t : String}
    → named k table ≡ some t
    → Some (λ j. k ≡ j) (keys_of t table)
unfolding named
named-Some k [] e = cc
named-Some k ((j, u) ∷ table) {t} e = elim (Bool-cases (str_eq j k)) [
  | inl same ↦
      let value : u ≡ t = some-same (ground arith) in
      rw ((eq_iff u t).1 value) (inl (sym ((eq_iff j k).0 same)))
  | inr other ↦
      let rest = named-Some k table (ground arith) in
      elim (Bool-cases (str_eq u t)) [ inl y ↦ rw y (inr rest) | inr n ↦ rw n rest ]
]

present :
    (e : Exn) (o : Option String) {t : String}
    → (elim o [ none ↦ err e | some u ↦ ok u ]) ≡ ok t
    → o ≡ some t
present e none h = cc
present e (some u) h = ap some (ok-injective h)

-- A text that a dictionary gives stands under the texts that are read.
pub mapped-eq-ok :
    (e : Exn) (table : List (String × String)) (a : Attribute) {t : String}
    → mapped e table a ≡ ok t
    → (s : String) × (a ≡ plain (str s)) × (named s table ≡ some t)
unfolding mapped
mapped-eq-ok e table (plain (str s)) h = (s, refl, present e (named s table) h)
mapped-eq-ok e table a h = cc

pub required_string-eq-ok :
    (a : Attribute) {s : String} → required_string a ≡ ok s → a ≡ plain (str s)
unfolding required_string
required_string-eq-ok (plain (str t)) h = ground arith
required_string-eq-ok a h = cc
