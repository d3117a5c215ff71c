-- ===== src/Adapters/AgtApproval/Agreement.antt =====
-- adapters/agt_approval.py and trace_adapter.py: events that agree on a field.
use mathlib.Core.Path.{subst}
use agentrust_telemetry.Base.{
  ◌≡◌, refl, sym, ap, ◌∙◌, true, false, not, String, List, [], ◌∷◌, All, eq_iff, arith,
}
use agentrust_telemetry.Base.Integer.{ℤ, ltb_ℤ, ◌≤ℤ◌}
use agentrust_telemetry.Base.Outcome.{ok, ◌>>=◌, >>=-eq-ok, ok-injective, raise_if, value_error}
use agentrust_telemetry.Value.{Value, str, int, lookup}
use agentrust_telemetry.Value.Equality.{eq_value}
use agentrust_telemetry.Value.Access.{get_item}
use agentrust_telemetry.Value.Number.{to_int}
use agentrust_telemetry.Factory.{unix_nano}
use agentrust_telemetry.Factory.Payload.{Holds, Holds-get_item, Holds-has_key}
use agentrust_telemetry.Factory.Time.{to_int-unix_nano}
use agentrust_telemetry.Adapters.Source.{
  Attribute, plain, Source, field_of, enum_value, required_string, digest, digest_value, is_digest,
  strip,
}
use agentrust_telemetry.Adapters.AgtApproval.Binding.{IsShared}
use agentrust_telemetry.Trace.Approvals.{field_differs, some_differs, in_window}

-- Both events hold a value that equals itself under the name.
abbrev pub AgreeOn : Value → Value → String → Type 0
AgreeOn approval request name =
    (v : Value) × Holds approval name v × Holds request name v × (eq_value v v ≡ true)

field_differs-AgreeOn :
    (approval request : Value) (name : String)
    → AgreeOn approval request name
    → field_differs approval request name ≡ ok false
unfolding field_differs
field_differs-AgreeOn approval request name (v, a, r, same) =
    rw
      (
        Holds-has_key approval name a,
        Holds-has_key request name r,
        Holds-get_item approval name a,
        Holds-get_item request name r,
        same,
      )
      refl

pub some_differs-AgreeOn :
    (names : List String) (approval request : Value)
    → All (AgreeOn approval request) names
    → some_differs names approval request ≡ ok false
unfolding some_differs
some_differs-AgreeOn [] approval request h = refl
some_differs-AgreeOn (name ∷ names) approval request (one, rest) =
    rw (field_differs-AgreeOn approval request name one)
      (some_differs-AgreeOn names approval request rest)

-- The event holds the text of a time.
abbrev pub HasTime : Value → String → ℤ → Type 0
HasTime event name n = (t : String) × (unix_nano (int n) ≡ ok t) × Holds event name (str t)

read_time :
    (event : Value) (name : String) (n : ℤ)
    → HasTime event name n
    → (get_item event name >>= to_int) ≡ ok n
read_time event name n (t, written, held) =
    rw (Holds-get_item event name held) (to_int-unix_nano n written)

pub in_window-HasTime :
    (approval request : Value) (requested resolved expires : ℤ)
    → HasTime request "requested_at_unix_nano" requested
    → HasTime approval "time_unix_nano" resolved
    → HasTime request "expires_at_unix_nano" expires
    → ltb_ℤ resolved requested ≡ false
    → resolved ≤ℤ expires
    → in_window approval request ≡ ok true
unfolding in_window
in_window-HasTime approval request requested resolved expires (t, w1, a) (u, w2, b) (v, w3, c) low
      high =
    rw
      (
        Holds-get_item request _ a,
        to_int-unix_nano requested w1,
        Holds-get_item approval _ b,
        to_int-unix_nano resolved w2,
        Holds-get_item request _ c,
        to_int-unix_nano expires w3,
      )
      (ap ok (ground arith))

pub str_same : (s : String) → eq_value (str s) (str s) ≡ true
unfolding eq_value
str_same s = (eq_iff s s).1 refl

pub digest_same : (s : String) → eq_value (digest_value s) (digest_value s) ≡ true
unfolding eq_value digest_value lookup
digest_same s = ground (arith, eq_iff (strip 7 s) (strip 7 s))

pub agree :
    (approval request : Value) (name : String) {v w : Value}
    → Holds approval name v
    → Holds request name w
    → v ≡ w
    → eq_value w w ≡ true
    → AgreeOn approval request name
agree approval request name {v} {w} a r e same = (w, subst (Holds approval name) e a, r, same)

pub agree_time :
    (approval request : Value) (name : String) (n m : ℤ)
    → HasTime approval name n
    → HasTime request name m
    → n ≡ m
    → AgreeOn approval request name
agree_time approval request name n m (t, written, a) (u, written', r) e =
    agree approval request name a r
      (ap str (ok-injective (sym written ∙ ap (λ k. unix_nano (int k)) e ∙ written'))) (str_same u)

required_string-enum_value :
    (a : Attribute) {s : String} → required_string a ≡ ok s → required_string (enum_value a) ≡ ok s
unfolding required_string enum_value
required_string-enum_value (plain v) e = e
required_string-enum_value a e = cc

-- a text that was read plainly, on a field that both sources share
pub shared_text :
    (left right : Source) (name : String) {s t : String}
    → IsShared left right name
    → required_string (field_of left name) ≡ ok s
    → required_string (field_of right name) ≡ ok t
    → s ≡ t
shared_text left right name (u, l, r) e e' =
    ok-injective (sym (required_string-enum_value (field_of left name) e) ∙ l)
    ∙ ok-injective (sym r ∙ required_string-enum_value (field_of right name) e')

pub digest-eq-ok :
    (a : Attribute) {d : Value}
    → digest a ≡ ok d
    → (s : String) × (required_string a ≡ ok s) × (d ≡ digest_value s)
unfolding digest
digest-eq-ok a e =
    let (s, found, e1) = >>=-eq-ok (required_string a) _ e in
    let (_, _, e2) =
      >>=-eq-ok (raise_if (not (is_digest s)) (value_error "must use sha256:<lowercase-hex>")) _
        e1 in
    (s, found, sym (ok-injective e2))
