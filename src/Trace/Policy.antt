-- ===== src/Trace/Policy.antt =====
-- `_policy_binding` of trace_adapter.py: one policy bundle and one enforcement mode for a run.
pub mod Laws
use agentrust_telemetry.Base.{
  ℕ, ◌≡◌, Bool, true, false, not, ◌||◌, String, Option, none, some, List, [], ◌∷◌, ◌==◌, length,
  any, select, str_eq, if◌then◌else◌,
}
use agentrust_telemetry.Base.Outcome.{
  Result, ok, err, ◌>>=◌, ◌>>◌, raise_if, traverse, key_error, trace_finalization_error,
}
use agentrust_telemetry.Value.{Value, str}
use agentrust_telemetry.Value.Equality.{eq_value}
use agentrust_telemetry.Value.Access.{get_item, has_key}
use agentrust_telemetry.Trace.Events.{of_type, to_set, set_by, hashed}
use Prim.Native.String

-- any("bundle_digest" not in event["policy"] for event in decisions)
unfoldable pub some_unbundled : List Value → Result Bool
some_unbundled [] = ok false
some_unbundled (event ∷ events) = do
  policy ← get_item event "policy"
  there ← has_key policy "bundle_digest"
  elim there [ true ↦ some_unbundled events | false ↦ ok true ]

-- event["policy"]["bundle_digest"][name]
unfoldable pub bundle_part : String → Value → Result Value
bundle_part name event = do
  policy ← get_item event "policy"
  digest ← get_item policy "bundle_digest"
  get_item digest name

abbrev pub join_digest : String → String → String
join_digest algorithm value = String.◌++◌ algorithm (String.◌++◌ ":" value)

-- Python's `str(v)`, which an f-string calls; `display` gives it for a value that is no text.
abbrev pub to_text : (Value → String) → Value → String
to_text display (str s) = s
to_text display v = display v

unfoldable pub bundle_text : (Value → String) → Value → Result String
bundle_text display event = do
  algorithm ← bundle_part "algorithm" event
  value ← bundle_part "value" event
  ok (join_digest (to_text display algorithm) (to_text display value))

unfoldable pub is_supported : Value → Bool
is_supported v = eq_value v (str "sha256") || eq_value v (str "sha384")

-- the only member of a set, if it has one
unfoldable pub only {ℓ} : {A : Type ℓ} → List A → Option A
only (x ∷ []) = some x
only _ = none

unfoldable pub or_conflict {ℓ} : {A : Type ℓ} → String → Option A → Result A
or_conflict message none = err (trace_finalization_error message)
or_conflict message (some a) = ok a

-- a set of texts
abbrev pub text_set : List String → List String
text_set ss = set_by str_eq ss

-- mapped[mode]
unfoldable pub mapped_mode : Value → Result String
mapped_mode mode =
    if eq_value mode (str "enforce")
    then ok "enforce"
    else if eq_value mode (str "monitor")
    then ok "advisory"
    else if eq_value mode (str "disabled")
    then ok "declared"
    else err (key_error "mode")

-- for the decisions of a run
unfoldable pub bind_policy : (Value → String) → List Value → Result (String × String)
bind_policy display [] = err (trace_finalization_error "no policy decision evidence is present")
bind_policy display (first ∷ others) = do
  let decisions = first ∷ others
  unbundled ← some_unbundled decisions
  raise_if unbundled (trace_finalization_error "every policy decision must carry bundle_digest")
  algorithms ← traverse (hashed (bundle_part "algorithm")) decisions
  raise_if (any (λ v. not (is_supported v)) (to_set algorithms))
      (trace_finalization_error "TRACE does not support observed policy digest algorithms")
  texts ← traverse (bundle_text display) decisions
  bundle ← or_conflict "conflicting policy bundle digests are present" (only (text_set texts))
  modes ← traverse (hashed (λ event. get_item event "enforcement_mode")) decisions
  mode ← or_conflict "conflicting policy enforcement modes are present" (only (to_set modes))
  result ← mapped_mode mode
  ok (bundle, result)

unfoldable pub policy_binding : (Value → String) → List Value → Result (String × String)
policy_binding display events = do
  decisions ← of_type "policy.decision" events
  bind_policy display decisions
