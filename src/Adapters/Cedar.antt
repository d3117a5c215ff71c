-- ===== src/Adapters/Cedar.antt =====
-- agentrust_telemetry/adapters/cedar.py: an answer of Cedar as a policy decision.
pub mod Reasons
use mathlib.Core.Option
use Prim.Native.String
use agentrust_telemetry.Base.{
  ℕ, Bool, true, false, not, ◌&&◌, String, Option, none, some, List, [], ◌∷◌, ◌++◌, map, any, all,
  length, ltb, str_eq, if◌then◌else◌,
}
use agentrust_telemetry.Base.Integer.{ℤ}
use agentrust_telemetry.Base.Ordered.{sorted_set}
use agentrust_telemetry.Base.Outcome.{
  Exn, Result, ok, err, ◌>>=◌, ◌>>◌, raise_if, traverse, type_error, value_error,
}
use agentrust_telemetry.Value.{Value, bool, int, float, str, list, dict, record_of, from_items}
use agentrust_telemetry.Value.Access.{truthy, check_hashable}
use agentrust_telemetry.Trace.Events.{to_set}
use agentrust_telemetry.Value.Words.{codes, lower, eq_codes}
use agentrust_telemetry.Factory.{EventFactory}
use agentrust_telemetry.Factory.Extra.{Extra, build_with}
use agentrust_telemetry.Adapters.Agt.{is_identifier}

-- What a caller gives for texts: a `str`, `bytes`, or an iterable of values.
pub data Texts : Type 0 where
  single : String → Texts
  raw_bytes : Texts
  several : List Value → Texts

-- the keyword arguments, null for None
pub record CedarArguments : Type 0 where
  pub run_id : String
  pub agent_id : String
  pub decision : String
  pub cedar_version : String
  pub bundle_digest : Value
  pub action_type : String
  pub resource_type : String
  pub evaluation_duration_ns : Value
  pub determining_policy_ids : Texts
  pub error_codes : Texts
  pub enforcement_mode : String
  pub input_digest : Value

-- the texts, if all values are texts
unfoldable pub all_texts : List Value → Option (List String)
all_texts [] = some []
all_texts (str s ∷ vs) = Option.map (λ ss. s ∷ ss) (all_texts vs)
all_texts (v ∷ vs) = none

abbrev is_number : Value → Bool
is_number (bool b) = true
is_number (int n) = true
is_number (float x) = true
is_number _ = false

-- What a set of hashable values that are not all texts raises: `sorted` compares two of them unless
-- there is but one, and numbers compare only with numbers; the check of the sorted values comes
-- after it.
unfoldable pub not_texts : List Value → Exn
not_texts distinct =
    if ltb 1 (length distinct) && not (all is_number distinct)
    then type_error "'<' not supported"
    else value_error "must contain non-empty strings"

-- `_identifiers`
unfoldable pub identifiers : Texts → Result (List String)
unfolding all_texts not_texts
identifiers (single s) = err (value_error "must be an iterable of strings, not a string")
identifiers raw_bytes = err (value_error "must be an iterable of strings, not a string")
identifiers (several values) = do
  hashable ← traverse check_hashable values
  elim (all_texts values) [
    | none ↦ err (not_texts (to_set hashable))
    | some given ↦ (do
      raise_if (any (λ s. str_eq s "") (sorted_set given))
          (value_error "must contain non-empty strings")
      ok (sorted_set given))
  ]

-- decision.lower(), in {"allow", "deny"}
unfoldable pub normalized : String → Result String
unfolding lower eq_codes
normalized s =
    if eq_codes (lower (codes s)) (codes "allow")
    then ok "allow"
    else if eq_codes (lower (codes s)) (codes "deny")
    then ok "deny"
    else err (value_error "Cedar decision must be Allow or Deny")

-- f"{prefix}{value}" for each value
abbrev pub prefixed : String → List String → List String
prefixed prefix values = map (λ s. String.◌++◌ prefix s) values

-- `policy_id`, where one policy determined the decision
unfoldable pub only_policy : List String → List (String × Value)
only_policy (s ∷ []) = ("policy_id", str s) ∷ []
only_policy ss = []

abbrev pub digest_field : Value → List (String × Value)
digest_field v = if truthy v then ("input_digest", v) ∷ [] else []

abbrev pub cedar_payload :
    CedarArguments → String → List String → List String → List (String × Value)
cedar_payload p decision policy_ids reason_codes =
    ("decision", str decision)
    ∷ (
      "policy",
      dict (
          record_of (
            (("engine", str "cedar")
              ∷ ("engine_version", str p.cedar_version)
              ∷ ("bundle_digest", p.bundle_digest)
              ∷ [])
            ++ only_policy policy_ids
            ++ digest_field p.input_digest)),
    )
    ∷ ("action_type", str p.action_type)
    ∷ ("resource_type", str p.resource_type)
    ∷ ("enforcement_mode", str p.enforcement_mode)
    ∷ ("evaluation_duration_ns", p.evaluation_duration_ns)
    ∷ ("reason_codes", list (from_items (map str reason_codes)))
    ∷ []

unfoldable pub cedar_policy_decision :
    EventFactory → CedarArguments → Extra → ℤ → String → Result Value
unfolding identifiers normalized build_with only_policy
cedar_policy_decision f p x now fresh = do
  decision ← normalized p.decision
  policy_ids ← identifiers p.determining_policy_ids
  errors ← identifiers p.error_codes
  raise_if (not (all is_identifier errors))
      (value_error "Cedar error_codes must be identifiers, not error messages")
  let reason_codes = prefixed "cedar.policy:" policy_ids ++ prefixed "cedar.error:" errors
  raise_if (ltb 32 (length reason_codes))
      (value_error "Cedar reasons and errors exceed the 32-code contract limit")
  build_with f "policy.decision" p.run_id p.agent_id
      (cedar_payload p decision policy_ids reason_codes) x now fresh
