-- ===== src/Value/Equality.antt =====
-- Python's `==` on values: numbers by what they stand for, whatever their type, so `True == 1` and
-- `1 == 1.0`; dictionaries whatever the order of their items. The shortcut that an object equals
-- itself inside a container, which only a NaN shows, is left out: a validated event holds no NaN.
use agentrust_telemetry.Base.{◌^◌, Bool, true, false, ◌&&◌, Option, none, some, str_eq, ◌==◌}
use agentrust_telemetry.Base.Integer.{ℤ, pos, pos_part, neg_part, scale}
use agentrust_telemetry.Value.{
  nan, infinity, minus_infinity, finite, Key, text, foreign, Value, null, bool, int, float, str,
  list, dict, object, Items, nil, cons, Fields, end, field, lookup, size,
}

-- What a number stands for, in units of 2^-1074.
pub data Amount : Type 0 where
  units : ℤ → Amount
  above below undefined : Amount
  -- no number at all
  nothing : Amount

unfoldable pub amount : Value → Amount
amount (bool true) = units (pos (2 ^ 1074))
amount (bool false) = units (pos 0)
amount (int n) = units (scale n (2 ^ 1074))
amount (float (finite m k)) = units (scale m (2 ^ k))
amount (float infinity) = above
amount (float minus_infinity) = below
amount (float nan) = undefined
amount _ = nothing

eq_ℤ : ℤ → ℤ → Bool
eq_ℤ a b = pos_part a == pos_part b && neg_part a == neg_part b

unfoldable pub eq_amount : Amount → Amount → Bool
unfolding eq_ℤ
eq_amount (units a) (units b) = eq_ℤ a b
eq_amount above above = true
eq_amount below below = true
eq_amount _ _ = false

-- the value under a key of either kind
lookup_key : Key → Fields → Option Value
unfolding lookup
lookup_key (text k) fs = lookup k fs
lookup_key (foreign t) end = none
lookup_key (foreign t) (field (text j) v fs) = lookup_key (foreign t) fs
lookup_key (foreign t) (field (foreign u) v fs) =
    let rest = lookup_key (foreign t) fs in elim (str_eq u t) [ true ↦ some v | false ↦ rest ]

abbrev matches_with : (Value → Bool) → Option Value → Bool
matches_with p none = false
matches_with p (some v) = p v

unfoldable mutual
  unfolding lookup_key amount eq_amount size

  pub eq_value : Value → Value → Bool
  eq_value null null = true
  eq_value (str s) (str t) = str_eq s t
  eq_value (list xs) (list ys) = eq_items xs ys
  eq_value (dict fs) (dict gs) = size fs == size gs && included fs gs
  eq_value (object s) (object t) = str_eq s t
  eq_value (bool a) w = eq_amount (amount (bool a)) (amount w)
  eq_value (int a) w = eq_amount (amount (int a)) (amount w)
  eq_value (float a) w = eq_amount (amount (float a)) (amount w)
  eq_value _ _ = false

  pub eq_items : Items → Items → Bool
  eq_items nil nil = true
  eq_items (cons v vs) (cons w ws) = eq_value v w && eq_items vs ws
  eq_items _ _ = false

  -- every item of the first is in the second, with an equal value
  pub included : Fields → Fields → Bool
  included end gs = true
  included (field k v fs) gs = matches_with (eq_value v) (lookup_key k gs) && included fs gs
