-- ===== src/Value/Number.antt =====
-- `int(v)` of Python, for a text over ASCII white space and digits: other digits of Unicode, and
-- texts of more than 4300 digits, are left out.
pub mod Digits
use agentrust_telemetry.Base.{
  ℕ, suc, ◌+◌, ◌-◌, ◌*◌, ◌/◌, ◌^◌, ◌≡◌, refl, Bool, true, false, ◌&&◌, ◌||◌, List, [], ◌∷◌, leb,
  ◌==◌, if◌then◌else◌, Option, none, some,
}
use mathlib.Core.List.{reverse}
use mathlib.Core.Option
use agentrust_telemetry.Base.Integer.{ℤ, pos, negsuc, sub_ℕ}
use agentrust_telemetry.Base.Outcome.{Result, ok, err, type_error, value_error, overflow_error}
use agentrust_telemetry.Value.{nan, finite, Value, bool, int, float, str}
use agentrust_telemetry.Value.Words.{codes, is_digit}

is_space : ℕ → Bool
is_space c = c == 32 || leb 9 c && leb c 13 || leb 28 c && leb c 31

trim_left : List ℕ → List ℕ
trim_left [] = []
trim_left (c ∷ s) = let rest = trim_left s in if is_space c then rest else c ∷ s

-- Digits, with a single underscore allowed between two of them; `after` says that a digit stands
-- just before.
decimal : Bool → ℕ → List ℕ → Option ℕ
unfolding is_digit
decimal after n [] = if after then some n else none
decimal after n (c ∷ s) =
    let next = decimal true (n * 10 + (c - 48)) s in
    let skipped = decimal false n s in
    if is_digit c then next else if after && c == b'_' then skipped else none

negated : ℕ → ℤ
negated n = sub_ℕ 0 n

or_value_error : Option ℤ → Result ℤ
or_value_error none = err (value_error "invalid literal for int()")
or_value_error (some n) = ok n

signed : List ℕ → Option ℤ
unfolding decimal negated
signed [] = none
signed (c ∷ s) =
    if c == b'-'
    then Option.map negated (decimal false 0 s)
    else if c == b'+'
    then Option.map pos (decimal false 0 s)
    else Option.map pos (decimal false 0 (c ∷ s))

-- toward zero
truncated : ℤ → ℕ → ℤ
unfolding negated
truncated (pos m) k = pos (m * 2 ^ k / 2 ^ 1074)
truncated (negsuc m) k = negated (suc m * 2 ^ k / 2 ^ 1074)

unfoldable pub to_int : Value → Result ℤ
unfolding or_value_error signed trim_left is_space truncated
to_int (bool true) = ok (pos 1)
to_int (bool false) = ok (pos 0)
to_int (int n) = ok n
to_int (float (finite m k)) = ok (truncated m k)
to_int (float nan) = err (value_error "cannot convert float NaN to integer")
to_int (float _) = err (overflow_error "cannot convert float infinity to integer")
to_int (str s) = or_value_error (signed (trim_left (reverse (trim_left (reverse (codes s))))))
to_int _ = err (type_error "int() argument must be a string or a real number")

to_int_example :
    (to_int (str "1700000000000000000") ≡ ok (pos 1700000000000000000))
    × (to_int (str " -4_2 ") ≡ ok (negsuc 41))
    × (to_int (str "4__2") ≡ err (value_error "invalid literal for int()"))
    × (to_int (float (finite (negsuc 4) 1073)) ≡ ok (negsuc 1))
unfolding to_int
to_int_example = (refl, refl, refl, refl)
