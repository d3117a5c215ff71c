-- ===== src/Value/Number/Digits.antt =====
-- `int(v)` of a text that is all digits.
use mathlib.Core.List.{reverse_aux, reverse, reverse-reverse}
use agentrust_telemetry.Base.{
  ℕ, ◌+◌, ◌-◌, ◌*◌, ◌≡◌, ◌≢◌, refl, Bool, true, false, String, List, [], ◌∷◌, all, ◌==◌, some,
  arith,
}
use agentrust_telemetry.Base.Integer.{pos}
use agentrust_telemetry.Base.Outcome.{ok}
use agentrust_telemetry.Value.{str}
use agentrust_telemetry.Value.Words.{codes, is_digit}
use agentrust_telemetry.Value.Number.{is_space, trim_left, decimal, signed, or_value_error, to_int}

-- the number that some digits write, after a number already read
abbrev pub horner : ℕ → List ℕ → ℕ
horner n [] = n
horner n (c ∷ s) = horner (n * 10 + (c - 48)) s

digit-plain :
    (c : ℕ)
    → is_digit c ≡ true
    → (is_space c ≡ false) × ((c == b'-') ≡ false) × ((c == b'+') ≡ false)
unfolding is_digit is_space
digit-plain c h = ground arith

trim_left-digits : (s : List ℕ) → all is_digit s ≡ true → trim_left s ≡ s
unfolding trim_left
trim_left-digits [] h = refl
trim_left-digits (c ∷ s) h = let (a, _, _) = digit-plain c (ground arith) in rw a refl

decimal-digits : (n : ℕ) (s : List ℕ) → all is_digit s ≡ true → decimal true n s ≡ some (horner n s)
unfolding decimal
decimal-digits n [] h = refl
decimal-digits n (c ∷ s) h = ground (arith, decimal-digits (n * 10 + (c - 48)) s)

signed-digits :
    (c : ℕ) (s : List ℕ)
    → all is_digit (c ∷ s) ≡ true
    → signed (c ∷ s) ≡ some (pos (horner 0 (c ∷ s)))
unfolding signed decimal
signed-digits c s h =
    let (_, a, b) = digit-plain c (ground arith) in ground (arith, decimal-digits (c - 48) s)

all-reverse_aux :
    (p : ℕ → Bool) (xs ys : List ℕ)
    → all p xs ≡ true
    → all p ys ≡ true
    → all p (reverse_aux xs ys) ≡ true
all-reverse_aux p [] ys h k = k
all-reverse_aux p (x ∷ xs) ys h k = all-reverse_aux p xs (x ∷ ys) (ground arith) (ground arith)

or_value_error-digits :
    (s : List ℕ)
    → s ≢ []
    → all is_digit s ≡ true
    → or_value_error (signed s) ≡ ok (pos (horner 0 s))
unfolding or_value_error
or_value_error-digits [] nonempty h = absurd (nonempty refl)
or_value_error-digits (c ∷ s) nonempty h = rw (signed-digits c s h) refl

-- A text of digits reads as the number that they write.
pub to_int-digits :
    (s : String)
    → codes s ≢ []
    → all is_digit (codes s) ≡ true
    → to_int (str s) ≡ ok (pos (horner 0 (codes s)))
unfolding to_int
to_int-digits s nonempty h =
    rw
      (
        trim_left-digits (reverse (codes s)) (all-reverse_aux is_digit (codes s) [] h refl),
        reverse-reverse (codes s),
        trim_left-digits (codes s) h,
      )
      (or_value_error-digits (codes s) nonempty h)
