-- ===== src/Factory/Time.antt =====
-- `_unix_nano` of adapters/base.py and `int()`: a time that is written is read back.
use Prim.Native.String
use Prim.Native.String.append
use mathlib.Core.Path.{subst}
use agentrust_telemetry.Base.{
  ℕ, zero, suc, ◌+◌, ◌-◌, ◌*◌, ◌/◌, ◌%◌, ◌<◌, ◌≡◌, ◌≢◌, refl, sym, ap, ◌∙◌, Bool, true, false,
  String, code, List, [], ◌∷◌, ◌++◌, all, ltb, ◌==◌, ltb→lt, arith, ==_iff,
}
use agentrust_telemetry.Base.Integer.{ℤ, pos, negsuc}
use agentrust_telemetry.Base.Outcome.{ok}
use agentrust_telemetry.Value.{int, str}
use agentrust_telemetry.Value.Words.{codes, is_digit}
use agentrust_telemetry.Value.Number.{to_int}
use agentrust_telemetry.Value.Number.Digits.{horner, to_int-digits}
use agentrust_telemetry.Bytes.{hex_char}
use agentrust_telemetry.Bytes.Laws.{holds_under, holds_under_at}
use agentrust_telemetry.Factory.{decimal, integer_text, is_canonical, canonical_text, unix_nano}

codes-append : (s t : String) → codes (String.◌++◌ s t) ≡ codes s ++ codes t
codes-append String.[] t = ap codes (append.nil t)
codes-append (String.◌∷◌ c s) t =
    ap codes (append.cons c s t) ∙ ap (λ cs. code c ∷ cs) (codes-append s t)

horner-append : (n : ℕ) (s t : List ℕ) → horner n (s ++ t) ≡ horner (horner n s) t
horner-append n [] t = refl
horner-append n (c ∷ s) t = horner-append (n * 10 + (c - 48)) s t

all-append :
    (s t : List ℕ) → all is_digit s ≡ true → all is_digit t ≡ true → all is_digit (s ++ t) ≡ true
all-append [] t h k = k
all-append (c ∷ s) t h k = ground (arith, all-append s t)

nonempty_append : (s : List ℕ) (c : ℕ) → s ++ c ∷ [] ≢ []
nonempty_append [] c e = cc
nonempty_append (d ∷ s) c e = cc

digit_table : holds_under (λ d. code (hex_char d) == 48 + d) 10 ≡ true
unfolding holds_under hex_char
digit_table = refl

code-hex_char : (d : ℕ) → d < 10 → code (hex_char d) ≡ 48 + d
code-hex_char d h =
    (==_iff _ _).0 (holds_under_at (λ d. code (hex_char d) == 48 + d) 10 digit_table h)

-- the text of one more digit
last_digit :
    (s : String) (d : ℕ)
    → d < 10
    → codes (String.◌++◌ s (String.◌∷◌ (hex_char d) "")) ≡ codes s ++ (48 + d) ∷ []
last_digit s d h =
    codes-append s (String.◌∷◌ (hex_char d) "") ∙ ap (λ c. codes s ++ c ∷ []) (code-hex_char d h)

-- What the digits of a number are: they write it, they are digits and there is one.
abbrev Writes : ℕ → List ℕ → Type 0
Writes n s = (horner 0 s ≡ n) × (all is_digit s ≡ true) × (s ≢ [])

one_digit : (n : ℕ) → n < 10 → Writes n ((48 + n) ∷ [])
unfolding is_digit
one_digit n h = (omega arith, ground arith, λ e. cc)

more_digits :
    (m d : ℕ) (s : List ℕ) → d < 10 → Writes m s → Writes (m * 10 + d) (s ++ (48 + d) ∷ [])
more_digits m d s h (value, digits, nonempty) = (
  horner-append 0 s ((48 + d) ∷ []) ∙ (rw value (omega (arith, h))),
  all-append s ((48 + d) ∷ []) digits ((one_digit d h).1),
  nonempty_append s (48 + d),
)

digits_case :
    (b : Bool) (n : ℕ) (rest : String)
    → (b ≡ true → n < 10)
    → (b ≡ false → Writes (n / 10) (codes rest))
    → Writes n (
        codes (elim b [
          | true ↦ String.◌∷◌ (hex_char n) ""
          | false ↦ String.◌++◌ rest (String.◌∷◌ (hex_char (n % 10)) "")
        ]))
digits_case true n rest small large =
    subst (λ c. Writes n (c ∷ [])) (sym (code-hex_char n (small refl))) (one_digit n (small refl))
digits_case false n rest small large =
    subst (Writes n) (sym (last_digit rest (n % 10) (omega arith))) (
      subst (λ k. Writes k (codes rest ++ (48 + n % 10) ∷ [])) (omega arith)
        (more_digits (n / 10) (n % 10) (codes rest) (omega arith) (large refl)))

decimal-Writes : (fuel n : ℕ) → n < fuel → Writes n (codes (decimal fuel n))
unfolding decimal
decimal-Writes zero n h = absurd (omega arith)
decimal-Writes (suc fuel) n h =
    digits_case (ltb n 10) n (decimal fuel (n / 10)) (λ t. ltb→lt n 10 t)
      (λ t. decimal-Writes fuel (n / 10) (ground arith))

canonical_text-same : (s : String) {t : String} → canonical_text s ≡ ok t → t ≡ s
unfolding canonical_text
canonical_text-same s e = ground arith

minus_sign : (cs : List ℕ) → is_canonical (45 ∷ cs) ≡ false
unfolding is_canonical is_digit
minus_sign cs = ground arith

canonical_text-eq-ok :
    (s : String) {t : String} → canonical_text s ≡ ok t → is_canonical (codes s) ≡ true
unfolding canonical_text
canonical_text-eq-ok s e = ground arith

-- A negative number is no canonical time.
minus_not_canonical : (s : String) {t : String} → canonical_text (String.◌∷◌ "-" s) ≢ ok t
minus_not_canonical s e =
    let yes = canonical_text-eq-ok (String.◌∷◌ "-" s) e in let no = minus_sign (codes s) in cc

-- A time that is given as an integer and written into an event reads back as that integer.
pub to_int-unix_nano : (n : ℤ) {t : String} → unix_nano (int n) ≡ ok t → to_int (str t) ≡ ok n
unfolding unix_nano integer_text
to_int-unix_nano (pos n) e =
    let same = canonical_text-same (decimal (suc n) n) e in
    let (value, digits, nonempty) = decimal-Writes (suc n) n (omega arith) in
    ap (λ s. to_int (str s)) same
    ∙ to_int-digits (decimal (suc n) n) nonempty digits
    ∙ ap (λ m. ok (pos m)) value
to_int-unix_nano (negsuc n) e = absurd (minus_not_canonical _ e)
