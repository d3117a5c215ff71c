-- ===== src/Value/Words.antt =====
-- Operations of Python's `str` that the code uses, by code points.
use agentrust_telemetry.Base.{
  ℕ, ◌+◌, Bool, true, false, ◌&&◌, ◌||◌, String, code, List, [], ◌∷◌, ◌++◌, leb, ◌==◌,
  if◌then◌else◌,
}

-- The code points of a text. `String` has its own `[]` and `∷`.
abbrev pub codes : String → List ℕ
codes String.[] = []
codes (String.◌∷◌ c s) = code c ∷ codes s

unfoldable pub is_digit : ℕ → Bool
is_digit c = leb b'0' c && leb c b'9'

unfoldable pub is_upper : ℕ → Bool
is_upper c = leb b'A' c && leb c b'Z'

unfoldable pub is_lower : ℕ → Bool
is_lower c = leb b'a' c && leb c b'z'

unfoldable pub is_alnum : ℕ → Bool
unfolding is_digit is_upper is_lower
is_alnum c = is_digit c || is_upper c || is_lower c

-- Lower case of one code point, as far as a comparison with an ASCII text can tell: besides A to Z
-- only the Kelvin sign (to k) and the dotted I (to i and a combining dot) give an ASCII letter.
unfoldable pub lower_code : ℕ → List ℕ
unfolding is_upper
lower_code c =
    if is_upper c
    then (c + 32) ∷ []
    else if c == 0x212A
    then b'k' ∷ []
    else if c == 0x130
    then b'i' ∷ 0x307 ∷ []
    else c ∷ []

unfoldable pub lower : List ℕ → List ℕ
unfolding lower_code
lower [] = []
lower (c ∷ s) = lower_code c ++ lower s

-- Two texts with the same code points.
unfoldable pub eq_codes : List ℕ → List ℕ → Bool
eq_codes [] [] = true
eq_codes (c ∷ s) (d ∷ t) = c == d && eq_codes s t
eq_codes _ _ = false

-- text.startswith(prefix)
unfoldable pub has_prefix : List ℕ → List ℕ → Bool
has_prefix [] s = true
has_prefix (p ∷ ps) [] = false
has_prefix (p ∷ ps) (c ∷ s) = c == p && has_prefix ps s

-- part in text
unfoldable pub has_part : List ℕ → List ℕ → Bool
unfolding has_prefix
has_part p [] = has_prefix p []
has_part p (c ∷ s) = has_prefix p (c ∷ s) || has_part p s
