-- ===== src/Bytes.antt =====
-- Python's `bytes`, as lists of numbers below 256: `bytes.hex`, `bytes.fromhex`, `int.to_bytes`.
pub mod Laws
use agentrust_telemetry.Base.{
  ℕ, zero, suc, ◌+◌, ◌-◌, ◌*◌, ◌/◌, ◌%◌, ◌^◌, ◌<◌, ◌≤◌, ◌≡◌, refl, Bool, true, false, ◌&&◌, ◌||◌,
  String, Char, code, List, [], ◌∷◌, ◌++◌, Option, none, some, leb, ltb, ◌==◌, if◌then◌else◌,
  length, All,
}
use agentrust_telemetry.Base.Outcome.{Result, ok, err, ◌>>=◌, value_error, overflow_error}

abbrev pub Bytes : Type 0
Bytes = List ℕ

abbrev pub IsByte : ℕ → Type 0
IsByte b = b < 256

-- what `hashlib.sha256(...).digest()` returns
abbrev pub IsDigest : Bytes → Type 0
IsDigest bs = (length bs ≡ 32) × All IsByte bs

char_at : Char → String → ℕ → Char
char_at d String.[] i = d
char_at d (String.◌∷◌ c s) zero = c
char_at d (String.◌∷◌ c s) (suc i) = char_at d s i

unfoldable pub hex_char : ℕ → Char
unfolding char_at
hex_char n = char_at "?" "0123456789abcdef" n

-- bs.hex()
unfoldable pub hex : Bytes → String
unfolding hex_char
hex [] = ""
hex (b ∷ bs) = String.◌∷◌ (hex_char (b / 16)) (String.◌∷◌ (hex_char (b % 16)) (hex bs))

hex_value : ℕ → Option ℕ
hex_value c =
    if leb b'0' c && leb c b'9'
    then some (c - 48)
    else if leb b'a' c && leb c b'f'
    then some (c - 87)
    else if leb b'A' c && leb c b'F'
    then some (c - 55)
    else none

is_space : ℕ → Bool
is_space c = c == 32 || leb 9 c && leb c 13

hex_pair : Option ℕ → Option ℕ → Result ℕ
hex_pair (some h) (some l) = ok (h * 16 + l)
hex_pair _ _ = err (value_error "non-hexadecimal number found in fromhex() arg")

-- bytes.fromhex(text) on the code points of the text; white space may stand between two bytes.
unfoldable pub from_hex : List ℕ → Result Bytes
unfolding hex_value is_space hex_pair
from_hex [] = ok []
from_hex (a ∷ []) = if is_space a then ok [] else hex_pair none none >>= λ b. ok (b ∷ [])
from_hex (a ∷ b ∷ s) =
    let skipped = from_hex (b ∷ s) in
    let rest = from_hex s in
    if is_space a
    then skipped
    else hex_pair (hex_value a) (hex_value b) >>= λ n. rest >>= λ bs. ok (n ∷ bs)

pub big_endian : ℕ → ℕ → Bytes
big_endian zero n = []
big_endian (suc k) n = big_endian k (n / 256) ++ n % 256 ∷ []

-- n.to_bytes(k, "big")
unfoldable pub to_bytes : ℕ → ℕ → Result Bytes
unfolding big_endian
to_bytes k n =
    if ltb n (256 ^ k) then ok (big_endian k n) else err (overflow_error "int too big to convert")

bytes_example : (hex (0 ∷ 255 ∷ 26 ∷ []) ≡ "00ff1a") × (to_bytes 2 258 ≡ ok (1 ∷ 2 ∷ []))
unfolding hex to_bytes
bytes_example = (refl, refl)
