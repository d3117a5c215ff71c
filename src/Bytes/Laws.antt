-- ===== src/Bytes/Laws.antt =====
-- Reading back what `hex` and `to_bytes` write.
use native.Mathlib.Nat.{pow-suc}
use agentrust_telemetry.Base.{
  ℕ, zero, suc, ◌+◌, ◌*◌, ◌/◌, ◌%◌, ◌^◌, ◌<◌, ◌≡◌, refl, sym, ap, ◌∙◌, Bool, true, false, ◌&&◌,
  code, List, [], ◌∷◌, ◌++◌, Option, none, some, ◌==◌, if◌then◌else◌, length, All, arith,
  length-append, ==_iff,
}
use agentrust_telemetry.Base.Outcome.{ok, ◌>>=◌}
use agentrust_telemetry.Value.Words.{codes}
use agentrust_telemetry.Bytes.{
  Bytes, IsByte, hex, hex_char, hex_value, is_space, hex_pair, from_hex, big_endian, to_bytes,
}

-- a test that holds of every number under a bound
unfoldable pub holds_under : (ℕ → Bool) → ℕ → Bool
holds_under test (suc bound) = holds_under test bound && test bound
holds_under test zero = true

pub holds_under_at :
    (test : ℕ → Bool) (bound : ℕ) {i : ℕ}
    → holds_under test bound ≡ true
    → i < bound
    → test i ≡ true
unfolding holds_under
holds_under_at test (suc bound) {i} h below = ground (arith, holds_under_at test bound {i = i})
holds_under_at test zero h below = absurd (omega arith)

is_value : Option ℕ → ℕ → Bool
is_value none n = false
is_value (some m) n = m == n

is_value_sound : (o : Option ℕ) (n : ℕ) → is_value o n ≡ true → o ≡ some n
unfolding is_value
is_value_sound none n h = cc
is_value_sound (some m) n h = ap some ((==_iff m n).0 h)

hex_table : holds_under (λ n. is_value (hex_value (code (hex_char n))) n) 16 ≡ true
unfolding holds_under is_value hex_value hex_char
hex_table = refl

hex_value-hex_char : (n : ℕ) → n < 16 → hex_value (code (hex_char n)) ≡ some n
hex_value-hex_char n h =
    is_value_sound _ n
      (holds_under_at (λ k. is_value (hex_value (code (hex_char k))) k) 16 hex_table h)

space_table : holds_under (λ n. if is_space (code (hex_char n)) then false else true) 16 ≡ true
unfolding holds_under is_space hex_char
space_table = refl

is_space-hex_char : (n : ℕ) → n < 16 → is_space (code (hex_char n)) ≡ false
is_space-hex_char n h =
    let t =
      holds_under_at (λ k. if is_space (code (hex_char k)) then false else true) 16 space_table h in
    ground arith

from_hex_pair :
    (a b : ℕ) (s : List ℕ) (x y : ℕ)
    → is_space a ≡ false
    → hex_value a ≡ some x
    → hex_value b ≡ some y
    → from_hex (a ∷ b ∷ s) ≡ (from_hex s >>= λ bs. ok ((x * 16 + y) ∷ bs))
unfolding from_hex
from_hex_pair a b s x y plain high low = rw (plain, high, low, hex_pair)

-- Reading the hexadecimal text of some bytes gives the bytes.
pub from_hex-hex : (bs : Bytes) → All IsByte bs → from_hex (codes (hex bs)) ≡ ok bs
unfolding hex
from_hex-hex [] h = unfold from_hex in refl
from_hex-hex (b ∷ bs) (lt, h) =
    rw
      (from_hex_pair _ _ (codes (hex bs)) (b / 16) (b % 16)
        (is_space-hex_char (b / 16) (omega arith)) (hex_value-hex_char (b / 16) (omega arith))
        (hex_value-hex_char (b % 16) (omega arith)))
      (rw (from_hex-hex bs h) (ap (λ n. ok (n ∷ bs)) (omega arith)))

-- the number that some bytes stand for
from_bytes : ℕ → Bytes → ℕ
from_bytes n [] = n
from_bytes n (b ∷ bs) = from_bytes (n * 256 + b) bs

from_bytes-append :
    (n : ℕ) (bs : Bytes) (b : ℕ) → from_bytes n (bs ++ b ∷ []) ≡ from_bytes n bs * 256 + b
unfolding from_bytes
from_bytes-append n [] b = refl
from_bytes-append n (c ∷ bs) b = from_bytes-append (n * 256 + c) bs b

from_bytes-big_endian : (k n : ℕ) → n < 256 ^ k → from_bytes 0 (big_endian k n) ≡ n
unfolding from_bytes big_endian
from_bytes-big_endian zero n h = omega arith
from_bytes-big_endian (suc k) n h =
    let low : n / 256 < 256 ^ k = omega (arith, pow-suc 256 k) in
    from_bytes-append 0 (big_endian k (n / 256)) (n % 256)
    ∙ omega (arith, from_bytes-big_endian k (n / 256) low)

pub to_bytes-ok : (k n : ℕ) → n < 256 ^ k → to_bytes k n ≡ ok (big_endian k n)
unfolding to_bytes
to_bytes-ok k n h = ground arith

to_bytes-eq-ok :
    (k n : ℕ) (bs : Bytes) → to_bytes k n ≡ ok bs → (n < 256 ^ k) × (big_endian k n ≡ bs)
unfolding to_bytes
to_bytes-eq-ok k n bs h = ground arith

-- Two numbers that fit in k bytes and have the same k bytes are equal.
pub to_bytes-injective :
    (k m n : ℕ) (bs : Bytes) → to_bytes k m ≡ ok bs → to_bytes k n ≡ ok bs → m ≡ n
to_bytes-injective k m n bs p q =
    let (fits_m, bytes_m) = to_bytes-eq-ok k m bs p in
    let (fits_n, bytes_n) = to_bytes-eq-ok k n bs q in
    sym (from_bytes-big_endian k m fits_m)
    ∙ ap (from_bytes 0) (bytes_m ∙ sym bytes_n)
    ∙ from_bytes-big_endian k n fits_n

length-big_endian : (k n : ℕ) → length (big_endian k n) ≡ k
unfolding big_endian
length-big_endian zero n = refl
length-big_endian (suc k) n =
    omega
      (arith, length-append (big_endian k (n / 256)) (n % 256 ∷ []), length-big_endian k (n / 256))

pub length-to_bytes : (k n : ℕ) (bs : Bytes) → to_bytes k n ≡ ok bs → length bs ≡ k
length-to_bytes k n bs p = ap length (sym (to_bytes-eq-ok k n bs p).1) ∙ length-big_endian k n
