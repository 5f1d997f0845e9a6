-- ===== src/Bytes/Hex/RoundTrip.antt =====
-- Hex text and back (accounts-drive/js/src/drive.ts, `bytesToHex` and `hexToBytes`).
use op_cartesi.Base.{
  ℕ, ◌*◌, ◌/◌, ◌%◌, ◌<◌, ◌≡◌, refl, ap, Bool, true, false, ◌&&◌, ◌||◌, [], ◌∷◌, arith, ◌==◌,
  if◌then◌else◌, length, ok,
}
use op_cartesi.Bytes.{Bytes}
use op_cartesi.Bytes.Hex.{
  is_hex_digit, all_hex, digit_value, pairs, strip_prefix, hex_to_bytes, digit, bytes_to_hex,
}

-- Every element is a byte.
pub data AreBytes : Bytes → Type 0 where
  no_byte : AreBytes []
  byte_first : {b : ℕ} {bs : Bytes} → b < 256 → AreBytes bs → AreBytes (b ∷ bs)

digit_value-digit : (v : ℕ) → v < 16 → digit_value (digit v) ≡ v
unfolding digit_value digit
digit_value-digit v h = ground arith

digit-is_hex : (v : ℕ) → v < 16 → is_hex_digit (digit v) ≡ true
unfolding is_hex_digit digit
digit-is_hex v h = ground arith

digit-not_x : (v : ℕ) → v < 16 → ((digit v == b'x') || (digit v == b'X')) ≡ false
unfolding digit
digit-not_x v h = ground arith

length-bytes_to_hex : (bs : Bytes) → length (bytes_to_hex bs) ≡ 2 * length bs
unfolding bytes_to_hex
length-bytes_to_hex [] = refl
length-bytes_to_hex (b ∷ bs) = omega (arith, length-bytes_to_hex bs)

all_hex-bytes_to_hex : {bs : Bytes} → AreBytes bs → all_hex (bytes_to_hex bs) ≡ true
unfolding all_hex bytes_to_hex
all_hex-bytes_to_hex no_byte = refl
all_hex-bytes_to_hex (byte_first {b = b} h bs) =
    rw (digit-is_hex (b / 16) (omega arith), digit-is_hex (b % 16) (omega arith))
      (all_hex-bytes_to_hex bs)

pairs-bytes_to_hex : {bs : Bytes} → AreBytes bs → pairs (bytes_to_hex bs) ≡ bs
unfolding pairs bytes_to_hex
pairs-bytes_to_hex no_byte = refl
pairs-bytes_to_hex (byte_first {b = b} {bs = rest} h bs) =
    rw
      (
        digit_value-digit (b / 16) (omega arith),
        digit_value-digit (b % 16) (omega arith),
        pairs-bytes_to_hex bs,
      )
      (ap (λ (x : ℕ). x ∷ rest) (omega arith))

if_and_false : (b : Bool) (x y : Bytes) → (if b && false then x else y) ≡ y
if_and_false true x y = refl
if_and_false false x y = refl

double_is_even : (n : ℕ) → (2 * n % 2 == 0) ≡ true
double_is_even n = ground arith

strip_prefix-bytes_to_hex :
    {bs : Bytes} → AreBytes bs → strip_prefix (bytes_to_hex bs) ≡ bytes_to_hex bs
unfolding strip_prefix bytes_to_hex
strip_prefix-bytes_to_hex no_byte = refl
strip_prefix-bytes_to_hex (byte_first {b = b} h bs) =
    rw (digit-not_x (b % 16) (omega arith)) (if_and_false (digit (b / 16) == b'0') _ _)

-- The hex text of a list of bytes below 256 parses back to that list.
pub hex_to_bytes-bytes_to_hex : (bs : Bytes) → AreBytes bs → hex_to_bytes (bytes_to_hex bs) ≡ ok bs
unfolding hex_to_bytes
hex_to_bytes-bytes_to_hex bs h =
    rw
      (
        strip_prefix-bytes_to_hex h,
        all_hex-bytes_to_hex h,
        pairs-bytes_to_hex h,
        length-bytes_to_hex bs,
      )
      (rw (double_is_even (length bs)) refl)
