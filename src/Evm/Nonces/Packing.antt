-- ===== src/Evm/Nonces/Packing.antt =====
-- The numbers that the packed nonces stand for (evm-compat/js/src/withdrawal.ts, crossdomain.ts).
use op_cartesi.Evm.Nonces.{
  versioned_withdrawal_nonce, encode_versioned_nonce, decode_versioned_nonce,
}
use Prim.Native.Nat.{bit_or, bit_or-bitwise, digits, max}
use native.Mathlib.Nat.{pow-succ', one-le-pow}
use op_cartesi.Base.{
  ℕ, zero, suc, ◌+◌, ◌*◌, ◌/◌, ◌%◌, ◌^◌, ◌≤◌, ◌<◌, ◌≡◌, refl, sym, ap, ◌∙◌, some, arith,
  lt→leb_false,
}
use mathlib.Core.Option.{some-injective}

-- The lowest digit of an alternative of two numbers, by the definition that the operation has.
or_digits-fuel :
    (n m a b : ℕ) → a ≤ n → a ≤ m → digits (λ b. b) max n a b ≡ digits (λ b. b) max m a b
or_digits-fuel zero zero a b h k = refl
or_digits-fuel zero (suc m) zero b h k = refl
or_digits-fuel (suc n) zero zero b h k = refl
or_digits-fuel (suc n) (suc m) zero b h k = refl
or_digits-fuel zero m (suc a) b h k = absurd (omega arith)
or_digits-fuel (suc n) zero (suc a) b h k = absurd (omega arith)
or_digits-fuel (suc n) (suc m) (suc a) b h k =
    omega (arith, or_digits-fuel n m (suc a / 2) (b / 2) (omega arith) (omega arith))

bit_or-digit : (a b : ℕ) → 0 < a → bit_or a b ≡ bit_or (a / 2) (b / 2) * 2 + max (a % 2) (b % 2)
bit_or-digit zero b h = absurd (omega arith)
bit_or-digit (suc a) b h = omega (
  arith,
  bit_or-bitwise (suc a) b,
  bit_or-bitwise (suc a / 2) (b / 2),
  or_digits-fuel a (suc a / 2) (suc a / 2) (b / 2) (omega arith) (omega arith),
)

zero-bit_or : (b : ℕ) → bit_or 0 b ≡ b
zero-bit_or b = bit_or-bitwise 0 b

bit_or-zero_fuel : (n a : ℕ) → a ≤ n → bit_or a 0 ≡ a
bit_or-zero_fuel n zero h = zero-bit_or 0
bit_or-zero_fuel zero (suc a) h = absurd (omega arith)
bit_or-zero_fuel (suc n) (suc a) h =
    omega
      (arith, bit_or-digit (suc a) 0 (omega arith), bit_or-zero_fuel n (suc a / 2) (omega arith))

-- Digits that do not meet add up.
pub bit_or-shifted : (k x y : ℕ) → y < 2 ^ k → bit_or (x * 2 ^ k) y ≡ x * 2 ^ k + y
bit_or-shifted zero x y h =
    let whole : x * 2 ^ 0 ≡ x = omega arith in
    let none_left : y ≡ 0 = omega arith in
    rw (whole, none_left) (omega (arith, bit_or-zero_fuel x x (omega arith)))
bit_or-shifted (suc k) zero y h =
    (let nothing : 0 * 2 ^ suc k ≡ 0 = omega arith in rw nothing (omega (arith, zero-bit_or y)))
bit_or-shifted (suc k) (suc x) y h =
    let double : suc x * 2 ^ suc k ≡ 2 * (suc x * 2 ^ k) =
      omega (arith, ap (λ (t : ℕ). suc x * t) (pow-succ' 2 k)) in
    let some_bit : 0 < suc x * 2 ^ k = omega (arith, one-le-pow k 2 (omega arith)) in
    let half : suc x * 2 ^ suc k / 2 ≡ suc x * 2 ^ k = omega arith in
    let small : y / 2 < 2 ^ k = omega (arith, pow-succ' 2 k) in
    bit_or-digit (suc x * 2 ^ suc k) y (omega arith)
    ∙ rw (half) (omega (arith, bit_or-shifted k (suc x) (y / 2) small))

-- The number that a withdrawal's nonce stands for
versioned_withdrawal_nonce_lem :
    (i o : ℕ)
    → i < 2 ^ 208
    → o < 2 ^ 32
    → versioned_withdrawal_nonce i o ≡ some (2 ^ 240 + i * 2 ^ 32 + o)
unfolding versioned_withdrawal_nonce
versioned_withdrawal_nonce_lem i o h k =
    let high : bit_or (2 ^ 240) (i * 2 ^ 32) ≡ (2 ^ 208 + i) * 2 ^ 32 =
      bit_or-shifted 240 1 (i * 2 ^ 32) (omega arith) ∙ omega arith in
    let low : bit_or ((2 ^ 208 + i) * 2 ^ 32) o ≡ 2 ^ 240 + i * 2 ^ 32 + o =
      bit_or-shifted 32 (2 ^ 208 + i) o k ∙ omega arith in
    rw (lt→leb_false o (2 ^ 32) k, high, low) refl

-- For input indices below 2 ^ 208 and ordinals below 2 ^ 32, two withdrawals with the same
-- nonce have the same input index and the same ordinal.
pub versioned_withdrawal_nonce-injective :
    (i o j p : ℕ)
    → i < 2 ^ 208
    → o < 2 ^ 32
    → j < 2 ^ 208
    → p < 2 ^ 32
    → versioned_withdrawal_nonce i o ≡ versioned_withdrawal_nonce j p
    → (i ≡ j) × (o ≡ p)
versioned_withdrawal_nonce-injective i o j p hi ho hj hp e =
    let same : 2 ^ 240 + i * 2 ^ 32 + o ≡ 2 ^ 240 + j * 2 ^ 32 + p = some-injective _ _ (
      sym (versioned_withdrawal_nonce_lem i o hi ho)
      ∙ e
      ∙ versioned_withdrawal_nonce_lem j p hj hp) in
    (omega arith, omega arith)

-- A nonce below 2 ^ 240, packed with a version, decodes to that nonce and that version.
pub decode-encode_versioned_nonce :
    (nonce version : ℕ)
    → nonce < 2 ^ 240
    → decode_versioned_nonce (encode_versioned_nonce nonce version) ≡ (nonce, version)
unfolding decode_versioned_nonce encode_versioned_nonce
decode-encode_versioned_nonce nonce version h =
    let packed = bit_or-shifted 240 version nonce h in
    let low : (version * 2 ^ 240 + nonce) % 2 ^ 240 ≡ nonce = omega arith in
    let high : (version * 2 ^ 240 + nonce) / 2 ^ 240 ≡ version = omega arith in
    rw packed (λ i. (low i, high i))
