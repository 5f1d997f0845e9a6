-- ===== src/Bytes.antt =====
-- Byte arrays (accounts-drive/js/src/drive.ts, the helpers), as lists of numbers below 256.
pub mod Codec
pub mod Hex
pub mod Equal
pub mod Splice
use op_cartesi.Base.{
  ℕ, zero, suc, ◌+◌, ◌*◌, ◌/◌, ◌%◌, ◌^◌, Bool, true, false, ◌&&◌, List, [], ◌∷◌, ltb, ◌==◌,
  if◌then◌else◌, take, drop, overflow, drive, Result, ok, err,
}

abbrev pub Bytes : Type 0
Bytes = List ℕ

-- `b.subarray(off, off + n)` and `b.slice(off, off + n)`
abbrev pub slice : ℕ → ℕ → Bytes → Bytes
slice off n b = take n (drop off b)

abbrev pub overlay : Bytes → Bytes → Bytes
overlay [] b = b
overlay (v ∷ vs) [] = []
overlay (v ∷ vs) (x ∷ b) = v ∷ overlay vs b

-- `b.set(vs, off)`, for a range that lies in `b`
abbrev pub splice : ℕ → Bytes → Bytes → Bytes
splice zero vs b = overlay vs b
splice (suc off) vs [] = []
splice (suc off) vs (x ∷ b) = x ∷ splice off vs b

unfoldable pub is_zero : Bytes → Bool
is_zero [] = true
is_zero (x ∷ b) = (x == 0) && is_zero b

unfoldable pub bytes_equal : Bytes → Bytes → Bool
bytes_equal [] [] = true
bytes_equal [] (y ∷ b) = false
bytes_equal (x ∷ a) [] = false
bytes_equal (x ∷ a) (y ∷ b) = (x == y) && bytes_equal a b

-- The loop of `readBE` from the value so far; `(v << 8n) | b` is `v * 256 + b` for a byte `b`.
abbrev read_be_from : ℕ → Bytes → ℕ
read_be_from v [] = v
read_be_from v (b ∷ bs) = read_be_from (v * 256 + b) bs

unfoldable pub read_be : Bytes → ℕ
read_be = read_be_from 0

-- The loop of `putBE`: from the last byte to the first.
abbrev pub fill_be : ℕ → ℕ → Bytes → Bytes
fill_be zero v done = done
fill_be (suc n) v done = fill_be n (v / 256) ((v % 256) ∷ done)

-- `putBE(buf, v)` for a buffer of `n` bytes: its new contents.
unfoldable pub put_be : ℕ → ℕ → Result Bytes
put_be n v = if ltb v (256 ^ n) then ok (fill_be n v []) else err (drive overflow)

-- `getBigUint64`, `getUint32` and `getUint8` over the bytes that they read.
unfoldable pub get_le : Bytes → ℕ
get_le [] = 0
get_le (b ∷ bs) = b + 256 * get_le bs

-- `setBigUint64` and `setUint32`, which keep a value's low `8 * n` bits.
unfoldable pub put_le : ℕ → ℕ → Bytes
put_le zero v = []
put_le (suc n) v = (v % 256) ∷ put_le n (v / 256)
