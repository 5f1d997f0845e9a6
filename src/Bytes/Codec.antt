-- ===== src/Bytes/Codec.antt =====
-- Reading after writing (accounts-drive/js/src/drive.ts, `putBE`, `readBE`, `getLE64`).
use native.Mathlib.Nat.{
  pow-succ', one-le-pow, mod-lt, mod-add-div, add-mul-mod_self_left, mod-eq_of_lt,
}
use op_cartesi.Base.{
  ℕ, zero, suc, ◌+◌, ◌*◌, ◌/◌, ◌%◌, ◌^◌, ◌≤◌, ◌<◌, ◌≡◌, refl, sym, ap, ◌∙◌, [], ◌∷◌, arith, lt→ltb,
  length, overflow, drive, ok, err,
}
use op_cartesi.Bytes.{Bytes, read_be_from, read_be, fill_be, put_be, get_le, put_le}

pub length-put_le : (n v : ℕ) → length (put_le n v) ≡ n
unfolding put_le
length-put_le zero v = refl
length-put_le (suc n) v = ap suc (length-put_le n (v / 256))

digits_mod : (P v : ℕ) → 0 < P → v % 256 + 256 * (v / 256 % P) ≡ v % (256 * P)
digits_mod P v h =
    let low = v % 256 + 256 * (v / 256 % P) in
    let q = v / 256 / P in
    let r-lt : v / 256 % P < P = mod-lt (v / 256) h in
    let split : low + 256 * P * q ≡ v =
      omega (arith, ap (λ (t : ℕ). 256 * t) (mod-add-div (v / 256) P)) in
    sym (
      ap (λ (t : ℕ). t % (256 * P)) (sym split)
      ∙ add-mul-mod_self_left low (256 * P) q
      ∙ mod-eq_of_lt (omega arith))

-- A stored word reads back as its value modulo the word's size.
pub get_le-put_le : (n v : ℕ) → get_le (put_le n v) ≡ v % 256 ^ n
unfolding put_le get_le
get_le-put_le zero v = omega arith
get_le-put_le (suc n) v =
    rw (get_le-put_le n (v / 256), pow-succ' 256 n)
      (digits_mod (256 ^ n) v (one-le-pow n 256 (omega arith)))

pub length-fill_be : (n v : ℕ) (done : Bytes) → length (fill_be n v done) ≡ n + length done
length-fill_be zero v done = omega arith
length-fill_be (suc n) v done = omega (arith, length-fill_be n (v / 256) ((v % 256) ∷ done))

pub read_be_from-fill_be :
    (n v a : ℕ) (done : Bytes)
    → v < 256 ^ n
    → read_be_from a (fill_be n v done) ≡ read_be_from (a * 256 ^ n + v) done
read_be_from-fill_be zero v a done h = ap (λ (k : ℕ). read_be_from k done) (omega arith)
read_be_from-fill_be (suc n) v a done h =
    let e : 256 ^ suc n ≡ 256 * 256 ^ n = pow-succ' 256 n in
    read_be_from-fill_be n (v / 256) a ((v % 256) ∷ done) (omega arith)
    ∙ ap (λ (k : ℕ). read_be_from k done) (omega (arith, ap (λ (t : ℕ). a * t) e))

-- A value below 256 ^ n is written in n big-endian bytes, which read back as the value.
pub read_be-put_be :
    (n v : ℕ) → v < 256 ^ n → (r : Bytes) × (put_be n v ≡ ok r) × (read_be r ≡ v) × (length r ≡ n)
unfolding put_be read_be
read_be-put_be n v h = (
  fill_be n v [],
  rw (lt→ltb v (256 ^ n) h),
  read_be_from-fill_be n v 0 [] h ∙ omega arith,
  omega (arith, length-fill_be n v []),
)

-- `putBE` refuses exactly the values that do not fit.
pub put_be-overflow : (n v : ℕ) → 256 ^ n ≤ v → put_be n v ≡ err (drive overflow)
unfolding put_be
put_be-overflow n v h = ground arith
