-- ===== src/Drive/Table/Walk.antt =====
-- Where the loops of a table go: from slot to slot around the ring (accounts-drive/js/src/drive.ts,
-- `#displacement`, `#insert` and `#remove`).
use native.Mathlib.Nat.{
  add-mod-mod, mod-add-mod, add-mod_right, mod-eq_of_lt, mod-eq-sub-mod, mod-lt, mul-le-mul_left,
  mul-suc,
}
use op_cartesi.Base.{
  ℕ, suc, ◌+◌, ◌-◌, ◌*◌, ◌%◌, ◌≤◌, ◌<◌, ◌≡◌, sym, ap, ◌∙◌, ◌≢◌, ◌⊎◌, inl, inr, arith,
}
use op_cartesi.Bytes.{Bytes}
use op_cartesi.Drive.Table.{home, displacement, Table}

leb-cases : (a b : ℕ) → (a ≤ b) ⊎ (b < a)
leb-cases a b = ground arith

lt-cases : (i j : ℕ) → i ≢ j → (i < j) ⊎ (j < i)
lt-cases i j h = ground arith

pub home-lt :
    (keccak256 : Bytes → Bytes) (seed key : Bytes) (cap : ℕ)
    → 0 < cap
    → home keccak256 seed key cap < cap
unfolding home
home-lt keccak256 seed key cap h = mod-lt _ h

-- From `from`, the distance to `at` around the ring leads to `at`.
pub around : (from at cap : ℕ) → from < cap → at < cap → (from + (at + cap - from) % cap) % cap ≡ at
around from at cap hf ha =
    let e : from + (at + cap - from) ≡ at + cap = omega arith in
    add-mod-mod from (at + cap - from) cap
    ∙ ap (λ (x : ℕ). x % cap) e
    ∙ add-mod_right at cap
    ∙ mod-eq_of_lt ha

-- The slot after.
pub next_slot : (h dist cap : ℕ) → (h + (dist + 1)) % cap ≡ ((h + dist) % cap + 1) % cap
next_slot h dist cap =
    let e : h + (dist + 1) ≡ h + dist + 1 = omega arith in
    ap (λ (x : ℕ). x % cap) e ∙ sym (mod-add-mod (h + dist) cap 1)

-- `k` slots after the next one are `k + 1` slots after this one.
pub next_distance : (i k cap : ℕ) → ((i + 1) % cap + k) % cap ≡ (i + suc k) % cap
next_distance i k cap =
    let e : i + 1 + k ≡ i + suc k = omega arith in
    mod-add-mod (i + 1) cap k ∙ ap (λ (x : ℕ). x % cap) e

-- Less than a whole turn away is elsewhere.
pub elsewhere : (i k cap : ℕ) → i < cap → suc k < cap → (i + suc k) % cap ≢ i
elsewhere i k cap hi hk = elim (leb-cases cap (i + suc k)) [
  | inl wraps ↦ λ e.
      let short : i + suc k - cap < cap = omega arith in
      let back = sym (mod-eq_of_lt short) ∙ sym (mod-eq-sub-mod wraps) ∙ e in omega (arith, back)
  | inr stays ↦ λ e. let same = sym (mod-eq_of_lt stays) ∙ e in omega (arith, same)
]

-- Two slots of one table do not meet.
pub slots_apart :
    (base size i j : ℕ)
    → i ≢ j
    → (base + size * i + size ≤ base + size * j) ⊎ (base + size * j + size ≤ base + size * i)
slots_apart base size i j h = elim (lt-cases i j h) [
  | inl below ↦ inl (omega (arith, mul-le-mul_left size below, mul-suc size i))
  | inr above ↦ inr (omega (arith, mul-le-mul_left size above, mul-suc size j))
]

pub slot_inside : (base size i cap : ℕ) → i < cap → base + size * i + size ≤ base + size * cap
slot_inside base size i cap h = omega (arith, mul-le-mul_left size h, mul-suc size i)

pub displacement-lt :
    (keccak256 : Bytes → Bytes) (seed : Bytes) (t : Table) (slot : Bytes) (at : ℕ)
    → 0 < t.capacity
    → displacement keccak256 seed t slot at < t.capacity
unfolding displacement
displacement-lt keccak256 seed t slot at h = mod-lt _ h

-- A live record's home and displacement give the slot where it stands.
pub home-displacement :
    (keccak256 : Bytes → Bytes) (seed : Bytes) (t : Table) (slot : Bytes) (at : ℕ)
    → at < t.capacity
    → (home keccak256 seed (t.key_of slot) t.capacity + displacement keccak256 seed t slot at)
        % t.capacity
      ≡ at
unfolding displacement
home-displacement keccak256 seed t slot at h =
    around (home keccak256 seed (t.key_of slot) t.capacity) at t.capacity
      (home-lt keccak256 seed (t.key_of slot) t.capacity (omega (arith, h))) h
