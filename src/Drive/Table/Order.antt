-- ===== src/Drive/Table/Order.antt =====
-- The order of a Robin Hood table (accounts-drive/js/src/drive.ts, `#insert`), as a function from
-- slots to their bytes: a record away from its home has a record before it that is as far away from
-- its own, or but one less.
use native.Mathlib.Nat.{mod-lt, mod-eq_of_lt, mod_self}
use mathlib.Core.Path.{subst}
use op_cartesi.Base.{
  ℕ, zero, suc, ◌+◌, ◌-◌, ◌%◌, ◌≤◌, ◌<◌, ◌≡◌, sym, ap, ◌∙◌, ◌⊎◌, inl, inr, true, arith, ltb, ltb→lt,
  ltb_false→le, Bool-cases,
}
use op_cartesi.Bytes.{Bytes, bytes_equal}
use op_cartesi.Drive.Table.{live, home, displacement, Table}
use op_cartesi.Drive.Table.Walk.{next_slot}

abbrev pub next_of : ℕ → ℕ → ℕ
next_of cap i = (i + 1) % cap

next_cases :
    (cap i : ℕ)
    → i < cap
    → ((i + 1 < cap) × (next_of cap i ≡ i + 1)) ⊎ ((i + 1 ≡ cap) × (next_of cap i ≡ 0))
next_cases cap i h = elim (Bool-cases (ltb (i + 1) cap)) [
  | inl e ↦ inl (ltb→lt (i + 1) cap e, mod-eq_of_lt (ltb→lt (i + 1) cap e))
  | inr e ↦
      let last : i + 1 ≡ cap = omega (arith, ltb_false→le (i + 1) cap e, h) in
      inr (last, ap (λ (n : ℕ). n % cap) last ∙ mod_self cap)
]

-- Two slots have the same next one only if they are the same.
pub next_of-injective : (cap i j : ℕ) → i < cap → j < cap → next_of cap i ≡ next_of cap j → i ≡ j
next_of-injective cap i j hi hj e = elim (next_cases cap i hi) [
  | inl (ib, ie) ↦ elim (next_cases cap j hj) [
    | inl (jb, je) ↦ omega (arith, ie, je, e)
    | inr (jl, je) ↦ absurd (omega (arith, ie, je, e))
  ]
  | inr (il, ie) ↦ elim (next_cases cap j hj) [
    | inl (jb, je) ↦ absurd (omega (arith, ie, je, e))
    | inr (jl, je) ↦ omega (arith, il, jl)
  ]
]

module _ (keccak256 : Bytes → Bytes) (seed : Bytes) (t : Table) where
  abbrev pub distance : (ℕ → Bytes) → ℕ → ℕ
  distance f i = displacement keccak256 seed t (f i) i

  abbrev pub home_of : Bytes → ℕ
  home_of r = home keccak256 seed (t.key_of r) t.capacity

  -- A record at the distance `dist` may stand at the slot `i`: before it is one no nearer to its home
  -- but by one.
  pub record MayStand (f : ℕ → Bytes) (i dist : ℕ) : Type 0 where
    pub before :
        (k p : ℕ)
        → dist ≡ suc k
        → p < t.capacity
        → next_of t.capacity p ≡ i
        → (live t (f p) ≡ true) × (k ≤ distance f p)

  pub record Ordered (f : ℕ → Bytes) : Type 0 where
    pub stands : (i : ℕ) → i < t.capacity → live t (f i) ≡ true → MayStand f i (distance f i)

  -- No two live slots have one key.
  pub record Distinct (f : ℕ → Bytes) : Type 0 where
    pub once :
        (i j : ℕ)
        → i < t.capacity
        → j < t.capacity
        → live t (f i) ≡ true
        → live t (f j) ≡ true
        → bytes_equal (t.key_of (f i)) (t.key_of (f j)) ≡ true
        → i ≡ j

  -- From a record at its distance back to its home, every slot is live, and no record on the way is
  -- nearer to its home than the way is long.
  pub way_back :
      (f : ℕ → Bytes) (h d m : ℕ)
      → 0 < t.capacity
      → Ordered f
      → live t (f ((h + (d + m)) % t.capacity)) ≡ true
      → d + m ≤ distance f ((h + (d + m)) % t.capacity)
      → (live t (f ((h + d) % t.capacity)) ≡ true) × (d ≤ distance f ((h + d) % t.capacity))
  way_back f h d zero pos o there far =
      let e : d + 0 ≡ d = omega arith in
      subst
        (λ (n : ℕ).
          (live t (f ((h + n) % t.capacity)) ≡ true) × (n ≤ distance f ((h + n) % t.capacity)))
        e (there, far)
  way_back f h d (suc m) pos o there far =
      let cap = t.capacity in
      let q = (h + (d + suc m)) % cap in
      let p = (h + (d + m)) % cap in
      let longer : d + suc m ≡ d + m + 1 = omega arith in
      let follows : next_of cap p ≡ q =
        sym (next_slot h (d + m) cap) ∙ ap (λ (n : ℕ). (h + n) % cap) (sym longer) in
      let some_way : distance f q ≡ suc (distance f q - 1) = omega (arith, far) in
      let (live_before, far_before) =
        (o.stands q (mod-lt (h + (d + suc m)) pos) there).before (distance f q - 1) p some_way
          (mod-lt (h + (d + m)) pos) follows in
      way_back f h d m pos o live_before (omega (arith, far, far_before))
