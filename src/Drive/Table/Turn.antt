-- ===== src/Drive/Table/Turn.antt =====
-- How far an insertion goes in an ordered table with a free slot, and whose keys are in it
-- (accounts-drive/js/src/drive.ts, `#insert`).
use mathlib.Core.Path.{subst}
use native.Mathlib.Nat.{mod-lt, mod-eq_of_lt, mod-eq-sub-mod, add-mod_right, mod-add-mod}
use op_cartesi.Base.{
  ℕ, ◌+◌, ◌-◌, ◌%◌, ◌≤◌, ◌<◌, ◌≡◌, sym, ap, ◌∙◌, inl, inr, true, false, arith, ltb, ltb→lt,
  ltb_false→le, Bool-cases,
}
use op_cartesi.Bytes.{Bytes, bytes_equal}
use op_cartesi.Bytes.Equal.{eq_of_bytes_equal, bytes_equal_iff}
use op_cartesi.Drive.Table.{live, displacement, Table}
use op_cartesi.Drive.Table.Walk.{home-lt, around, home-displacement}
use op_cartesi.Drive.Table.Order.{next_of, distance, home_of, way_back, MayStand, Ordered, Distinct}
use op_cartesi.Drive.Table.Shift.{put, put_self, put_other, same_or_not}

bytes_equal_flip : (a b : Bytes) → bytes_equal a b ≡ false → bytes_equal b a ≡ false
bytes_equal_flip a b h = elim (Bool-cases (bytes_equal b a)) [
  | inl e ↦
      let same : bytes_equal a b ≡ true = (bytes_equal_iff a b).1 (sym (eq_of_bytes_equal b a e)) in
      absurd cc
  | inr e ↦ e
]

-- The slot before.
slot_before : (cap i : ℕ) → i < cap → next_of cap ((i + (cap - 1)) % cap) ≡ i
slot_before cap i h =
    let e : i + (cap - 1) + 1 ≡ i + cap = omega (arith, h) in
    mod-add-mod (i + (cap - 1)) cap 1
    ∙ ap (λ (n : ℕ). n % cap) e
    ∙ add-mod_right i cap
    ∙ mod-eq_of_lt h

displaced : (h dist cap : ℕ) → h < cap → dist < cap → ((h + dist) % cap + cap - h) % cap ≡ dist
displaced h dist cap hh hd = elim (Bool-cases (ltb (h + dist) cap)) [
  | inl e ↦
      let stays = mod-eq_of_lt (ltb→lt (h + dist) cap e) in
      let sum : h + dist + cap - h ≡ dist + cap = omega arith in
      ap (λ (n : ℕ). (n + cap - h) % cap) stays
      ∙ ap (λ (n : ℕ). n % cap) sum
      ∙ add-mod_right dist cap
      ∙ mod-eq_of_lt hd
  | inr e ↦
      let over = ltb_false→le (h + dist) cap e in
      let short : h + dist - cap < cap = omega (arith, hh, hd) in
      let wraps : (h + dist) % cap ≡ h + dist - cap = mod-eq-sub-mod over ∙ mod-eq_of_lt short in
      let sum : h + dist - cap + cap - h ≡ dist = omega (arith, over) in
      ap (λ (n : ℕ). (n + cap - h) % cap) wraps ∙ ap (λ (n : ℕ). n % cap) sum ∙ mod-eq_of_lt hd
]

module _ (keccak256 : Bytes → Bytes) (seed : Bytes) (t : Table) where
  pub displacement_at :
      (r : Bytes) (dist : ℕ)
      → 0 < t.capacity
      → dist < t.capacity
      → displacement keccak256 seed t r ((home_of keccak256 seed t r + dist) % t.capacity) ≡ dist
  unfolding displacement
  displacement_at r dist pos short =
      displaced (home_of keccak256 seed t r) dist t.capacity
        (home-lt keccak256 seed (t.key_of r) t.capacity pos) short

  -- A record a whole turn from its home leaves no slot free.
  whole_turn :
      (f : ℕ → Bytes) (p q : ℕ)
      → Ordered keccak256 seed t f
      → p < t.capacity
      → q < t.capacity
      → live t (f p) ≡ true
      → t.capacity ≤ distance keccak256 seed t f p + 1
      → live t (f q) ≡ true
  whole_turn f p q o hp hq there far =
      let cap = t.capacity in
      let pos : 0 < cap = omega (arith, hp) in
      let h = home_of keccak256 seed t (f p) in
      let d = (q + cap - h) % cap in
      let turn = distance keccak256 seed t f p in
      let d_lt : d < cap = mod-lt _ pos in
      let sum : d + (turn - d) ≡ turn = omega (arith, d_lt, far) in
      let at : p ≡ (h + (d + (turn - d))) % cap =
        sym (home-displacement keccak256 seed t (f p) p hp)
        ∙ ap (λ (n : ℕ). (h + n) % cap) (sym sum) in
      let (l, near) =
        way_back keccak256 seed t f h d (turn - d) pos o
          (subst (λ (j : ℕ). live t (f j) ≡ true) at there)
          (subst (λ (j : ℕ). d + (turn - d) ≤ distance keccak256 seed t f j) at
            (omega (arith, sum))) in
      subst (λ (j : ℕ). live t (f j) ≡ true)
        (around h q cap (home-lt keccak256 seed (t.key_of (f p)) t.capacity pos) hq) l

  -- While a slot is free, nothing that may stand somewhere is a whole turn away.
  pub MayStand-lt :
      (f : ℕ → Bytes) (i dist q : ℕ)
      → Ordered keccak256 seed t f
      → i < t.capacity
      → q < t.capacity
      → live t (f q) ≡ false
      → MayStand keccak256 seed t f i dist
      → dist < t.capacity
  MayStand-lt f i dist q o hi hq free m = elim (Bool-cases (ltb dist t.capacity)) [
    | inl e ↦ ltb→lt dist t.capacity e
    | inr e ↦
        let cap = t.capacity in
        let long = ltb_false→le dist cap e in
        let pos : 0 < cap = omega (arith, hi) in
        let p = (i + (cap - 1)) % cap in
        let hp : p < cap = mod-lt _ pos in
        let (l, far) = m.before (dist - 1) p (omega (arith, long, pos)) hp (slot_before cap i hi) in
        let taken = whole_turn f p q o hp hq l (omega (arith, far, long, pos)) in absurd cc
  ]

  -- No live slot has the record's key.
  pub record IsNew (f : ℕ → Bytes) (r : Bytes) : Type 0 where
    pub other_key :
        (j : ℕ)
        → j < t.capacity
        → live t (f j) ≡ true
        → bytes_equal (t.key_of (f j)) (t.key_of r) ≡ false

  module _ (f : ℕ → Bytes) (i : ℕ) (r : Bytes) (inside : i < t.capacity)
      (u : Distinct keccak256 seed t f) (n : IsNew f r) where
    -- Of the keys of two slots after the put, one is that of the new record only at its slot.
    keys_put :
        (j k : ℕ)
        → j < t.capacity
        → k < t.capacity
        → live t (put f i r j) ≡ true
        → live t (put f i r k) ≡ true
        → bytes_equal (t.key_of (put f i r j)) (t.key_of (put f i r k)) ≡ true
        → j ≡ k
    keys_put j k hj hk lj lk e = elim (same_or_not j i) [
      | inl jh ↦ elim (same_or_not k i) [
        | inl kh ↦ jh ∙ sym kh
        | inr kt ↦
            let r_there : put f i r j ≡ r = ap (put f i r) jh ∙ put_self f i r in
            let k_there = put_other f i k r kt in
            let no =
              bytes_equal_flip (t.key_of (f k)) (t.key_of r)
                (n.other_key k hk (sym (ap (live t) k_there) ∙ lk)) in
            let yes_same : bytes_equal (t.key_of r) (t.key_of (f k)) ≡ true =
              sym (λ x. bytes_equal (t.key_of (r_there x)) (t.key_of (k_there x))) ∙ e in
            absurd cc
      ]
      | inr jt ↦
          let j_there = put_other f i j r jt in
          let lf : live t (f j) ≡ true = sym (ap (live t) j_there) ∙ lj in
          elim (same_or_not k i) [
            | inl kh ↦
                let r_there : put f i r k ≡ r = ap (put f i r) kh ∙ put_self f i r in
                let no = n.other_key j hj lf in
                let yes_same : bytes_equal (t.key_of (f j)) (t.key_of r) ≡ true =
                  sym (λ x. bytes_equal (t.key_of (j_there x)) (t.key_of (r_there x))) ∙ e in
                absurd cc
            | inr kt ↦
                let k_there = put_other f i k r kt in
                u.once j k hj hk lf (sym (ap (live t) k_there) ∙ lk)
                  (sym (λ x. bytes_equal (t.key_of (j_there x)) (t.key_of (k_there x))) ∙ e)
          ]
    ]

    pub Distinct-put : Distinct keccak256 seed t (put f i r)
    Distinct-put = record { once = keys_put }

    -- The record that gave way is new to what is left.
    pub IsNew-put : live t (f i) ≡ true → IsNew (put f i r) (f i)
    IsNew-put alive = record {
      other_key = λ j hj lj. elim (same_or_not j i) [
        | inl here ↦
            ap (λ (b : Bytes). bytes_equal (t.key_of b) (t.key_of (f i)))
              (ap (put f i r) here ∙ put_self f i r)
            ∙ bytes_equal_flip (t.key_of (f i)) (t.key_of r) (n.other_key i inside alive)
        | inr there ↦
            let j_there = put_other f i j r there in
            let lf : live t (f j) ≡ true = sym (ap (live t) j_there) ∙ lj in
            ap (λ (b : Bytes). bytes_equal (t.key_of b) (t.key_of (f i))) j_there
            ∙ elim (Bool-cases (bytes_equal (t.key_of (f j)) (t.key_of (f i)))) [
              | inl e ↦ absurd (there (u.once j i hj inside lf alive e))
              | inr e ↦ e
            ]
      ];
    }
