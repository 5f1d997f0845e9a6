-- ===== src/Drive/Table/Shift.antt =====
-- One step of an insertion in an ordered table (accounts-drive/js/src/drive.ts, `#insert`): a record is
-- put at a free slot, or in the place of one that is nearer to its home.
use mathlib.Core.Path.{subst}
use op_cartesi.Base.{
  ℕ, suc, ◌+◌, ◌≤◌, ◌<◌, ◌≡◌, refl, sym, ap, ◌∙◌, ◌≢◌, ◌⊎◌, inl, inr, true, false, arith, ◌==◌,
  if◌then◌else◌, ==_iff, Bool-cases,
}
use op_cartesi.Bytes.{Bytes}
use op_cartesi.Drive.Table.{live, displacement, Table}
use op_cartesi.Drive.Table.Walk.{elsewhere}
use op_cartesi.Drive.Table.Order.{next_of, next_of-injective, distance, MayStand, Ordered}
use op_cartesi.Drive.Table.Found.{not_same}

abbrev pub put : (ℕ → Bytes) → ℕ → Bytes → ℕ → Bytes
put f i r j = if j == i then r else f j

pub put_self : (f : ℕ → Bytes) (i : ℕ) (r : Bytes) → put f i r i ≡ r
put_self f i r = let e : (i == i) ≡ true = ground arith in rw e refl

pub put_other : (f : ℕ → Bytes) (i j : ℕ) (r : Bytes) → j ≢ i → put f i r j ≡ f j
put_other f i j r h = let e : (j == i) ≡ false = ground (arith, h) in rw e refl

pub same_or_not : (i j : ℕ) → (i ≡ j) ⊎ (i ≢ j)
same_or_not i j = elim (Bool-cases (i == j)) [
  | inl e ↦ inl ((==_iff i j).0 e)
  | inr e ↦ inr (not_same i j e)
]

module _ (keccak256 : Bytes → Bytes) (seed : Bytes) (t : Table) where
  next-ne : (i : ℕ) → i < t.capacity → 1 < t.capacity → next_of t.capacity i ≢ i
  next-ne i h two = elsewhere i 0 t.capacity h two

  -- What a slot holds after the put, as it counts.
  module _ (f : ℕ → Bytes) (i dist : ℕ) (r : Bytes) (inside : i < t.capacity) (two : 1 < t.capacity)
      (alive : live t r ≡ true) (stands_at : displacement keccak256 seed t r i ≡ dist) where
    abbrev g : ℕ → Bytes
    g = put f i r

    live_put : live t (g i) ≡ true
    live_put = ap (live t) (put_self f i r) ∙ alive

    distance_put : distance keccak256 seed t g i ≡ dist
    distance_put =
        ap (λ (b : Bytes). displacement keccak256 seed t b i) (put_self f i r) ∙ stands_at

    distance_other : (j : ℕ) → j ≢ i → distance keccak256 seed t g j ≡ distance keccak256 seed t f j
    distance_other j h = ap (λ (b : Bytes). displacement keccak256 seed t b j) (put_other f i j r h)

    live_other : (j : ℕ) → j ≢ i → live t (g j) ≡ live t (f j)
    live_other j h = ap (live t) (put_other f i j r h)

    -- Behind the put, at another slot than the next one, nothing has changed.
    MayStand-put :
        (j n : ℕ)
        → ((k : ℕ) → n ≡ suc k → next_of t.capacity i ≡ j → k ≤ dist)
        → MayStand keccak256 seed t f j n
        → MayStand keccak256 seed t g j n
    MayStand-put j n reach m = record {
      before = λ k p e hp np. elim (same_or_not p i) [
        | inl here ↦
            let next_i : next_of t.capacity i ≡ j = ap (next_of t.capacity) (sym here) ∙ np in
            (
              ap (λ (x : ℕ). live t (g x)) here ∙ live_put,
              subst (λ (x : ℕ). k ≤ distance keccak256 seed t g x) (sym here)
                  (subst (λ (x : ℕ). k ≤ x) (sym distance_put) (reach k e next_i)),
            )
        | inr there ↦
            let (l, far) = m.before k p e hp np in
            (live_other p there ∙ l, subst (λ (x : ℕ). k ≤ x) (sym (distance_other p there)) far)
      ];
    }

    -- The record that was there is nearer to its home, or none was there.
    abbrev pub Yields : Type 0
    Yields = (live t (f i) ≡ false) ⊎ (distance keccak256 seed t f i < dist)

    reach_of :
        (j k : ℕ)
        → Yields
        → MayStand keccak256 seed t f j (distance keccak256 seed t f j)
        → distance keccak256 seed t f j ≡ suc k
        → next_of t.capacity i ≡ j
        → k ≤ dist
    reach_of j k yields m e np =
        let (l, far) = m.before k i e inside np in
        elim yields [ inl free ↦ absurd cc | inr nearer ↦ omega (arith, far, nearer) ]

    pub Ordered-put :
        Ordered keccak256 seed t f
        → MayStand keccak256 seed t f i dist
        → Yields
        → Ordered keccak256 seed t g
    Ordered-put o m yields = record {
      stands = λ j hj lj. elim (same_or_not j i) [
        | inl here ↦
            subst (λ (x : ℕ). MayStand keccak256 seed t g x (distance keccak256 seed t g x))
              (sym here)
              (subst (MayStand keccak256 seed t g i) (sym distance_put)
                (MayStand-put i dist (λ k e n. absurd (next-ne i inside two n)) m))
        | inr there ↦
            let lf : live t (f j) ≡ true = sym (live_other j there) ∙ lj in
            let mf = o.stands j hj lf in
            subst (MayStand keccak256 seed t g j) (sym (distance_other j there)) (
              MayStand-put j (distance keccak256 seed t f j) (λ k e n. reach_of j k yields mf e n)
                mf)
      ];
    }

    -- The record that gave way may stand at the next slot.
    pub MayStand-next :
        (n : ℕ) → n ≤ dist → MayStand keccak256 seed t g (next_of t.capacity i) (n + 1)
    MayStand-next n h = record {
      before = λ k p e hp np.
          let here : p ≡ i = next_of-injective t.capacity p i hp inside np in
          (
            ap (λ (x : ℕ). live t (g x)) here ∙ live_put,
            subst (λ (x : ℕ). k ≤ distance keccak256 seed t g x) (sym here)
                (subst (λ (x : ℕ). k ≤ x) (sym distance_put) (omega (arith, e, h))),
          );
    }

  -- A record that a farther one holds off may stand behind it.
  pub MayStand-behind :
      (f : ℕ → Bytes) (i dist : ℕ)
      → i < t.capacity
      → live t (f i) ≡ true
      → dist ≤ distance keccak256 seed t f i
      → MayStand keccak256 seed t f (next_of t.capacity i) (dist + 1)
  MayStand-behind f i dist inside l far = record {
    before = λ k p e hp np.
        let here : p ≡ i = next_of-injective t.capacity p i hp inside np in
        (
          ap (λ (x : ℕ). live t (f x)) here ∙ l,
          subst (λ (x : ℕ). k ≤ distance keccak256 seed t f x) (sym here) (omega (arith, e, far)),
        );
  }
