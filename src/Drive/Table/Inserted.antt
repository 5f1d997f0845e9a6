-- ===== src/Drive/Table/Inserted.antt =====
-- An insertion in an ordered table with a free slot (accounts-drive/js/src/drive.ts, `#insert` and
-- `#lookup`).
use op_cartesi.Drive.Table.Finds.{Shows}
use op_cartesi.Drive.Table.Turn.{IsNew}
use op_cartesi.Drive.Table.Order.{distance, home_of, Ordered, Distinct}
use op_cartesi.Drive.Table.Shift.{put, put_other}
use native.Mathlib.Nat.{mod-lt, mod-eq_of_lt}
use op_cartesi.Base.{
  ◌>>=◌, ℕ, zero, suc, ◌+◌, ◌-◌, ◌%◌, ◌≤◌, ◌<◌, ◌≡◌, refl, sym, ap, ◌∙◌, ◌≢◌, inl, inr, true, false,
  arith, ltb, ltb→lt, lt→==0_false, ltb_false→le, Bool-cases, length,
}
use op_cartesi.Bytes.{Bytes}
use op_cartesi.Store.{Store}
use op_cartesi.Store.Laws.{IsByteStore}
use op_cartesi.Drive.Types.{Drive}
use op_cartesi.Drive.Table.{live, insert_from, insert, Table}
use op_cartesi.Drive.Table.Walk.{around, next_slot, next_distance}
use op_cartesi.Drive.Table.Slots.{written, write_slot_inside, written-FitsIn, FitsIn}
use op_cartesi.Drive.Table.Held.{counted_state}
use op_cartesi.Drive.Table.Insert.{after_swap}
use op_cartesi.Drive.Table.Placed.{
  IsInserted-free, IsRound-swap, IsRound-stay, IsInserted-swap, IsInserted, IsRound,
}

module _ {S : Type 0} {io : Store S} (laws : IsByteStore io) (keccak256 : Bytes → Bytes) where
  -- The way to the free slot is one shorter after a slot that is not free.
  way_on :
      (cap h dist k q : ℕ)
      → q ≡ ((h + dist) % cap + suc k) % cap
      → q ≡ ((h + (dist + 1)) % cap + k) % cap
  way_on cap h dist k q e =
      e
      ∙ sym (next_distance ((h + dist) % cap) k cap)
      ∙ ap (λ (n : ℕ). (n + k) % cap) (sym (next_slot h dist cap))

  way_ahead :
      (t : Table) (f : ℕ → Bytes) (i k q : ℕ)
      → i < t.capacity
      → q ≡ (i + k) % t.capacity
      → live t (f q) ≡ false
      → live t (f i) ≡ true
      → (m : ℕ) × (k ≡ suc m) × (q ≡ (i + suc m) % t.capacity)
  way_ahead t f i zero q inside at free somebody =
      let zero_steps : i + 0 ≡ i = omega arith in
      let here : q ≡ i = at ∙ ap (λ (n : ℕ). n % t.capacity) zero_steps ∙ mod-eq_of_lt inside in
      let taken : live t (f q) ≡ true = ap (λ (n : ℕ). live t (f n)) here ∙ somebody in absurd cc
  way_ahead t f i (suc m) q inside at free somebody = (m, refl, at)

  insert_from-IsInserted :
      (t : Table) (fuel : ℕ) (f : ℕ → Bytes) (carry : Bytes) (h dist k q : ℕ) (d : Drive S)
      → 1 < t.capacity
      → t.count_off + 8 ≤ t.base
      → k < fuel
      → q < t.capacity
      → live t (f q) ≡ false
      → q ≡ ((h + dist) % t.capacity + k) % t.capacity
      → IsRound laws keccak256 t f carry h dist d
      → IsInserted laws keccak256 t f carry d (insert_from io keccak256 t fuel carry h dist d).1
  unfolding insert_from ◌>>=◌
  insert_from-IsInserted t zero f carry h dist k q d two before short hq free at r =
      absurd (omega (arith, short))
  insert_from-IsInserted t (suc fuel) f carry h dist k q d two before short hq free at r =
      let i = (h + dist) % t.capacity in
      let inside : i < t.capacity = mod-lt (h + dist) (omega (arith, two)) in
      let seed = d.cfg.seed in
      let e = r.shows.shown i inside in
      let there = write_slot_inside laws t i carry d r.fits inside r.sized in
      elim (Bool-cases (live t (f i))) [
        | inr nobody ↦
            let (n, counts) =
              counted_state laws keccak256 t (written laws t i carry d)
                (written-FitsIn laws t i carry d r.fits) in
            rw (e, nobody, there, counts)
              (IsInserted-free laws keccak256 t f carry h dist q d two hq free r n before nobody)
        | inl somebody ↦
            let (m, km, ahead) = way_ahead t f i k q inside at free somebody in
            let on = way_on t.capacity h dist m q ahead in
            let other : q ≢ i =
              λ same. let taken = ap (λ (n : ℕ). live t (f n)) same in absurd cc in
            elim (Bool-cases (ltb (distance keccak256 seed t f i) dist)) [
              | inl swaps ↦
                  rw (e, somebody, swaps, there)
                    (IsInserted-swap laws keccak256 t f carry h dist q d two hq free r _ somebody (
                      insert_from-IsInserted t fuel (put f i carry) (f i)
                        (home_of keccak256 seed t (f i)) (distance keccak256 seed t f i + 1) m q
                        (written laws t i carry d) two before (omega (arith, short, km)) hq
                        (ap (live t) (put_other f i q carry other) ∙ free)
                        (ahead
                          ∙ sym (next_distance i m t.capacity)
                          ∙ ap (λ (n : ℕ). (n + m) % t.capacity)
                              (sym (after_swap laws keccak256 t i (f i) seed inside)))
                        (IsRound-swap laws keccak256 t f carry h dist q d two hq free r somebody
                          (ltb→lt (distance keccak256 seed t f i) dist swaps))))
              | inr stays ↦
                  rw (e, somebody, stays)
                    (insert_from-IsInserted t fuel f carry h (dist + 1) m q d two before
                      (omega (arith, short, km)) hq free on
                      (IsRound-stay laws keccak256 t f carry h dist q d two hq free r somebody
                        (ltb_false→le (distance keccak256 seed t f i) dist stays)))
            ]
      ]

  starts :
      (t : Table) (f : ℕ → Bytes) (rec : Bytes) (d : Drive S)
      → FitsIn laws t d.store
      → Shows io keccak256 t d.store f
      → Ordered keccak256 d.cfg.seed t f
      → Distinct keccak256 d.cfg.seed t f
      → IsNew keccak256 d.cfg.seed t f rec
      → live t rec ≡ true
      → length rec ≡ t.slot_size
      → IsRound laws keccak256 t f rec (home_of keccak256 d.cfg.seed t rec) 0 d
  starts t f rec d fits shows o u n alive len = record {
    fits = fits;
    shows = shows;
    ordered = o;
    distinct = u;
    new = n;
    alive = alive;
    sized = len;
    at_home = refl;
    may = record { before = λ k p e hp np. absurd (omega (arith, e)) };
  }

  -- The insertion of a new record into an ordered table with a free slot leaves an ordered table with
  -- the records that were there and the new one, and no other.
  pub insert-IsInserted :
      (t : Table) (f : ℕ → Bytes) (rec : Bytes) (q : ℕ) (d : Drive S)
      → FitsIn laws t d.store
      → Shows io keccak256 t d.store f
      → Ordered keccak256 d.cfg.seed t f
      → Distinct keccak256 d.cfg.seed t f
      → 1 < t.capacity
      → t.count_off + 8 ≤ t.base
      → q < t.capacity
      → live t (f q) ≡ false
      → IsNew keccak256 d.cfg.seed t f rec
      → live t rec ≡ true
      → length rec ≡ t.slot_size
      → IsInserted laws keccak256 t f rec d (insert io keccak256 t rec d).1
  unfolding insert ◌>>=◌
  insert-IsInserted t f rec q d fits shows o u two before hq free n alive len =
      let pos : 0 < t.capacity = omega (arith, two) in
      let hm = home_of keccak256 d.cfg.seed t rec in
      let start : (hm + 0) % t.capacity < t.capacity = mod-lt (hm + 0) pos in
      rw (lt→==0_false 0 t.capacity pos) (
        insert_from-IsInserted t t.capacity f rec hm 0
          ((q + t.capacity - (hm + 0) % t.capacity) % t.capacity) q d two before (mod-lt _ pos) hq
          free (sym (around ((hm + 0) % t.capacity) q t.capacity start hq))
          (starts t f rec d fits shows o u n alive len))
