-- ===== src/Drive/Table/Insert.antt =====
-- The loop of an insertion ends (accounts-drive/js/src/drive.ts, `#insert`): whatever it carries, it
-- goes from slot to slot until a free one.
use op_cartesi.Drive.Table.Walk.{around, next_slot, home-displacement}
use op_cartesi.Base.{
  ◌>>=◌, ℕ, zero, suc, ◌+◌, ◌-◌, ◌%◌, ◌≤◌, ◌<◌, ◌≡◌, sym, ap, ◌∙◌, inl, inr, arith, ltb,
  lt→==0_false, Bool-cases, length, ◌>>◌, ok,
}
use op_cartesi.Bytes.{Bytes}
use op_cartesi.Store.{Store}
use op_cartesi.Store.Laws.{IsByteStore}
use op_cartesi.Drive.Types.{Drive}
use op_cartesi.Drive.Table.{
  live, home, displacement, counter, set_counter, write_slot, insert_from, insert, Table,
}
use op_cartesi.Drive.Table.Slots.{
  written, read_slot_inside, write_slot_inside, written-FitsIn, written-IsFree, count_inside_ends,
  IsFree-ahead, FitsIn, IsFree,
}
use mathlib.Core.Path.{subst}
use native.Mathlib.Nat.{mod-lt}

module _ {S : Type 0} {io : Store S} (laws : IsByteStore io) (keccak256 : Bytes → Bytes) where
  -- At a free slot, the record is placed and counted.
  placed_ends :
      (t : Table) (i : ℕ) (b : Bytes) (d : Drive S)
      → FitsIn laws t d.store
      → i < t.capacity
      → length b ≡ t.slot_size
      → ((do write_slot io t i b; n ← counter io t.count_off; set_counter io t.count_off (n + 1))
          d).0
        ≡ ok tt
  unfolding ◌>>=◌
  placed_ends t i b d fits h e = rw (write_slot_inside laws t i b d fits h e) (
      count_inside_ends laws t (λ n. n + 1) (written laws t i b d)
        (written-FitsIn laws t i b d fits))

  -- The slot after a swap, as the carried record counts it.
  pub after_swap :
      (t : Table) (i : ℕ) (slot seed : Bytes)
      → i < t.capacity
      → (home keccak256 seed (t.key_of slot) t.capacity
            + (displacement keccak256 seed t slot i + 1))
          % t.capacity
        ≡ (i + 1) % t.capacity
  after_swap t i slot seed h =
      next_slot (home keccak256 seed (t.key_of slot) t.capacity)
        (displacement keccak256 seed t slot i) t.capacity
      ∙ ap (λ (j : ℕ). (j + 1) % t.capacity) (home-displacement keccak256 seed t slot i h)

  -- A free slot `k` steps ahead of the one to look at is reached within `fuel` rounds.
  insert_from-ends :
      (t : Table) (fuel : ℕ) (carry : Bytes) (h dist k : ℕ) (d : Drive S)
      → FitsIn laws t d.store
      → length carry ≡ t.slot_size
      → k < fuel
      → fuel ≤ t.capacity
      → IsFree laws t (((h + dist) % t.capacity + k) % t.capacity) d.store
      → (insert_from io keccak256 t fuel carry h dist d).0 ≡ ok tt
  unfolding insert_from ◌>>=◌
  insert_from-ends t zero carry h dist k d fits len hk hf free = absurd (omega (arith, hk))
  insert_from-ends t (suc fuel) carry h dist k d fits len hk hf free =
      let i = (h + dist) % t.capacity in
      let cap_pos : 0 < t.capacity = omega (arith, hf) in
      let inside : i < t.capacity = mod-lt (h + dist) cap_pos in
      let (slot, e, slot_len) = read_slot_inside laws t i d.store fits inside in
      let disp = displacement keccak256 d.cfg.seed t slot i in
      let hm = home keccak256 d.cfg.seed (t.key_of slot) t.capacity in
      elim (Bool-cases (live t slot)) [
        | inr nobody ↦ rw (e, nobody) (placed_ends t i carry d fits inside len)
        | inl somebody ↦
            let (m, km, ahead, other) =
              IsFree-ahead laws t i k d.store slot inside (omega (arith, hk, hf)) free e somebody in
            elim (Bool-cases (ltb disp dist)) [
              | inl swaps ↦
                  rw (e, somebody, swaps, write_slot_inside laws t i carry d fits inside len)
                    (insert_from-ends t fuel slot hm (disp + 1) m (written laws t i carry d)
                      (written-FitsIn laws t i carry d fits) slot_len (omega (arith, hk, km))
                      (omega (arith, hf))
                      (subst
                        (λ (p : ℕ).
                          IsFree laws t ((p + m) % t.capacity) (written laws t i carry d).store)
                        (sym (after_swap t i slot d.cfg.seed inside))
                        (written-IsFree laws t i _ carry d len other ahead)))
              | inr stays ↦
                  rw (e, somebody, stays)
                    (insert_from-ends t fuel carry h (dist + 1) m d fits len (omega (arith, hk, km))
                      (omega (arith, hf))
                      (subst (λ (p : ℕ). IsFree laws t ((p + m) % t.capacity) d.store)
                        (sym (next_slot h dist t.capacity)) ahead))
            ]
      ]

  -- In a table that lies inside its store and has a free slot, the insertion of a record as
  -- long as a slot ends without a throw, within one round for each slot, whatever stands in the
  -- other slots.
  pub insert-ends :
      (t : Table) (rec : Bytes) (free_slot : ℕ) (d : Drive S)
      → FitsIn laws t d.store
      → length rec ≡ t.slot_size
      → free_slot < t.capacity
      → IsFree laws t free_slot d.store
      → (insert io keccak256 t rec d).0 ≡ ok tt
  unfolding insert ◌>>=◌
  insert-ends t rec free_slot d fits len h free =
      let cap_pos : 0 < t.capacity = omega (arith, h) in
      let hm = home keccak256 d.cfg.seed (t.key_of rec) t.capacity in
      let start : (hm + 0) % t.capacity < t.capacity = mod-lt (hm + 0) cap_pos in
      let k = (free_slot + t.capacity - (hm + 0) % t.capacity) % t.capacity in
      rw (lt→==0_false 0 t.capacity cap_pos) (
        insert_from-ends t t.capacity rec hm 0 k d fits len (mod-lt _ cap_pos) (omega arith) (
          subst (λ (j : ℕ). IsFree laws t j d.store)
            (sym (around ((hm + 0) % t.capacity) free_slot t.capacity start h)) free))
