-- ===== src/Drive/Table/Remove.antt =====
-- The loop of a removal ends (accounts-drive/js/src/drive.ts, `#remove`): the shift stops at a free
-- slot at the latest.
use op_cartesi.Base.{
  ◌>>=◌, ℕ, zero, suc, ◌+◌, ◌-◌, ◌%◌, ◌^◌, ◌<◌, ◌≡◌, refl, sym, ap, ◌∙◌, ◌≢◌, ◌⊎◌, inl, inr, Bool,
  true, false, not, ◌||◌, arith, ◌==◌, or_false, Bool-cases, replicate, length-replicate, ◌>>◌, ok,
}
use op_cartesi.Bytes.{Bytes}
use op_cartesi.Store.{Store}
use op_cartesi.Store.Laws.{IsByteStore}
use op_cartesi.Drive.Types.{Drive}
use op_cartesi.Drive.Table.{
  live, displacement, counter, set_counter, write_slot, remove_from, remove, Table,
}
use op_cartesi.Drive.Table.Walk.{around, next_distance, elsewhere}
use op_cartesi.Drive.Table.Slots.{
  written, read_slot_inside, write_slot_inside, written-FitsIn, written-IsFree, count_inside_ends,
  IsFree-ahead, FitsIn, IsFree,
}
use mathlib.Core.Path.{subst}
use native.Mathlib.Nat.{mod-lt, mod-eq_of_lt}

not-false : (b : Bool) → not b ≡ false → b ≡ true
not-false true e = refl
not-false false e = absurd cc

ring-cases :
    (i f cap distance : ℕ)
    → i < cap
    → (i + distance) % cap ≡ f
    → (f ≡ i) ⊎ ((k : ℕ) × (distance ≡ suc k))
ring-cases i f cap zero h e =
    let none_there : i + 0 ≡ i = omega arith in
    inl (sym e ∙ ap (λ (x : ℕ). x % cap) none_there ∙ mod-eq_of_lt h)
ring-cases i f cap (suc k) h e = inr (k, refl)

apart_distance :
    (i f cap : ℕ) → i < cap → f < cap → f ≢ i → (k : ℕ) × (suc k < cap) × ((i + suc k) % cap ≡ f)
apart_distance i f cap hi hf differs =
    elim (ring-cases i f cap ((f + cap - i) % cap) hi (around i f cap hi hf)) [
      | inl same ↦ absurd (differs same)
      | inr (k, e) ↦
          let short : (f + cap - i) % cap < cap = mod-lt (f + cap - i) (omega (arith, hi)) in
          (k, omega (arith, short, e), ap (λ (x : ℕ). (i + x) % cap) (sym e) ∙ around i f cap hi hf)
    ]

module _ {S : Type 0} {io : Store S} (laws : IsByteStore io) (keccak256 : Bytes → Bytes) where
  -- The last slot of the shift is emptied, and the record is counted off.
  cleared_ends :
      (t : Table) (i : ℕ) (d : Drive S)
      → FitsIn laws t d.store
      → i < t.capacity
      → ((do
        write_slot io t i (replicate t.slot_size 0)
        n ← counter io t.count_off
        set_counter io t.count_off (n + 2 ^ 64 - 1))
          d).0
        ≡ ok tt
  unfolding ◌>>=◌
  cleared_ends t i d fits h =
      let empty : Bytes = replicate t.slot_size 0 in
      rw (write_slot_inside laws t i empty d fits h (length-replicate t.slot_size 0)) (
        count_inside_ends laws t (λ n. n + 2 ^ 64 - 1) (written laws t i empty d)
          (written-FitsIn laws t i empty d fits))

  -- A free slot `k + 1` steps ahead of the one that is emptied.
  remove_from-ends :
      (t : Table) (fuel i k : ℕ) (d : Drive S)
      → FitsIn laws t d.store
      → i < t.capacity
      → k < fuel
      → suc k < t.capacity
      → IsFree laws t ((i + suc k) % t.capacity) d.store
      → (remove_from io keccak256 t fuel i d).0 ≡ ok tt
  unfolding remove_from ◌>>=◌
  remove_from-ends t zero i k d fits hi hk hc free = absurd (omega (arith, hk))
  remove_from-ends t (suc fuel) i k d fits hi hk hc free =
      let j = (i + 1) % t.capacity in
      let inside : j < t.capacity = mod-lt (i + 1) (omega (arith, hi)) in
      let (next, e, next_len) = read_slot_inside laws t j d.store fits inside in
      let stop = not (live t next) || (displacement keccak256 d.cfg.seed t next j == 0) in
      elim (Bool-cases stop) [
        | inl stops ↦ rw (e, stops) (cleared_ends t i d fits hi)
        | inr goes_on ↦
            let somebody = not-false (live t next) (or_false _ _ goes_on).0 in
            let ahead : IsFree laws t ((j + k) % t.capacity) d.store =
              subst (λ (p : ℕ). IsFree laws t p d.store) (sym (next_distance i k t.capacity))
                free in
            let (m, km, _, _) =
              IsFree-ahead laws t j k d.store next inside (omega (arith, hc)) ahead e somebody in
            let other : (i + suc k) % t.capacity ≢ i = elsewhere i k t.capacity hi hc in
            let kept = written-IsFree laws t i _ next d next_len other free in
            rw (e, goes_on, write_slot_inside laws t i next d fits hi next_len)
              (remove_from-ends t fuel j m (written laws t i next d)
                (written-FitsIn laws t i next d fits) inside (omega (arith, hk, km))
                (omega (arith, hc, km))
                (subst (λ (p : ℕ). IsFree laws t p (written laws t i next d).store)
                  (sym (next_distance i k t.capacity) ∙ ap (λ (x : ℕ). (j + x) % t.capacity) km)
                  kept))
      ]

  -- In a table that lies inside its store and has a free slot besides the one to be emptied,
  -- the removal ends without a throw, within one round for each slot.
  pub remove-ends :
      (t : Table) (i free_slot : ℕ) (d : Drive S)
      → FitsIn laws t d.store
      → i < t.capacity
      → free_slot < t.capacity
      → free_slot ≢ i
      → IsFree laws t free_slot d.store
      → (remove io keccak256 t i d).0 ≡ ok tt
  unfolding remove
  remove-ends t i free_slot d fits hi hf differs free =
      let (k, short, e) = apart_distance i free_slot t.capacity hi hf differs in
      remove_from-ends t t.capacity i k d fits hi (omega (arith, short)) short
        (subst (λ (p : ℕ). IsFree laws t p d.store) (sym e) free)
