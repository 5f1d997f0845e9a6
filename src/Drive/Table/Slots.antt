-- ===== src/Drive/Table/Slots.antt =====
-- Slots of a table in a store of bytes (accounts-drive/js/src/drive.ts, `#readSlot`, `#writeSlot` and
-- the counters), for a table that lies inside the store.
use op_cartesi.Base.{
  ◌>>=◌, ℕ, zero, suc, ◌+◌, ◌*◌, ◌%◌, ◌≤◌, ◌<◌, ◌≡◌, refl, sym, ap, ◌∙◌, ◌≢◌, ◌⊎◌, inl, inr, true,
  false, arith, length, Result, ok,
}
use op_cartesi.Bytes.{Bytes, get_le, put_le}
use op_cartesi.Bytes.Codec.{length-put_le}
use op_cartesi.Store.{Store}
use op_cartesi.Store.Laws.{IsByteStore}
use op_cartesi.Drive.Types.{Drive}
use mathlib.Core.Path.{subst}
use native.Mathlib.Nat.{mod-eq_of_lt}
use op_cartesi.Drive.Table.{live, counter, write_store, set_counter, read_slot, write_slot, Table}
use op_cartesi.Drive.Table.Walk.{next_distance, elsewhere, slots_apart, slot_inside}

apart_of :
    (o n off m size : ℕ)
    → m ≡ size
    → (o + n ≤ off) ⊎ (off + size ≤ o)
    → (o + n ≤ off) ⊎ (off + m ≤ o)
apart_of o n off m size e (inl h) = inl h
apart_of o n off m size e (inr h) = inr (omega (arith, e, h))

module _ {S : Type 0} {io : Store S} (laws : IsByteStore io) where
  -- The slots and the counter lie inside the store.
  pub record FitsIn (t : Table) (s : S) : Type 0 where
    pub slots_inside : t.base + t.slot_size * t.capacity ≤ laws.size s
    pub count_inside : t.count_off + 8 ≤ laws.size s

  -- A slot that reads as one with no record.
  pub record IsFree (t : Table) (i : ℕ) (s : S) : Type 0 where
    pub slot : Bytes
    pub reads_as : read_slot io t i s ≡ ok slot
    pub has_none : live t slot ≡ false

  abbrev pub written : Table → ℕ → Bytes → Drive S → Drive S
  written t i b d = record d { store = (io.write_at (t.base + t.slot_size * i) b d.store).1 }

  pub read_slot_inside :
      (t : Table) (i : ℕ) (s : S)
      → FitsIn t s
      → i < t.capacity
      → (b : Bytes) × (read_slot io t i s ≡ ok b) × (length b ≡ t.slot_size)
  unfolding read_slot
  read_slot_inside t i s fits h =
      laws.read_in (t.base + t.slot_size * i) t.slot_size s
        (omega (arith, slot_inside t.base t.slot_size i t.capacity h, fits.slots_inside))

  pub write_slot_inside :
      (t : Table) (i : ℕ) (b : Bytes) (d : Drive S)
      → FitsIn t d.store
      → i < t.capacity
      → length b ≡ t.slot_size
      → write_slot io t i b d ≡ (ok tt, written t i b d)
  unfolding write_slot write_store
  write_slot_inside t i b d fits h e =
      let inside : t.base + t.slot_size * i + length b ≤ laws.size d.store =
        omega (arith, slot_inside t.base t.slot_size i t.capacity h, fits.slots_inside, e) in
      ap (λ (r : Result (Unit {0})). (r, written t i b d))
        (laws.write_in (t.base + t.slot_size * i) b d.store inside)

  pub written-FitsIn :
      (t : Table) (i : ℕ) (b : Bytes) (d : Drive S)
      → FitsIn t d.store
      → FitsIn t (written t i b d).store
  written-FitsIn t i b d fits =
      let same = laws.write_size (t.base + t.slot_size * i) b d.store in
      record {
        slots_inside = omega (arith, same, fits.slots_inside);
        count_inside = omega (arith, same, fits.count_inside);
      }

  -- What is written to a slot is read from it, and the other slots read as before.
  pub written_slot :
      (t : Table) (i : ℕ) (b : Bytes) (d : Drive S)
      → FitsIn t d.store
      → i < t.capacity
      → length b ≡ t.slot_size
      → read_slot io t i (written t i b d).store ≡ ok b
  unfolding read_slot
  written_slot t i b d fits h e =
      let inside : t.base + t.slot_size * i + length b ≤ laws.size d.store =
        omega (arith, slot_inside t.base t.slot_size i t.capacity h, fits.slots_inside, e) in
      subst (λ (n : ℕ). io.read_at (t.base + t.slot_size * i) n (written t i b d).store ≡ ok b) e
        (laws.read_back (t.base + t.slot_size * i) b d.store inside)

  pub written_others :
      (t : Table) (i j : ℕ) (b : Bytes) (d : Drive S)
      → length b ≡ t.slot_size
      → j ≢ i
      → read_slot io t j (written t i b d).store ≡ read_slot io t j d.store
  unfolding read_slot
  written_others t i j b d e differs =
      laws.read_apart (t.base + t.slot_size * j) t.slot_size (t.base + t.slot_size * i) b d.store (
        apart_of (t.base + t.slot_size * j) t.slot_size (t.base + t.slot_size * i) (length b)
          t.slot_size e (slots_apart t.base t.slot_size j i differs))

  pub written-IsFree :
      (t : Table) (i j : ℕ) (b : Bytes) (d : Drive S)
      → length b ≡ t.slot_size
      → j ≢ i
      → IsFree t j d.store
      → IsFree t j (written t i b d).store
  written-IsFree t i j b d e differs free = record {
    slot = free.slot;
    reads_as = written_others t i j b d e differs ∙ free.reads_as;
    has_none = free.has_none;
  }

  -- A free slot is none that reads as a live one.
  pub free_not_live :
      (t : Table) (i : ℕ) (s : S) (b : Bytes)
      → IsFree t i s
      → read_slot io t i s ≡ ok b
      → live t b ≢ true
  free_not_live t i s b free e =
      let reads = free.reads_as in let none_there = free.has_none in λ yes_there. absurd cc

  -- The counter is read and written.
  pub count_inside_ends :
      (t : Table) (f : ℕ → ℕ) (d : Drive S)
      → FitsIn t d.store
      → ((counter io t.count_off >>= λ n. set_counter io t.count_off (f n)) d).0 ≡ ok tt
  unfolding counter set_counter write_store ◌>>=◌
  count_inside_ends t f d fits =
      let (b, e, l) = laws.read_in t.count_off 8 d.store fits.count_inside in
      let n = f (get_le b) in
      rw e (
        laws.write_in t.count_off (put_le 8 n) d.store
          (omega (arith, length-put_le 8 n, fits.count_inside)))

  -- A free slot ahead of a live one: it lies behind the next slot, and it is another one.
  pub IsFree-ahead :
      (t : Table) (i k : ℕ) (s : S) (b : Bytes)
      → i < t.capacity
      → k < t.capacity
      → IsFree t ((i + k) % t.capacity) s
      → read_slot io t i s ≡ ok b
      → live t b ≡ true
      → (m : ℕ) × (k ≡ suc m)
        × IsFree t (((i + 1) % t.capacity + m) % t.capacity) s
        × (((i + 1) % t.capacity + m) % t.capacity ≢ i)
  IsFree-ahead t i zero s b hi hk free e somebody =
      let zero_steps : i + 0 ≡ i = omega arith in
      let here : (i + 0) % t.capacity ≡ i =
        ap (λ (x : ℕ). x % t.capacity) zero_steps ∙ mod-eq_of_lt hi in
      absurd (free_not_live t i s b (subst (λ (j : ℕ). IsFree t j s) here free) e somebody)
  IsFree-ahead t i (suc m) s b hi hk free e somebody =
      let there = next_distance i m t.capacity in
      (
        m,
        refl,
        subst (λ (j : ℕ). IsFree t j s) (sym there) free,
        subst (λ (j : ℕ). j ≢ i) (sym there) (elsewhere i m t.capacity hi hk),
      )
