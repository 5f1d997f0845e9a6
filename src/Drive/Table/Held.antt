-- ===== src/Drive/Table/Held.antt =====
-- The live records of a table, and what a write to a slot or to the counter shows of them
-- (accounts-drive/js/src/drive.ts, `#writeSlot` and the counters).
use mathlib.Core.Path.{subst}
use op_cartesi.Base.{
  ◌>>=◌, ℕ, ◌+◌, ◌*◌, ◌≤◌, ◌<◌, ◌≡◌, refl, sym, ap, ◌∙◌, ◌⊎◌, inl, inr, true, arith, length, ok,
}
use op_cartesi.Bytes.{Bytes, get_le, put_le}
use op_cartesi.Store.{Store}
use op_cartesi.Store.Laws.{IsByteStore}
use op_cartesi.Drive.Types.{Drive}
use op_cartesi.Drive.Table.{live, counter, write_store, set_counter, read_slot, Table}
use op_cartesi.Bytes.Codec.{length-put_le}
use op_cartesi.Drive.Table.Slots.{written, written_slot, written_others, FitsIn}
use op_cartesi.Drive.Table.Finds.{Shows}
use op_cartesi.Drive.Table.Shift.{put, put_self, put_other, same_or_not}

-- A live record of the table.
pub record IsHeld (t : Table) (f : ℕ → Bytes) (r : Bytes) : Type 0 where
  pub index : ℕ
  pub inside : index < t.capacity
  pub is_there : f index ≡ r
  pub alive : live t r ≡ true

pub IsHeld-put_self :
    (t : Table) (f : ℕ → Bytes) (i : ℕ) (r : Bytes)
    → i < t.capacity
    → live t r ≡ true
    → IsHeld t (put f i r) r
IsHeld-put_self t f i r h l = record { index = i; inside = h; is_there = put_self f i r; alive = l }

-- A record that was there still is, unless it gave way.
pub IsHeld-put :
    (t : Table) (f : ℕ → Bytes) (i : ℕ) (r b : Bytes)
    → IsHeld t f b
    → (b ≡ f i) ⊎ IsHeld t (put f i r) b
IsHeld-put t f i r b held = elim (same_or_not held.index i) [
  | inl here ↦ inl (sym held.is_there ∙ ap f here)
  | inr there ↦ inr (record {
    index = held.index;
    inside = held.inside;
    is_there = put_other f i held.index r there ∙ held.is_there;
    alive = held.alive;
  })
]

-- A record that is there is the new one, or was there.
pub IsHeld-put_from :
    (t : Table) (f : ℕ → Bytes) (i : ℕ) (r b : Bytes)
    → IsHeld t (put f i r) b
    → (b ≡ r) ⊎ IsHeld t f b
IsHeld-put_from t f i r b held = elim (same_or_not held.index i) [
  | inl here ↦ inl (sym held.is_there ∙ ap (put f i r) here ∙ put_self f i r)
  | inr there ↦ inr (record {
    index = held.index;
    inside = held.inside;
    is_there = sym (put_other f i held.index r there) ∙ held.is_there;
    alive = held.alive;
  })
]

module _ {S : Type 0} {io : Store S} (laws : IsByteStore io) (keccak256 : Bytes → Bytes) where
  pub Shows-written :
      (t : Table) (f : ℕ → Bytes) (i : ℕ) (r : Bytes) (d : Drive S)
      → FitsIn laws t d.store
      → i < t.capacity
      → length r ≡ t.slot_size
      → Shows io keccak256 t d.store f
      → Shows io keccak256 t (written laws t i r d).store (put f i r)
  Shows-written t f i r d fits h e shows = record {
    shown = λ j hj. elim (same_or_not j i) [
      | inl here ↦
          subst (λ (x : ℕ). read_slot io t x (written laws t i r d).store ≡ ok (put f i r x))
            (sym here) (written_slot laws t i r d fits h e ∙ ap ok (sym (put_self f i r)))
      | inr there ↦
          written_others laws t i j r d e there
          ∙ shows.shown j hj
          ∙ ap ok (sym (put_other f i j r there))
    ];
    sized = λ j hj. elim (same_or_not j i) [
      | inl here ↦ ap (λ (x : ℕ). length (put f i r x)) here ∙ ap length (put_self f i r) ∙ e
      | inr there ↦ ap length (put_other f i j r there) ∙ shows.sized j hj
    ];
  }

  abbrev pub counted : Table → ℕ → Drive S → Drive S
  counted t n d = record d { store = (io.write_at t.count_off (put_le 8 n) d.store).1 }

  pub counted-FitsIn :
      (t : Table) (n : ℕ) (d : Drive S)
      → FitsIn laws t d.store
      → FitsIn laws t (counted t n d).store
  counted-FitsIn t n d fits =
      let same = laws.write_size t.count_off (put_le 8 n) d.store in
      record {
        slots_inside = omega (arith, same, fits.slots_inside);
        count_inside = omega (arith, same, fits.count_inside);
      }

  -- The counter lies before the slots.
  pub Shows-counted :
      (t : Table) (f : ℕ → Bytes) (n : ℕ) (d : Drive S)
      → t.count_off + 8 ≤ t.base
      → Shows io keccak256 t d.store f
      → Shows io keccak256 t (counted t n d).store f
  unfolding read_slot
  Shows-counted t f n d before shows = record {
    shown = λ j hj.
        laws.read_apart (t.base + t.slot_size * j) t.slot_size t.count_off (put_le 8 n) d.store
          (inr (omega (arith, length-put_le 8 n, before)))
        ∙ shows.shown j hj;
    sized = shows.sized;
  }

  pub counted_state :
      (t : Table) (d : Drive S)
      → FitsIn laws t d.store
      → (n : ℕ) × (((do m ← counter io t.count_off; set_counter io t.count_off (m + 1)) d).1
          ≡ counted t n d)
  unfolding counter set_counter write_store ◌>>=◌
  counted_state t d fits =
      let (b, e, l) = laws.read_in t.count_off 8 d.store fits.count_inside in
      (get_le b + 1, rw e refl)
