-- ===== src/Drive/Table/Contents.antt =====
-- An ordered table as a map from keys to records (accounts-drive/js/src/drive.ts, `#insert` and
-- `#lookup`).
use op_cartesi.Drive.Table.Insert.{insert-ends}
use op_cartesi.Drive.Table.Inserted.{insert-IsInserted}
use mathlib.Core.Path.{subst}
use op_cartesi.Base.{
  ℕ, zero, suc, ◌+◌, ◌≤◌, ◌<◌, ◌≡◌, refl, sym, ap, ◌∙◌, ◌⊎◌, inl, inr, true, false, Option, none,
  some, arith, if◌then◌else◌, Bool-cases, length, Result, ok, err,
}
use op_cartesi.Bytes.{Bytes, bytes_equal}
use op_cartesi.Store.{Store}
use op_cartesi.Store.Laws.{IsByteStore}
use op_cartesi.Drive.Types.{NormalizedConfig, Drive}
use op_cartesi.Drive.Table.{live, lookup, insert, Table}
use op_cartesi.Drive.Table.Slots.{FitsIn, IsFree}
use op_cartesi.Drive.Table.Order.{Ordered, Distinct}
use op_cartesi.Drive.Table.Finds.{lookup-finds, lookup-absent, Shows}
use op_cartesi.Drive.Table.Shift.{same_or_not}
use op_cartesi.Drive.Table.Turn.{IsNew}
use op_cartesi.Drive.Table.Held.{IsHeld}
use op_cartesi.Drive.Table.Placed.{IsInserted}

-- The record a search gives, without its place.
unfoldable pub record_of : Result (Option (ℕ × Bytes)) → Result (Option Bytes)
record_of (err e) = err e
record_of (ok none) = ok none
record_of (ok (some (i, slot))) = ok (some slot)

-- Among the first `n` slots, one is live and has the key, or none.
has_key :
    (t : Table) (f : ℕ → Bytes) (key : Bytes) (n : ℕ)
    → ((j : ℕ) × (j < n) × (live t (f j) ≡ true) × (bytes_equal (t.key_of (f j)) key ≡ true))
      ⊎ ((j : ℕ) → j < n → live t (f j) ≡ true → bytes_equal (t.key_of (f j)) key ≡ false)
has_key t f key zero = inr (λ j h l. absurd (omega (arith, h)))
has_key t f key (suc n) = elim (has_key t f key n) [
  | inl (j, h, l, e) ↦ inl (j, omega (arith, h), l, e)
  | inr nowhere ↦ elim (Bool-cases (bytes_equal (t.key_of (f n)) key)) [
    | inr other ↦ inr (λ j h l. elim (same_or_not j n) [
      | inl here ↦ ap (λ (x : ℕ). bytes_equal (t.key_of (f x)) key) here ∙ other
      | inr there ↦ nowhere j (ground (arith, h, there)) l
    ])
    | inl same ↦ elim (Bool-cases (live t (f n))) [
      | inl alive ↦ inl (n, omega arith, alive, same)
      | inr dead ↦ inr (λ j h l. elim (same_or_not j n) [
        | inl here ↦
            let alive : live t (f n) ≡ true = ap (λ (x : ℕ). live t (f x)) (sym here) ∙ l in
            absurd cc
        | inr there ↦ nowhere j (ground (arith, h, there)) l
      ])
    ]
  ]
]

module _ {S : Type 0} {io : Store S} (laws : IsByteStore io) (keccak256 : Bytes → Bytes) where
  -- A table of more than one slot behind its counter, which the store shows in order and with no key
  -- twice.
  pub record IsTable (t : Table) (f : ℕ → Bytes) (d : Drive S) : Type 0 where
    pub two : 1 < t.capacity
    pub before : t.count_off + 8 ≤ t.base
    pub fits : FitsIn laws t d.store
    pub shows : Shows io keccak256 t d.store f
    pub ordered : Ordered keccak256 d.cfg.seed t f
    pub distinct : Distinct keccak256 d.cfg.seed t f

  lookup-IsHeld :
      (t : Table) (f : ℕ → Bytes) (key b : Bytes) (d : Drive S)
      → IsTable t f d
      → IsHeld t f b
      → bytes_equal (t.key_of b) key ≡ true
      → record_of (lookup io keccak256 t key d).0 ≡ ok (some b)
  unfolding record_of
  lookup-IsHeld t f key b d table held keyed =
      ap record_of (
        lookup-finds io keccak256 t d f table.shows key held.index table.ordered table.distinct
          held.inside (ap (live t) held.is_there ∙ held.alive)
          (ap (λ (x : Bytes). bytes_equal (t.key_of x) key) held.is_there ∙ keyed))
      ∙ ap (λ (x : Bytes). ok (some x)) held.is_there

  -- A record whose key is not found is new.
  absent-IsNew :
      (t : Table) (f : ℕ → Bytes) (rec : Bytes) (d : Drive S)
      → IsTable t f d
      → (lookup io keccak256 t (t.key_of rec) d).0 ≡ ok none
      → IsNew keccak256 d.cfg.seed t f rec
  absent-IsNew t f rec d table absent = record {
    other_key = λ j h l. elim (Bool-cases (bytes_equal (t.key_of (f j)) (t.key_of rec))) [
      | inr other ↦ other
      | inl same ↦
          let found =
            lookup-finds io keccak256 t d f table.shows (t.key_of rec) j table.ordered
              table.distinct h l same in
          absurd cc
    ];
  }

  IsInserted-IsTable :
      (t : Table) (f : ℕ → Bytes) (rec : Bytes) (d d_after : Drive S)
      → IsTable t f d
      → (i : IsInserted laws keccak256 t f rec d d_after) → IsTable t i.after d_after
  IsInserted-IsTable t f rec d d_after table i =
      let same_seed : d.cfg.seed ≡ d_after.cfg.seed =
        sym (ap (λ (c : NormalizedConfig). c.seed) i.same_cfg) in
      record {
        two = table.two;
        before = table.before;
        fits = i.fits_after;
        shows = i.shows_after;
        ordered = subst (λ (s : Bytes). Ordered keccak256 s t i.after) same_seed i.ordered_after;
        distinct = subst (λ (s : Bytes). Distinct keccak256 s t i.after) same_seed i.distinct_after;
      }

  -- A table with the records of another one and the record `rec` gives for a key what the other one
  -- gives, but `rec` for its own.
  pub lookup-IsInserted :
      (t : Table) (f : ℕ → Bytes) (rec key : Bytes) (d d_after : Drive S)
      → IsTable t f d
      → IsInserted laws keccak256 t f rec d d_after
      → record_of (lookup io keccak256 t key d_after).0 ≡ (
          if bytes_equal (t.key_of rec) key
          then ok (some rec)
          else record_of (lookup io keccak256 t key d).0)
  lookup-IsInserted t f rec key d d_after table i =
      let table_after = IsInserted-IsTable t f rec d d_after table i in
      elim (Bool-cases (bytes_equal (t.key_of rec) key)) [
        | inl same ↦ rw same (lookup-IsHeld t i.after key rec d_after table_after i.placed same)
        | inr other ↦ rw other (elim (has_key t f key t.capacity) [
          | inl (j, h, l, e) ↦
              let held : IsHeld t f (f j) = record {
                index = j;
                inside = h;
                is_there = refl;
                alive = l;
              } in
              lookup-IsHeld t i.after key (f j) d_after table_after (i.kept (f j) held) e
              ∙ sym (lookup-IsHeld t f key (f j) d table held e)
          | inr nowhere ↦
              ap record_of (
                lookup-absent io keccak256 t d_after i.after table_after.shows key
                  (omega (arith, table.two))
                  (λ j h l.
                    elim (i.origin (i.after j)
                      (record { index = j; inside = h; is_there = refl; alive = l })) [
                        | inl is_rec ↦
                            ap (λ (x : Bytes). bytes_equal (t.key_of x) key) is_rec ∙ other
                        | inr held ↦
                            ap (λ (x : Bytes). bytes_equal (t.key_of x) key) (sym held.is_there)
                            ∙ nowhere held.index held.inside
                                (ap (live t) held.is_there ∙ held.alive)
                      ]))
              ∙ sym (
                  ap record_of (
                    lookup-absent io keccak256 t d f table.shows key (omega (arith, table.two))
                      nowhere))
        ])
      ]

  -- The insertion of a record that is not found.
  pub insert_absent-IsInserted :
      (t : Table) (f : ℕ → Bytes) (rec : Bytes) (q : ℕ) (d : Drive S)
      → IsTable t f d
      → q < t.capacity
      → live t (f q) ≡ false
      → (lookup io keccak256 t (t.key_of rec) d).0 ≡ ok none
      → live t rec ≡ true
      → length rec ≡ t.slot_size
      → ((insert io keccak256 t rec d).0 ≡ ok tt)
        × IsInserted laws keccak256 t f rec d (insert io keccak256 t rec d).1
  insert_absent-IsInserted t f rec q d table inside free absent alive len =
      let free_there : IsFree laws t q d.store = record {
        slot = f q;
        reads_as = table.shows.shown q inside;
        has_none = free;
      } in
      (
        insert-ends laws keccak256 t rec q d table.fits len inside free_there,
        insert-IsInserted laws keccak256 t f rec q d table.fits table.shows table.ordered
            table.distinct table.two table.before inside free (absent-IsNew t f rec d table absent)
            alive len,
      )

  -- In a table behind its counter of more than one slot, which lies in its store in Robin Hood
  -- order with no key twice and has a free slot, the insertion of a live record as long as a
  -- slot, whose key a search does not find, ends without a throw and leaves such a table; a
  -- search for any key then gives the new record if the key is its own, and otherwise the
  -- record it gave before, or none if it gave none.
  pub lookup-insert :
      (t : Table) (f : ℕ → Bytes) (rec key : Bytes) (q : ℕ) (d : Drive S)
      → IsTable t f d
      → q < t.capacity
      → live t (f q) ≡ false
      → (lookup io keccak256 t (t.key_of rec) d).0 ≡ ok none
      → live t rec ≡ true
      → length rec ≡ t.slot_size
      → let after = insert io keccak256 t rec d in
        (after.0 ≡ ok tt)
        × ((g : ℕ → Bytes) × IsTable t g after.1)
        × (record_of (lookup io keccak256 t key after.1).0 ≡ (
            if bytes_equal (t.key_of rec) key
            then ok (some rec)
            else record_of (lookup io keccak256 t key d).0))
  lookup-insert t f rec key q d table inside free absent alive len =
      let (done, placed) =
        insert_absent-IsInserted t f rec q d table inside free absent alive len in
      (
        done,
        (placed.after, IsInserted-IsTable t f rec d _ table placed),
        lookup-IsInserted t f rec key d _ table placed,
      )
