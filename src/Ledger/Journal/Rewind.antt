-- ===== src/Ledger/Journal/Rewind.antt =====
-- The states that the journal leads back to (app/src/ledger.ts, `Journal.rollbackTo`).
use op_cartesi.Base.{
  ◌>>=◌, ℕ, zero, suc, ◌+◌, ◌≤◌, ◌<◌, ◌≡◌, refl, inl, inr, ◌∷◌, arith, leb, leb→le, le→leb,
  Bool-cases, length, out_of_bounds, error, ok, err,
}
use op_cartesi.Bytes.{Bytes, slice, splice}
use op_cartesi.Bytes.Splice.{length-slice, length-splice, splice_undo}
use op_cartesi.Drive.Frame.{IsStoreOrder}
use op_cartesi.Ledger.Types.{write_back, Journaled, Ram}
use op_cartesi.Ledger.Journal.{journaled_store, Core, restore, undo_from, unwind}

-- Popping entries of `u` one after the other, with no throw, leads back to `c`.
pub data Rewinds (c : Core) : Core → Type 0 where
  here : Rewinds c c
  back :
      {u v : Core}
      → undo_from u.0.entries u ≡ (ok tt, v)
      → length u.0.entries ≡ suc (length v.0.entries)
      → Rewinds c v
      → Rewinds c u

pub Rewinds-trans : {c t u : Core} → Rewinds c t → Rewinds t u → Rewinds c u
Rewinds-trans r here = r
Rewinds-trans r (back e n s) = back e n (Rewinds-trans r s)

pub Rewinds-le : {c u : Core} → Rewinds c u → length c.0.entries ≤ length u.0.entries
Rewinds-le here = omega arith
Rewinds-le (back e n r) = omega (arith, Rewinds-le r)

-- As many pops as there are entries above the mark lead back exactly.
pub unwind-Rewinds :
    {c u : Core} (r : Rewinds c u) (n : ℕ)
    → length u.0.entries ≡ n + length c.0.entries
    → unwind n u ≡ (ok tt, c)
unfolding unwind ◌>>=◌
unwind-Rewinds here zero h = refl
unwind-Rewinds here (suc n) h = absurd (omega arith)
unwind-Rewinds (back e m r) zero h = absurd (omega (arith, Rewinds-le r))
unwind-Rewinds (back e m r) (suc n) h = rw e (unwind-Rewinds r n (omega arith))

-- The stores of a drive, whatever the RAM state beside them.
abbrev pub StoreRewinds : Journaled → Journaled → Type 0
StoreRewinds s t = (ram : Ram) → Rewinds (s, ram) (t, ram)

-- A write in bounds notes what it replaces; any other throws and changes nothing.
pub journaled_write :
    (off : ℕ) (b : Bytes) (s : Journaled)
    → off + length b ≤ length s.inner
    → journaled_store.write_at off b s ≡ (
      ok tt,
      record {
        inner = splice off b s.inner;
        entries = write_back off (slice off (length b) s.inner) ∷ s.entries;
      },
    )
unfolding journaled_store
journaled_write off b s h = ground arith

pub journaled_write_out :
    (off : ℕ) (b : Bytes) (s : Journaled)
    → length s.inner < off + length b
    → journaled_store.write_at off b s ≡ (err (error out_of_bounds), s)
unfolding journaled_store
journaled_write_out off b s h = ground arith

undo_write :
    (off : ℕ) (b : Bytes) (s : Journaled) (ram : Ram)
    → off + length b ≤ length s.inner
    → restore
        (write_back off (slice off (length b) s.inner))
        (record { inner = splice off b s.inner; entries = s.entries }, ram)
      ≡ (ok tt, (s, ram))
unfolding restore
undo_write off b s ram h =
    let old = slice off (length b) s.inner in
    let fits : off + length old ≤ length (splice off b s.inner) =
      omega (arith, length-splice off b s.inner, length-slice off (length b) s.inner h) in
    rw (le→leb (off + length old) (length (splice off b s.inner)) fits, splice_undo off b s.inner h)

write_rewinds :
    (off : ℕ) (b : Bytes) (s : Journaled) → StoreRewinds s (journaled_store.write_at off b s).1
unfolding undo_from
write_rewinds off b s ram = elim (Bool-cases (leb (off + length b) (length s.inner))) [
  | inl fits ↦
      let h = leb→le (off + length b) (length s.inner) fits in
      rw (journaled_write off b s h) (back (undo_write off b s ram h) refl here)
  | inr out ↦ rw (journaled_write_out off b s (ground arith)) here
]

pub journaled_store-order : IsStoreOrder journaled_store StoreRewinds
journaled_store-order = record {
  preorder = record {
    here = λ s ram. here;
    chain = λ s t u h k ram. Rewinds-trans (h ram) (k ram);
  };
  write = write_rewinds;
}
