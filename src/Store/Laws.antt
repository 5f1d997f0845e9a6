-- ===== src/Store/Laws.antt =====
-- What the drive may ask of a store of bytes (accounts-drive/js/src/store.ts, `Store`), and
-- `MemStore` as such a store.
use op_cartesi.Base.{
  ℕ, ◌+◌, ◌≤◌, ◌≡◌, refl, sym, ap, ◌∙◌, ◌⊎◌, inl, inr, arith, leb, leb→le, le→leb, Bool-cases,
  length, out_of_bounds, Failure, error, ok, err,
}
use op_cartesi.Bytes.{Bytes, slice, splice}
use op_cartesi.Bytes.Splice.{
  length-slice, length-splice, slice-splice_self, slice-splice_below, slice-splice_above,
  slice-slice,
}
use op_cartesi.Store.{mem_read, mem_write, mem_store, Store}

pub record IsByteStore {S : Type 0} (io : Store S) : Type 0 where
  pub size : S → ℕ
  pub read_in :
      (off n : ℕ) (s : S)
      → off + n ≤ size s
      → (b : Bytes) × (io.read_at off n s ≡ ok b) × (length b ≡ n)
  pub write_in :
      (off : ℕ) (b : Bytes) (s : S) → off + length b ≤ size s → (io.write_at off b s).0 ≡ ok tt
  pub write_size : (off : ℕ) (b : Bytes) (s : S) → size (io.write_at off b s).1 ≡ size s
  pub read_back :
      (off : ℕ) (b : Bytes) (s : S)
      → off + length b ≤ size s
      → io.read_at off (length b) (io.write_at off b s).1 ≡ ok b
  pub read_part :
      (off n o m : ℕ) (b : Bytes) (s : S)
      → io.read_at off n s ≡ ok b
      → o + m ≤ n
      → io.read_at (off + o) m s ≡ ok (slice o m b)
  pub read_apart :
      (o n off : ℕ) (b : Bytes) (s : S)
      → (o + n ≤ off) ⊎ (off + length b ≤ o)
      → io.read_at o n (io.write_at off b s).1 ≡ io.read_at o n s

-- What was written in bounds is read back.
pub mem_read_back :
    (off : ℕ) (b s : Bytes)
    → off + length b ≤ length s
    → mem_read off (length b) (splice off b s) ≡ ok b
mem_read_back off b s h =
    rw (length-splice off b s, le→leb (off + length b) (length s) h, slice-splice_self off b s h)
      refl

-- A read in bounds, and a write, in either case.
pub mem_read_in :
    (off n : ℕ) (s : Bytes)
    → off + n ≤ length s
    → (b : Bytes) × (mem_read off n s ≡ ok b) × (length b ≡ n)
mem_read_in off n s h =
    (slice off n s, rw (le→leb (off + n) (length s) h) refl, length-slice off n s h)

pub ok_bytes : (a b : Bytes) → ok a ≡ ok b → a ≡ b
ok_bytes a b e = cc

no_bytes : (f : Failure) (b : Bytes) → err f ≡ ok b → ⊥
no_bytes f b e = cc

-- A part of what is read is read by itself.
pub mem_read_part :
    (off n o m : ℕ) (b s : Bytes)
    → mem_read off n s ≡ ok b
    → o + m ≤ n
    → mem_read (off + o) m s ≡ ok (slice o m b)
mem_read_part off n o m b s e h = elim (Bool-cases (leb (off + n) (length s))) [
  | inl fits ↦
      let same = ok_bytes (slice off n s) b (rw fits at e) in
      let inside : off + o + m ≤ length s = omega (arith, leb→le (off + n) (length s) fits, h) in
      rw (le→leb (off + o + m) (length s) inside) (
        ap (λ (r : Bytes). ok r)
          (sym (slice-slice off n o m s h) ∙ ap (λ (r : Bytes). slice o m r) same))
  | inr out ↦ absurd (no_bytes (error out_of_bounds) b (rw out at e))
]

mem_write_size : (off : ℕ) (b s : Bytes) → length (mem_write off b s).1 ≡ length s
mem_write_size off b s = elim (Bool-cases (leb (off + length b) (length s))) [
  | inl e ↦ rw e (length-splice off b s)
  | inr e ↦ rw e refl
]

slice-splice_apart :
    (o n off : ℕ) (b s : Bytes)
    → (o + n ≤ off) ⊎ (off + length b ≤ o)
    → slice o n (splice off b s) ≡ slice o n s
slice-splice_apart o n off b s (inl h) = slice-splice_below o n off b s h
slice-splice_apart o n off b s (inr h) = slice-splice_above o n off b s h

pub mem_read-splice :
    (o n off : ℕ) (b s : Bytes)
    → (o + n ≤ off) ⊎ (off + length b ≤ o)
    → mem_read o n (splice off b s) ≡ mem_read o n s
mem_read-splice o n off b s h = rw (length-splice off b s, slice-splice_apart o n off b s h) refl

mem_read_apart :
    (o n off : ℕ) (b s : Bytes)
    → (o + n ≤ off) ⊎ (off + length b ≤ o)
    → mem_read o n (mem_write off b s).1 ≡ mem_read o n s
mem_read_apart o n off b s h = elim (Bool-cases (leb (off + length b) (length s))) [
  | inl e ↦ rw (mem_write, e) (mem_read-splice o n off b s h)
  | inr e ↦ rw (mem_write, e) refl
]

pub mem_store-IsByteStore : IsByteStore mem_store
mem_store-IsByteStore = record {
  size = λ s. length s;
  read_in = mem_read_in;
  write_in = λ off b s h. rw (le→leb (off + length b) (length s) h) refl;
  write_size = mem_write_size;
  read_back =
      λ off b s h. rw (mem_write, le→leb (off + length b) (length s) h) (mem_read_back off b s h);
  read_part = λ off n o m b s e h. mem_read_part off n o m b s e h;
  read_apart = mem_read_apart;
}

pub size-mem_store : (s : Bytes) → mem_store-IsByteStore.size s ≡ length s
unfolding mem_store-IsByteStore
size-mem_store s = refl
