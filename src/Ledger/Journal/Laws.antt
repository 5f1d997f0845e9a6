-- ===== src/Ledger/Journal/Laws.antt =====
-- The journaled store is a store of bytes (app/src/ledger.ts, `JournaledStore`).
use op_cartesi.Base.{
  ℕ, ◌+◌, ◌≤◌, ◌≡◌, refl, ◌⊎◌, inl, inr, leb, leb→le, leb_false→lt, Bool-cases, length, ok,
}
use op_cartesi.Bytes.{Bytes}
use op_cartesi.Bytes.Splice.{length-splice}
use op_cartesi.Store.Laws.{mem_read_back, mem_read_in, mem_read_part, mem_read-splice, IsByteStore}
use op_cartesi.Ledger.Types.{Journaled}
use op_cartesi.Ledger.Journal.{journaled_store}
use op_cartesi.Ledger.Journal.Rewind.{journaled_write, journaled_write_out}

journaled_write_size :
    (off : ℕ) (b : Bytes) (s : Journaled)
    → length (journaled_store.write_at off b s).1.inner ≡ length s.inner
journaled_write_size off b s = elim (Bool-cases (leb (off + length b) (length s.inner))) [
  | inl e ↦
      rw (journaled_write off b s (leb→le (off + length b) (length s.inner) e))
        (length-splice off b s.inner)
  | inr e ↦ rw (journaled_write_out off b s (leb_false→lt (off + length b) (length s.inner) e)) refl
]

journaled_read_apart :
    (o n off : ℕ) (b : Bytes) (s : Journaled)
    → (o + n ≤ off) ⊎ (off + length b ≤ o)
    → journaled_store.read_at o n (journaled_store.write_at off b s).1
      ≡ journaled_store.read_at o n s
unfolding journaled_store
journaled_read_apart o n off b s h = elim (Bool-cases (leb (off + length b) (length s.inner))) [
  | inl e ↦
      rw (journaled_write off b s (leb→le (off + length b) (length s.inner) e))
        (mem_read-splice o n off b s.inner h)
  | inr e ↦ rw (journaled_write_out off b s (leb_false→lt (off + length b) (length s.inner) e)) refl
]

journaled_read_back :
    (off : ℕ) (b : Bytes) (s : Journaled)
    → off + length b ≤ length s.inner
    → journaled_store.read_at off (length b) (journaled_store.write_at off b s).1 ≡ ok b
unfolding journaled_store
journaled_read_back off b s h = rw (journaled_write off b s h) (mem_read_back off b s.inner h)

pub journaled_store-IsByteStore : IsByteStore journaled_store
unfolding journaled_store
journaled_store-IsByteStore = record {
  size = λ s. length s.inner;
  read_in = λ off n s h. mem_read_in off n s.inner h;
  write_in = λ off b s h. rw (journaled_write off b s h) refl;
  write_size = journaled_write_size;
  read_back = journaled_read_back;
  read_part = λ off n o m b s e h. mem_read_part off n o m b s.inner e h;
  read_apart = journaled_read_apart;
}

pub size-journaled_store : (s : Journaled) → journaled_store-IsByteStore.size s ≡ length s.inner
unfolding journaled_store-IsByteStore
size-journaled_store s = refl
