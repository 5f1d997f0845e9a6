-- ===== src/AbiDrive/Records.antt =====
-- The entries of the ABI drive (abi-drive/js/src/index.ts, `entryAt`, `entries`, `entryOf`, `abiOf`
-- and `register`), over any store.
use op_cartesi.Base.{
  gets, modify, reads, throw_if, if_some, ◌>>=◌, ℕ, zero, suc, ◌+◌, ◌*◌, ◌%◌, not, ◌&&◌, Option,
  none, some, List, [], ◌∷◌, ltb, leb, ◌==◌, if◌then◌else◌, length, replicate, Act, ◌>>◌,
  AbiDriveErrorKind, heap_full, duplicate, bad_address, error, abi_drive, Result, ok, err,
}
use op_cartesi.Bytes.{Bytes, slice, splice, bytes_equal, get_le, put_le}
use op_cartesi.Store.{Store}
use op_cartesi.AbiDrive.Types.{Text, entry_length, TextCodec, AbiEntry, AbiDrive}

-- The 32 bytes of an index slot: the address, the kind, and where the text lies.
unfoldable pub slot_bytes : Bytes → ℕ → ℕ → ℕ → Bytes
slot_bytes address kind offset size =
    let s₀ = splice 0 address (replicate entry_length 0) in
    let s₁ = splice 20 ((kind % 256) ∷ []) s₀ in
    splice 26 (put_le 4 size) (splice 22 (put_le 4 offset) s₁)

module _ {S : Type 0} (io : Store S) (text : TextCodec) where
  -- The entry that a slot's bytes describe, with its text read from the heap.
  unfoldable pub entry_of_slot : Bytes → S → Result AbiEntry
  entry_of_slot raw s = elim (io.read_at (get_le (slice 22 4 raw)) (get_le (slice 26 4 raw)) s) [
    | err e ↦ err e
    | ok blob ↦ ok (record {
      address = slice 0 20 raw;
      kind = get_le (slice 20 1 raw);
      abi = text.decode blob;
    })
  ]

  unfoldable pub entry_at : ℕ → AbiDrive S → Result AbiEntry
  unfolding entry_of_slot
  entry_at i d = elim (io.read_at (d.index_offset + i * entry_length) entry_length d.store) [
    | err e ↦ err e
    | ok raw ↦ entry_of_slot raw d.store
  ]

  -- The loop of `entries`, by the rounds left.
  unfoldable pub entries_from : ℕ → ℕ → AbiDrive S → Result (List AbiEntry)
  entries_from zero i d = ok []
  entries_from (suc n) i d = elim (entry_at i d) [
    | err e ↦ err e
    | ok entry ↦ elim (entries_from n (i + 1) d) [ err e ↦ err e | ok rest ↦ ok (entry ∷ rest) ]
  ]

  unfoldable pub entries : AbiDrive S → Result (List AbiEntry)
  unfolding entries_from
  entries d = entries_from d.count 0 d

  -- The loop of `entryOf`, by the rounds left.
  unfoldable pub entry_of_from : Bytes → ℕ → ℕ → AbiDrive S → Result (Option AbiEntry)
  entry_of_from wanted zero i d = ok none
  entry_of_from wanted (suc n) i d = elim (entry_at i d) [
    | err e ↦ err e
    | ok entry ↦
        let rest = entry_of_from wanted n (i + 1) d in
        if bytes_equal entry.address wanted then ok (some entry) else rest
  ]

  -- `getAddress` throws on what is no address.
  unfoldable pub entry_of : Bytes → AbiDrive S → Result (Option AbiEntry)
  unfolding entry_of_from
  entry_of address d =
      if length address == 20 then entry_of_from address d.count 0 d else err (error bad_address)

  unfoldable pub abi_of : Bytes → AbiDrive S → Result (Option Text)
  unfolding entry_of
  abi_of address d = elim (entry_of address d) [
    | err e ↦ err e
    | ok none ↦ ok none
    | ok (some entry) ↦ ok (some entry.abi)
  ]

  unfoldable pub write_bytes : ℕ → Bytes → Act (AbiDrive S) (Unit {0})
  write_bytes off b d = let (r, s) = io.write_at off b d.store in (r, record d { store = s })

  -- The second half of `register`: the text, the slot, the count and the used length, in this order.
  unfoldable pub add_entry : Bytes → ℕ → Bytes → Act (AbiDrive S) (Unit {0})
  unfolding write_bytes slot_bytes
  add_entry address kind blob = do
    offset ← gets (λ d. d.heap_offset + d.heap_used)
    write_bytes offset blob
    at ← gets (λ d. d.index_offset + d.count * entry_length)
    write_bytes at (slot_bytes address kind offset (length blob))
    modify (λ d. record d { count = d.count + 1; heap_used = d.heap_used + length blob })
    count ← gets (λ d. d.count)
    write_bytes 16 (put_le 4 count)
    used ← gets (λ d. d.heap_used)
    write_bytes 32 (put_le 4 used)

  unfoldable pub register_new : Bytes → ℕ → Bytes → Act (AbiDrive S) (Unit {0})
  unfolding add_entry
  register_new address kind blob = do
    full ← gets (λ d. leb d.capacity d.count)
    throw_if full (abi_drive AbiDriveErrorKind.registry_full)
    over ← gets (λ d. ltb d.heap_length (d.heap_used + length blob))
    throw_if over (abi_drive heap_full)
    add_entry address kind blob

  unfoldable pub register : Bytes → ℕ → Text → Act (AbiDrive S) (Unit {0})
  unfolding entry_of register_new
  register address kind abi = do
    existing ← reads (entry_of address)
    if_some existing
        (λ e. throw_if (not ((e.kind == kind) && bytes_equal e.abi abi)) (abi_drive duplicate))
        (register_new address kind (text.encode abi))
