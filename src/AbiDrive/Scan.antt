-- ===== src/AbiDrive/Scan.antt =====
-- A drive that holds a registry, and what its reads return (abi-drive/js/src/index.ts, `entryAt`,
-- `entries`, `entryOf` and `abiOf`).
use op_cartesi.Base.{
  ℕ, ◌+◌, ◌*◌, ◌^◌, ◌≤◌, ◌<◌, ◌≡◌, refl, ap, ◌∙◌, inl, inr, List, [], ◌∷◌, Bool-cases, length, ok,
}
use op_cartesi.Bytes.{Bytes, bytes_equal}
use op_cartesi.Store.{Store}
use op_cartesi.Store.Laws.{IsByteStore}
use op_cartesi.AbiDrive.Types.{header_length, TextCodec, AbiEntry, AbiDrive}
use op_cartesi.AbiDrive.Holds.{AllRecorded, Recorded}
use op_cartesi.AbiDrive.Header.{HasHeader}
use op_cartesi.AbiDrive.Records.{
  entry_of_slot, entry_at, entries_from, entries, entry_of_from, entry_of,
}
use op_cartesi.AbiDrive.Registry.{find, text_size}

module _ {S : Type 0} {io : Store S} (laws : IsByteStore io) (text : TextCodec) where
  pub record Represents (d : AbiDrive S) (es : List AbiEntry) : Type 0 where
    pub header_room : header_length ≤ d.index_offset
    pub index_room : d.index_offset + d.capacity * 32 ≤ d.heap_offset
    pub heap_room : d.heap_offset + d.heap_length ≤ laws.size d.store
    pub words : d.heap_offset + d.heap_length < 256 ^ 4
    pub count_within : d.count ≤ d.capacity
    pub used_within : d.heap_used ≤ d.heap_length
    pub counted : d.count ≡ length es
    pub used_is : d.heap_used ≡ text_size text es
    pub recorded :
        AllRecorded laws text d.index_offset d.heap_offset
          (d.heap_offset + d.heap_used)
          d.store
          0
          es
    pub header : HasHeader laws d d.store

  module _ (index heap top : ℕ) (s : S) where
    entry_of_slot_lem :
        (i : ℕ) (e : AbiEntry) (r : Recorded laws text index heap top s i e)
        → entry_of_slot io text r.raw s ≡ ok e
    unfolding entry_of_slot
    entry_of_slot_lem i e r =
        rw (entry_of_slot, r.slot.offset_field, r.slot.size_field, r.blob_there)
          λ j. ok (record {
            address = r.slot.address_field j;
            kind = r.slot.kind_field j;
            abi = r.text_is j;
          })

  module _ (d : AbiDrive S) (heap top : ℕ) where
    entry_at_lem :
        (i : ℕ) (e : AbiEntry)
        → Recorded laws text d.index_offset heap top d.store i e
        → entry_at io text i d ≡ ok e
    unfolding entry_at
    entry_at_lem i e r =
        rw (entry_at, r.raw_there) (entry_of_slot_lem d.index_offset heap top d.store i e r)

    entries_from_lem :
        (i : ℕ) (es : List AbiEntry)
        → AllRecorded laws text d.index_offset heap top d.store i es
        → entries_from io text (length es) i d ≡ ok es
    unfolding entries_from
    entries_from_lem i [] rs = refl
    entries_from_lem i (e ∷ es) (r, rs) =
        rw (entries_from, entry_at_lem i e r, entries_from_lem (i + 1) es rs) refl

    entry_of_from_lem :
        (wanted : Bytes) (i : ℕ) (es : List AbiEntry)
        → AllRecorded laws text d.index_offset heap top d.store i es
        → entry_of_from io text wanted (length es) i d ≡ ok (find wanted es)
    unfolding entry_of_from find
    entry_of_from_lem wanted i [] rs = refl
    entry_of_from_lem wanted i (e ∷ es) (r, rs) =
        rw (entry_of_from, entry_at_lem i e r, entry_of_from_lem wanted (i + 1) es rs)
          (elim (Bool-cases (bytes_equal e.address wanted)) [
            | inl same ↦ rw same refl
            | inr other ↦ rw other refl
          ])

  -- Every entry is read, in order.
  pub entries_lem :
      (d : AbiDrive S) (es : List AbiEntry) → Represents d es → entries io text d ≡ ok es
  unfolding entries
  entries_lem d es h =
      ap (λ (n : ℕ). entries_from io text n 0 d) h.counted
      ∙ entries_from_lem d d.heap_offset (d.heap_offset + d.heap_used) 0 es h.recorded

  pub entry_of_lem :
      (address : Bytes) (d : AbiDrive S) (es : List AbiEntry)
      → Represents d es
      → length address ≡ 20
      → entry_of io text address d ≡ ok (find address es)
  unfolding entry_of
  entry_of_lem address d es h len =
      rw (entry_of, len)
        (ap (λ (n : ℕ). entry_of_from io text address n 0 d) h.counted
          ∙ entry_of_from_lem d d.heap_offset (d.heap_offset + d.heap_used) address 0 es h.recorded)
