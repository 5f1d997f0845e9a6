-- ===== src/AbiDrive/Grown.antt =====
-- A new contract in the ABI drive (abi-drive/js/src/index.ts, the end of `register`): the drive that
-- held a registry then holds it with one entry more.
use mathlib.Core.Path.{subst}
use op_cartesi.Base.{
  ℕ, ◌+◌, ◌*◌, ◌≤◌, ◌<◌, ◌≡◌, ◌∙◌, inl, inr, List, [], ◌∷◌, ◌++◌, arith, length, length-append, ok,
}
use op_cartesi.Bytes.{Bytes, put_le}
use op_cartesi.Bytes.Codec.{length-put_le}
use op_cartesi.Store.{Store}
use op_cartesi.Store.Laws.{IsByteStore}
use op_cartesi.AbiDrive.Types.{header_length, TextCodec, AbiEntry, AbiDrive}
use op_cartesi.AbiDrive.Slot.{length-slot_bytes, slot_bytes-IsSlot}
use op_cartesi.AbiDrive.Holds.{
  AllRecorded, AllRecorded-write, AllRecorded-raise, AllRecorded-append, Recorded,
}
use op_cartesi.AbiDrive.Header.{HasHeader-write, HasHeader-count, HasHeader-used, HasHeader}
use op_cartesi.AbiDrive.Records.{slot_bytes}
use op_cartesi.AbiDrive.Registry.{text_size-append}
use op_cartesi.AbiDrive.Scan.{Represents}
use op_cartesi.AbiDrive.Added.{
  with_text, with_slot, with_count, with_used, added, HasRoom-IsInside, HasRoom,
}

module _ {S : Type 0} {io : Store S} (laws : IsByteStore io) (text : TextCodec) where
  module _ (d : AbiDrive S) (es : List AbiEntry) (e : AbiEntry) (h : Represents laws text d es)
      (small_kind : e.kind < 256) (readable : text.decode (text.encode e.abi) ≡ e.abi)
      (room : HasRoom laws text d e.address e.kind (text.encode e.abi)) where
    abbrev blob : Bytes
    blob = text.encode e.abi

    abbrev s₁ : S
    s₁ = with_text laws text d e.address e.kind blob

    abbrev s₂ : S
    s₂ = with_slot laws text d e.address e.kind blob

    abbrev s₃ : S
    s₃ = with_count laws text d e.address e.kind blob

    abbrev s₄ : S
    s₄ = with_used laws text d e.address e.kind blob

    abbrev at : ℕ
    at = d.heap_offset + d.heap_used

    abbrev top : ℕ
    top = d.heap_offset + (d.heap_used + length blob)

    abbrev bytes : Bytes
    bytes = slot_bytes e.address e.kind at (length blob)

    new_Recorded : Recorded laws text d.index_offset d.heap_offset top s₂ d.count e
    new_Recorded =
        let inside = HasRoom-IsInside laws text d e.address e.kind blob room in
        let l = length-slot_bytes e.address e.kind at (length blob) in
        record {
          raw = bytes;
          blob = blob;
          offset = at;
          size = length blob;
          raw_there =
              subst (λ (n : ℕ). io.read_at (d.index_offset + d.count * 32) n s₂ ≡ ok bytes) l
                (laws.read_back (d.index_offset + d.count * 32) bytes s₁ inside.slot_inside);
          slot =
              slot_bytes-IsSlot e.address e.kind at (length blob) room.address_length small_kind
                (omega (arith, h.words, room.heap_free)) (omega (arith, h.words, room.heap_free));
          blob_there =
              laws.read_apart at (length blob) (d.index_offset + d.count * 32) bytes s₁
                (inr (omega (arith, l, room.slot_free, h.index_room)))
              ∙ laws.read_back at blob d.store inside.text_inside;
          text_is = readable;
          above = omega arith;
          below = omega arith;
        }

    old_AllRecorded : AllRecorded laws text d.index_offset d.heap_offset top s₂ 0 es
    old_AllRecorded =
        let l = length-slot_bytes e.address e.kind at (length blob) in
        let rs₁ =
          AllRecorded-write laws text d.index_offset d.heap_offset at d.store 0 d.count es at blob
            h.recorded (omega (arith, h.counted))
            (inl (omega (arith, room.slot_free, h.index_room))) (inl (omega arith)) in
        let raised =
          AllRecorded-raise laws text d.index_offset d.heap_offset at s₁ 0 es top (omega arith)
            rs₁ in
        AllRecorded-write laws text d.index_offset d.heap_offset top s₁ 0 d.count es
          (d.index_offset + d.count * 32) bytes raised (omega (arith, h.counted))
          (inl (omega arith)) (inr (omega (arith, l, room.slot_free, h.index_room)))

    all_AllRecorded : AllRecorded laws text d.index_offset d.heap_offset top s₂ 0 (es ++ e ∷ [])
    all_AllRecorded =
        let at_end : d.count ≡ 0 + length es = omega (arith, h.counted) in
        AllRecorded-append laws text d.index_offset d.heap_offset top s₂ 0 es e old_AllRecorded (
          subst (λ (i : ℕ). Recorded laws text d.index_offset d.heap_offset top s₂ i e) at_end
            new_Recorded)

    -- A counter is written below the index.
    counter_kept :
        (s : S) (off v : ℕ)
        → off + 4 ≤ header_length
        → AllRecorded laws text d.index_offset d.heap_offset top s 0 (es ++ e ∷ [])
        → AllRecorded laws text d.index_offset d.heap_offset top
            (io.write_at off (put_le 4 v) s).1
            0
            (es ++ e ∷ [])
    counter_kept s off v low rs =
        let four = length-put_le 4 v in
        let more = length-append es (e ∷ []) in
        AllRecorded-write laws text d.index_offset d.heap_offset top s 0 (d.count + 1)
          (es ++ e ∷ []) off (put_le 4 v) rs (omega (arith, more, h.counted))
          (inr (omega (arith, four, low, h.header_room)))
          (inr (omega (arith, four, low, h.header_room, h.index_room)))

    header_kept : HasHeader laws (added laws text d e.address e.kind blob) s₄
    header_kept =
        let inside = HasRoom-IsInside laws text d e.address e.kind blob room in
        let k₁ =
          HasHeader-write laws d d.store at blob (omega (arith, h.header_room, h.index_room))
            h.header in
        let k₂ =
          HasHeader-write laws d s₁ (d.index_offset + d.count * 32) bytes
            (omega (arith, h.header_room)) k₁ in
        let k₃ = HasHeader-count laws d s₂ (d.count + 1) inside.header_inside k₂ in
        let k₄ =
          HasHeader-used laws (record d { count = d.count + 1 }) s₃ (d.heap_used + length blob)
            inside.header_still k₃ in
        record {
          magic_there = k₄.magic_there;
          version_there = k₄.version_there;
          capacity_there = k₄.capacity_there;
          count_there = k₄.count_there;
          index_there = k₄.index_there;
          heap_there = k₄.heap_there;
          length_there = k₄.length_there;
          used_there = k₄.used_there;
        }

    pub added-Represents :
        Represents laws text (added laws text d e.address e.kind blob) (es ++ e ∷ [])
    added-Represents =
        let inside = HasRoom-IsInside laws text d e.address e.kind blob room in
        record {
          header_room = h.header_room;
          index_room = h.index_room;
          heap_room = omega (arith, inside.same_size, h.heap_room);
          words = h.words;
          count_within = omega (arith, room.slot_free);
          used_within = room.heap_free;
          counted = omega (arith, length-append es (e ∷ []), h.counted);
          used_is = omega (arith, text_size-append text es e, h.used_is);
          recorded =
              counter_kept s₃ 32 (d.heap_used + length blob) (omega arith)
                (counter_kept s₂ 16 (d.count + 1) (omega arith) all_AllRecorded);
          header = header_kept;
        }
