-- ===== src/AbiDrive/Added.antt =====
-- The writes of a registration in the ABI drive (abi-drive/js/src/index.ts, the end of `register`).
use op_cartesi.Bytes.Codec.{length-put_le}
use op_cartesi.AbiDrive.Slot.{length-slot_bytes}
use op_cartesi.Base.{◌>>=◌, ℕ, ◌+◌, ◌*◌, ◌≤◌, ◌<◌, ◌≡◌, refl, ◌∙◌, arith, length, ok}
use op_cartesi.Bytes.{Bytes, put_le}
use op_cartesi.Store.{Store}
use op_cartesi.Store.Laws.{IsByteStore}
use op_cartesi.AbiDrive.Types.{header_length, TextCodec, AbiDrive}
use op_cartesi.AbiDrive.Records.{slot_bytes, write_bytes, add_entry}

module _ {S : Type 0} {io : Store S} (laws : IsByteStore io) (text : TextCodec) where
  module _ (d : AbiDrive S) (address : Bytes) (kind : ℕ) (blob : Bytes) where
    abbrev pub text_offset : ℕ
    text_offset = d.heap_offset + d.heap_used

    abbrev pub slot_offset : ℕ
    slot_offset = d.index_offset + d.count * 32

    abbrev pub slot : Bytes
    slot = slot_bytes address kind text_offset (length blob)

    abbrev pub with_text : S
    with_text = (io.write_at text_offset blob d.store).1

    abbrev pub with_slot : S
    with_slot = (io.write_at slot_offset slot with_text).1

    abbrev pub with_count : S
    with_count = (io.write_at 16 (put_le 4 (d.count + 1)) with_slot).1

    abbrev pub with_used : S
    with_used = (io.write_at 32 (put_le 4 (d.heap_used + length blob)) with_count).1

    -- The drive after the four writes.
    abbrev pub added : AbiDrive S
    added = record d {
      store = with_used;
      count = d.count + 1;
      heap_used = d.heap_used + length blob;
    }

    -- Room for one more.
    pub record HasRoom : Type 0 where
      pub header_before : header_length ≤ d.index_offset
      pub index_before : d.index_offset + d.capacity * 32 ≤ d.heap_offset
      pub heap_inside : d.heap_offset + d.heap_length ≤ laws.size d.store
      pub slot_free : d.count < d.capacity
      pub heap_free : d.heap_used + length blob ≤ d.heap_length
      pub address_length : length address ≡ 20

    -- The writes lie in the store, which keeps its size.
    pub record IsInside : Type 0 where
      pub text_inside : text_offset + length blob ≤ laws.size d.store
      pub slot_inside : slot_offset + length slot ≤ laws.size with_text
      pub count_inside : 16 + length (put_le 4 (d.count + 1)) ≤ laws.size with_slot
      pub used_inside : 32 + length (put_le 4 (d.heap_used + length blob)) ≤ laws.size with_count
      pub same_size : laws.size with_used ≡ laws.size d.store
      pub header_inside : header_length ≤ laws.size with_slot
      pub header_still : header_length ≤ laws.size with_count

    pub HasRoom-IsInside : HasRoom → IsInside
    HasRoom-IsInside room =
        let z₁ = laws.write_size text_offset blob d.store in
        let z₂ = laws.write_size slot_offset slot with_text in
        let z₃ = laws.write_size 16 (put_le 4 (d.count + 1)) with_slot in
        let z₄ = laws.write_size 32 (put_le 4 (d.heap_used + length blob)) with_count in
        let l₁ = length-slot_bytes address kind text_offset (length blob) in
        let l₂ = length-put_le 4 (d.count + 1) in
        let l₃ = length-put_le 4 (d.heap_used + length blob) in
        record {
          text_inside = omega (arith, room.heap_free, room.heap_inside);
          slot_inside = omega (arith, l₁, z₁, room.slot_free, room.index_before, room.heap_inside);
          count_inside = omega (
            arith, l₂, z₁, z₂, room.slot_free, room.header_before, room.index_before,
            room.heap_inside,
          );
          used_inside = omega (
            arith, l₃, z₁, z₂, z₃, room.slot_free, room.header_before, room.index_before,
            room.heap_inside,
          );
          same_size = z₄ ∙ z₃ ∙ z₂ ∙ z₁;
          header_inside = omega (
            arith, z₁, z₂, room.slot_free, room.header_before, room.index_before, room.heap_inside,
          );
          header_still = omega (
            arith, z₁, z₂, z₃, room.slot_free, room.header_before, room.index_before,
            room.heap_inside,
          );
        }

    pub add_entry_lem : HasRoom → add_entry io text address kind blob d ≡ (ok tt, added)
    unfolding add_entry write_bytes ◌>>=◌
    add_entry_lem room =
        let inside = HasRoom-IsInside room in
        let w₁ = laws.write_in text_offset blob d.store inside.text_inside in
        let w₂ = laws.write_in slot_offset slot with_text inside.slot_inside in
        let w₃ = laws.write_in 16 (put_le 4 (d.count + 1)) with_slot inside.count_inside in
        let w₄ =
          laws.write_in 32 (put_le 4 (d.heap_used + length blob)) with_count inside.used_inside in
        rw (w₁, w₂, w₃, w₄) refl
