-- ===== src/AbiDrive/Fresh.antt =====
-- A freshly formatted ABI drive (abi-drive/js/src/index.ts, `format`): it holds the empty registry,
-- and its header opens.
use mathlib.Core.Path.{subst}
use op_cartesi.Base.{
  ℕ, ◌+◌, ◌-◌, ◌*◌, ◌^◌, ◌≤◌, ◌<◌, ◌≡◌, refl, ap, ◌∙◌, false, List, [], arith, length, ok,
}
use op_cartesi.Bytes.{Bytes, slice, put_le}
use op_cartesi.Store.{Store}
use op_cartesi.Store.Laws.{IsByteStore}
use op_cartesi.AbiDrive.Types.{
  abi_drive_magic, abi_drive_version, header_length, TextCodec, AbiDriveConfig, AbiEntry, AbiDrive,
}
use op_cartesi.AbiDrive.Format.{header_of, is_bad_geometry, fresh, format, open_abi_drive}
use op_cartesi.AbiDrive.Header.{open_abi_drive_lem, IsAsciiCodec, HasHeader}
use op_cartesi.AbiDrive.Registry.{text_size}
use op_cartesi.AbiDrive.Scan.{Represents}

-- The fields of the header's bytes.
module _ (text : TextCodec) (cfg : AbiDriveConfig) (ascii : IsAsciiCodec text) where
  magic_encoded : text.encode abi_drive_magic ≡ abi_drive_magic
  magic_encoded = ascii.encode_ascii abi_drive_magic (omega arith)

  length-header_of : length (header_of text cfg) ≡ header_length
  unfolding header_of put_le
  length-header_of = rw magic_encoded refl

  header_magic : slice 0 8 (header_of text cfg) ≡ abi_drive_magic
  unfolding header_of put_le
  header_magic = rw magic_encoded refl

  header_version : slice 8 2 (header_of text cfg) ≡ put_le 2 abi_drive_version
  unfolding header_of put_le
  header_version = rw magic_encoded refl

  header_capacity : slice 12 4 (header_of text cfg) ≡ put_le 4 cfg.capacity
  unfolding header_of put_le
  header_capacity = rw magic_encoded refl

  header_count : slice 16 4 (header_of text cfg) ≡ put_le 4 0
  unfolding header_of put_le
  header_count = rw magic_encoded refl

  header_index : slice 20 4 (header_of text cfg) ≡ put_le 4 header_length
  unfolding header_of put_le
  header_index = rw magic_encoded refl

  header_heap : slice 24 4 (header_of text cfg) ≡ put_le 4 cfg.heap_offset
  unfolding header_of put_le
  header_heap = rw magic_encoded refl

  header_heap_length :
      slice 28 4 (header_of text cfg) ≡ put_le 4 (cfg.drive_length - cfg.heap_offset)
  unfolding header_of put_le
  header_heap_length = rw magic_encoded refl

  header_used : slice 32 4 (header_of text cfg) ≡ put_le 4 0
  unfolding header_of put_le
  header_used = rw magic_encoded refl

module _ {S : Type 0} {io : Store S} (laws : IsByteStore io) (text : TextCodec) where
  -- A configuration that `format` takes, for a drive that the store has room for.
  pub record IsFormattable (cfg : AbiDriveConfig) (s : S) : Type 0 where
    pub good : is_bad_geometry cfg ≡ false
    pub in_store : cfg.drive_length ≤ laws.size s
    pub in_words : cfg.drive_length < 256 ^ 4

  module _ (cfg : AbiDriveConfig) (s : S) (ascii : IsAsciiCodec text)
      (fit : IsFormattable cfg s) where
    abbrev pub formatted : S
    formatted = (io.write_at 0 (header_of text cfg) s).1

    geometry :
        (header_length + cfg.capacity * 32 ≤ cfg.heap_offset) × (cfg.heap_offset < cfg.drive_length)
    geometry = ground (arith, fit.good)

    header_inside : 0 + length (header_of text cfg) ≤ laws.size s
    header_inside = omega (arith, length-header_of text cfg ascii, geometry, fit.in_store)

    header_there : io.read_at 0 header_length formatted ≡ ok (header_of text cfg)
    header_there =
        subst (λ (n : ℕ). io.read_at 0 n formatted ≡ ok (header_of text cfg))
          (length-header_of text cfg ascii) (laws.read_back 0 (header_of text cfg) s header_inside)

    header_part :
        (o m : ℕ) (b : Bytes)
        → o + m ≤ header_length
        → slice o m (header_of text cfg) ≡ b
        → io.read_at (0 + o) m formatted ≡ ok b
    header_part o m b inside e =
        laws.read_part 0 header_length o m (header_of text cfg) formatted header_there inside
        ∙ ap (λ (r : Bytes). ok r) e

    fresh-HasHeader : HasHeader laws (fresh io text cfg formatted) formatted
    fresh-HasHeader = record {
      magic_there = header_part 0 8 _ (omega arith) (header_magic text cfg ascii);
      version_there = header_part 8 2 _ (omega arith) (header_version text cfg ascii);
      capacity_there = header_part 12 4 _ (omega arith) (header_capacity text cfg ascii);
      count_there = header_part 16 4 _ (omega arith) (header_count text cfg ascii);
      index_there = header_part 20 4 _ (omega arith) (header_index text cfg ascii);
      heap_there = header_part 24 4 _ (omega arith) (header_heap text cfg ascii);
      length_there = header_part 28 4 _ (omega arith) (header_heap_length text cfg ascii);
      used_there = header_part 32 4 _ (omega arith) (header_used text cfg ascii);
    }

    pub format_lem : format io text cfg s ≡ (ok (fresh io text cfg formatted), formatted)
    unfolding format
    format_lem =
        let wrote = laws.write_in 0 (header_of text cfg) s header_inside in
        rw (format, fit.good, wrote) refl

    pub fresh-Represents : Represents laws text (fresh io text cfg formatted) []
    unfolding text_size
    fresh-Represents =
        let same = laws.write_size 0 (header_of text cfg) s in
        let (index_before, heap_before) = geometry in
        record {
          header_room = omega arith;
          index_room = index_before;
          heap_room = omega (arith, same, heap_before, fit.in_store);
          words = omega (arith, heap_before, fit.in_words);
          count_within = omega arith;
          used_within = omega arith;
          counted = refl;
          used_is = omega arith;
          recorded = tt;
          header = fresh-HasHeader;
        }

  -- A drive that holds a registry opens as it is.
  pub Represents-open :
      (d : AbiDrive S) (es : List AbiEntry)
      → IsAsciiCodec text
      → Represents laws text d es
      → open_abi_drive io text d.store ≡ ok d
  Represents-open d es ascii h =
      open_abi_drive_lem laws text d ascii (omega (arith, h.header_room, h.index_room, h.heap_room))
        (record {
          capacity_fits = omega (arith, h.index_room, h.words);
          count_fits = omega (arith, h.count_within, h.index_room, h.words);
          index_fits = omega (arith, h.index_room, h.words);
          heap_fits = omega (arith, h.words);
          length_fits = omega (arith, h.words);
          used_fits = omega (arith, h.used_within, h.words);
        })
        h.header
