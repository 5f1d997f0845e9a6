-- ===== src/AbiDrive/Format.antt =====
-- The ABI drive's header (abi-drive/js/src/index.ts, `format`, `open` and `openOrFormat`).
use op_cartesi.Base.{
  ◌+◌, ◌-◌, ◌*◌, Bool, not, ◌||◌, ltb, leb, ◌==◌, if◌then◌else◌, replicate, AbiDriveErrorKind,
  bad_geometry, abi_drive, Result, ok, err,
}
use op_cartesi.Bytes.{Bytes, slice, splice, bytes_equal, get_le, put_le}
use op_cartesi.Store.{Store}
use op_cartesi.AbiDrive.Types.{
  abi_drive_magic, abi_drive_version, header_length, entry_length, TextCodec, AbiDriveConfig,
  AbiDrive,
}

-- The 64 bytes that `format` writes.
unfoldable pub header_of : TextCodec → AbiDriveConfig → Bytes
header_of text cfg =
    let h₀ = splice 0 (text.encode abi_drive_magic) (replicate header_length 0) in
    let h₁ = splice 8 (put_le 2 abi_drive_version) h₀ in
    let h₂ = splice 12 (put_le 4 cfg.capacity) h₁ in
    let h₃ = splice 16 (put_le 4 0) h₂ in
    let h₄ = splice 20 (put_le 4 header_length) h₃ in
    let h₅ = splice 24 (put_le 4 cfg.heap_offset) h₄ in
    let h₆ = splice 28 (put_le 4 (cfg.drive_length - cfg.heap_offset)) h₅ in
    splice 32 (put_le 4 0) h₆

-- The test of `format` on the geometry.
abbrev pub is_bad_geometry : AbiDriveConfig → Bool
is_bad_geometry cfg =
    ltb cfg.heap_offset (header_length + cfg.capacity * entry_length)
    || leb cfg.drive_length cfg.heap_offset

-- The drive that a header describes.
unfoldable pub drive_of : {S : Type 0} → Bytes → S → AbiDrive S
drive_of h s = record {
  store = s;
  capacity = get_le (slice 12 4 h);
  count = get_le (slice 16 4 h);
  index_offset = get_le (slice 20 4 h);
  heap_offset = get_le (slice 24 4 h);
  heap_length = get_le (slice 28 4 h);
  heap_used = get_le (slice 32 4 h);
}

module _ {S : Type 0} (io : Store S) (text : TextCodec) where
  abbrev pub fresh : AbiDriveConfig → S → AbiDrive S
  fresh cfg s = record {
    store = s;
    capacity = cfg.capacity;
    count = 0;
    index_offset = header_length;
    heap_offset = cfg.heap_offset;
    heap_length = cfg.drive_length - cfg.heap_offset;
    heap_used = 0;
  }

  -- `AbiDrive.format`
  unfoldable pub format : AbiDriveConfig → S → Result (AbiDrive S) × S
  unfolding header_of
  format cfg s =
      if is_bad_geometry cfg
      then (err (abi_drive bad_geometry), s)
      else let (r, s') = io.write_at 0 (header_of text cfg) s in
        elim r [ err e ↦ (err e, s') | ok _ ↦ (ok (fresh cfg s'), s') ]

  -- The tests of `open` on the header.
  abbrev pub opened : Bytes → S → Result (AbiDrive S)
  opened h s =
      if not (bytes_equal (text.decode (slice 0 8 h)) abi_drive_magic)
      then err (abi_drive AbiDriveErrorKind.bad_magic)
      else if not (get_le (slice 8 2 h) == abi_drive_version)
      then err (abi_drive AbiDriveErrorKind.bad_version)
      else ok (drive_of h s)

  -- `AbiDrive.open`
  unfoldable pub open_abi_drive : S → Result (AbiDrive S)
  unfolding drive_of
  open_abi_drive s = elim (io.read_at 0 header_length s) [ err e ↦ err e | ok h ↦ opened h s ]

  -- `AbiDrive.openOrFormat`
  unfoldable pub open_or_format : AbiDriveConfig → S → Result (AbiDrive S) × S
  unfolding open_abi_drive format
  open_or_format cfg s = elim (io.read_at 0 8 s) [
    | err e ↦ (err e, s)
    | ok magic ↦
        if bytes_equal (text.decode magic) abi_drive_magic
        then (open_abi_drive s, s)
        else format cfg s
  ]
