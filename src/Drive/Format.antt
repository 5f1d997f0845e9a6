-- ===== src/Drive/Format.antt =====
-- The header (accounts-drive/js/src/drive.ts, `format` and `open`). A field that `open` reads as a
-- `Number` is taken exact, which it is below 2 ^ 53.
use op_cartesi.Base.{
  not, [], ◌==◌, if◌then◌else◌, replicate, bad_magic, bad_version, bad_flags, error, Result, ok,
  err,
}
use op_cartesi.Bytes.{Bytes, slice, splice, bytes_equal, get_le, put_le}
use op_cartesi.Store.{Store}
use op_cartesi.Drive.Types.{
  profile_sparse, magic, version, header_size, off_magic, off_version, off_flags, off_capacity,
  off_table_offset, off_load_limit, off_seed, off_profile, off_slot_size, off_registry_offset,
  off_registry_cap, off_sparse_offset, off_sparse_capacity, off_sparse_load_limit,
  off_sparse_slot_size, Config, NormalizedConfig, Drive,
}
use op_cartesi.Drive.Config.{normalize_config, validate_config}
use op_cartesi.Drive.Registry.{reload_registry}

-- The 4096 bytes that `format` writes.
unfoldable pub header_bytes : NormalizedConfig → Bytes
header_bytes cfg =
    let h₀ = splice off_magic magic (replicate header_size 0) in
    let h₁ = splice off_version (put_le 4 version) h₀ in
    let h₂ = splice off_capacity (put_le 8 cfg.capacity) h₁ in
    let h₃ = splice off_table_offset (put_le 8 cfg.table_offset) h₂ in
    let h₄ = splice off_load_limit (put_le 8 cfg.load_limit) h₃ in
    let h₅ = splice off_seed cfg.seed h₄ in
    let h₆ = splice off_profile (put_le 4 cfg.profile) h₅ in
    let h₇ = splice off_slot_size (put_le 4 cfg.slot_size) h₆ in
    let h₈ = splice off_registry_offset (put_le 8 cfg.registry_offset) h₇ in
    let h₉ = splice off_registry_cap (put_le 8 cfg.registry_capacity) h₈ in
    let s₁ = splice off_sparse_offset (put_le 8 cfg.sparse_offset) h₉ in
    let s₂ = splice off_sparse_capacity (put_le 8 cfg.sparse_capacity) s₁ in
    let s₃ = splice off_sparse_load_limit (put_le 8 cfg.sparse_load_limit) s₂ in
    let s₄ = splice off_sparse_slot_size (put_le 4 cfg.sparse_slot_size) s₃ in
    if cfg.profile == profile_sparse then s₄ else h₉

-- The geometry that `open` reads.
unfoldable pub header_config : Bytes → NormalizedConfig
header_config h =
    let slot_size_field = get_le (slice off_slot_size 4 h) in
    record {
      drive_length = 0;
      capacity = get_le (slice off_capacity 8 h);
      load_limit = get_le (slice off_load_limit 8 h);
      seed = slice off_seed 32 h;
      profile = get_le (slice off_profile 4 h);
      slot_size = if slot_size_field == 0 then 64 else slot_size_field;
      table_offset = get_le (slice off_table_offset 8 h);
      registry_offset = get_le (slice off_registry_offset 8 h);
      registry_capacity = get_le (slice off_registry_cap 8 h);
      sparse_offset = get_le (slice off_sparse_offset 8 h);
      sparse_capacity = get_le (slice off_sparse_capacity 8 h);
      sparse_load_limit = get_le (slice off_sparse_load_limit 8 h);
      sparse_slot_size = get_le (slice off_sparse_slot_size 4 h);
    }

-- The tests of `open` on the magic, the version and the flags.
unfoldable pub check_header : Bytes → Result (Unit {0})
check_header h =
    if not (bytes_equal (slice off_magic 8 h) magic)
    then err (error bad_magic)
    else if not (get_le (slice off_version 4 h) == version)
    then err (error bad_version)
    else if not (get_le (slice off_flags 4 h) == 0)
    then err (error bad_flags)
    else ok tt

module _ {S : Type 0} (io : Store S) where
  -- `open`: the drive, or the store as it was left.
  unfoldable pub open_drive : S → Result (Drive S) × S
  unfolding header_config check_header
  open_drive s = elim (io.read_at 0 header_size s) [
    | err e ↦ (err e, s)
    | ok h ↦ elim (check_header h) [
      | err e ↦ (err e, s)
      | ok _ ↦
          let (r, d) =
            reload_registry io
              (record { store = s; cfg = header_config h; tokens = []; col_off = [] }) in
          elim r [ err e ↦ (err e, d.store) | ok _ ↦ (ok d, d.store) ]
    ]
  ]

  -- `format`
  unfoldable pub format : Config → S → Result (Drive S) × S
  unfolding header_bytes open_drive
  format config s = elim (normalize_config config) [
    | err e ↦ (err e, s)
    | ok cfg ↦ elim (validate_config cfg) [
      | err e ↦ (err e, s)
      | ok _ ↦
          let (r, s') = io.write_at 0 (header_bytes cfg) s in
          elim r [ err e ↦ (err e, s') | ok _ ↦ open_drive s' ]
    ]
  ]
