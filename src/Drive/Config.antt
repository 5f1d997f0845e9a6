-- ===== src/Drive/Config.antt =====
-- Geometry (accounts-drive/js/src/drive.ts, `isPow2`, `toAddress`, `normalizeConfig` and
-- `validateConfig`).
pub mod Regions
use Prim.Native.Nat.{bit_and}
use op_cartesi.Base.{
  ℕ, ◌+◌, ◌-◌, ◌*◌, ◌/◌, ◌%◌, Bool, true, false, not, ◌&&◌, ◌||◌, Option, none, some, List, [], ◌∷◌,
  ◌++◌, ltb, leb, ◌==◌, if◌then◌else◌, length, replicate, profile, ConfigFault, length_not_pow2,
  unknown_profile, wide_slot, single_slot, sparse_profile_slot, small_capacity, load_limit_range,
  table_offset_range, no_registry, registry_capacity_range, registry_misaligned, in_header_range,
  sparse_slot, small_sparse_capacity, sparse_limit_range, sparse_offset_range, outside_drive,
  overlap, bad_address, bad_seed, bad_config, error, Result, ok, err,
}
use op_cartesi.Bytes.{Bytes}
use op_cartesi.Bytes.Hex.{hex_to_bytes}
use op_cartesi.Drive.Types.{
  profile_single_asset, profile_wide, profile_sparse, header_size, min_registry_offset, AddressLike,
  raw, hex, Config, NormalizedConfig,
}

unfoldable pub is_pow2 : ℕ → Bool
is_pow2 n = ltb 0 n && (bit_and n (n - 1) == 0)

-- The bytes of a text or of an array.
unfoldable pub bytes_of : AddressLike → Result Bytes
bytes_of (raw b) = ok b
bytes_of (hex s) = hex_to_bytes s

abbrev pub bind_ok {ℓ} : {A B : Type ℓ} → Result A → (A → Result B) → Result B
bind_ok (ok a) f = f a
bind_ok (err e) f = err e

unfoldable pub to_address : AddressLike → Result Bytes
unfolding bytes_of
to_address a = bind_ok (bytes_of a) λ b. if length b == 20 then ok b else err (error bad_address)

-- `Number(field ?? 0)`
abbrev or_zero : Option ℕ → ℕ
or_zero none = 0
or_zero (some n) = n

abbrev default_zero : ℕ → ℕ → ℕ
default_zero n d = if n == 0 then d else n

abbrev default_limit : ℕ → ℕ → ℕ
default_limit limit capacity =
    if (limit == 0) && ltb 0 capacity then capacity - capacity / 8 else limit

unfoldable pub normalize_seed : Option AddressLike → Result Bytes
unfolding bytes_of
normalize_seed none = ok (replicate 32 0)
normalize_seed (some a) =
    bind_ok (bytes_of a) λ s. if length s == 32 then ok s else err (error bad_seed)

unfoldable pub normalize_config : Config → Result NormalizedConfig
unfolding normalize_seed
normalize_config c = bind_ok (normalize_seed c.seed) λ seed.
    let profile = or_zero c.profile in
    let capacity = or_zero c.capacity in
    let sparse_capacity = or_zero c.sparse_capacity in
    let is_sparse = profile == profile_sparse in
    ok (record {
      drive_length = or_zero c.drive_length;
      capacity = capacity;
      load_limit = default_limit (or_zero c.load_limit) capacity;
      seed = seed;
      profile = profile;
      slot_size = default_zero (or_zero c.slot_size) 64;
      table_offset = default_zero (or_zero c.table_offset) header_size;
      registry_offset = or_zero c.registry_offset;
      registry_capacity = or_zero c.registry_capacity;
      sparse_offset = or_zero c.sparse_offset;
      sparse_capacity = sparse_capacity;
      sparse_load_limit =
          if is_sparse
          then default_limit (or_zero c.sparse_load_limit) sparse_capacity
          else or_zero c.sparse_load_limit;
      sparse_slot_size =
          if is_sparse
          then default_zero (or_zero c.sparse_slot_size) 64
          else or_zero c.sparse_slot_size;
    })

pub record Region : Type 0 where
  pub off : ℕ
  pub len : ℕ

abbrev refuse_if : Bool → ConfigFault → Result (Unit {0})
refuse_if true f = err (error (bad_config f))
refuse_if false f = ok tt

infixl 5 ◌then_do◌
abbrev ◌then_do◌ : Result (Unit {0}) → Result (Unit {0}) → Result (Unit {0})
ok u then_do r = r
err e then_do r = err e

unfoldable pub check_slot_size : NormalizedConfig → Result (Unit {0})
unfolding is_pow2
check_slot_size c =
    let ss = c.slot_size in
    if c.profile == profile_wide
    then refuse_if (ltb ss 128 || not (is_pow2 ss)) wide_slot
    else if c.profile == profile_single_asset
    then refuse_if (not (ss == 64) && not (ss == 32)) single_slot
    else refuse_if (not (ss == 64)) sparse_profile_slot

unfoldable pub check_registry : NormalizedConfig → Result (Unit {0})
check_registry c =
    let end = c.registry_offset + 32 * c.registry_capacity in
    refuse_if (not (c.profile == profile_single_asset) && (c.registry_offset == 0)) no_registry
    then_do (if c.registry_offset == 0
        then ok tt
        else (refuse_if ((c.registry_capacity == 0) || ltb 65536 c.registry_capacity)
              registry_capacity_range
            then_do refuse_if (not (c.registry_offset % 32 == 0)) registry_misaligned
            then_do refuse_if
                (ltb c.registry_offset header_size
                  && (ltb c.registry_offset min_registry_offset || ltb header_size end))
                in_header_range))

unfoldable pub check_sparse : NormalizedConfig → Result (Unit {0})
check_sparse c =
    let sss = c.sparse_slot_size in
    if not (c.profile == profile_sparse)
    then ok tt
    else (refuse_if (not (sss == 64) && not (sss == 32)) sparse_slot
        then_do refuse_if (ltb c.sparse_capacity 2) small_sparse_capacity
        then_do refuse_if (ltb c.sparse_load_limit 1 || leb c.sparse_capacity c.sparse_load_limit)
            sparse_limit_range
        then_do refuse_if (ltb c.sparse_offset header_size || not (c.sparse_offset % sss == 0))
            sparse_offset_range)

-- The regions that the checks collect: an in-header registry adds none.
unfoldable pub regions_of : NormalizedConfig → List Region
regions_of c =
    record { off = 0; len = header_size }
    ∷ record { off = c.table_offset; len = c.capacity * c.slot_size }
    ∷ ((if not (c.registry_offset == 0) && leb header_size c.registry_offset
          then record { off = c.registry_offset; len = 32 * c.registry_capacity } ∷ []
          else [])
        ++ (if c.profile == profile_sparse
            then record { off = c.sparse_offset; len = c.sparse_capacity * c.sparse_slot_size } ∷ []
            else []))

unfoldable pub check_inside : ℕ → List Region → Result (Unit {0})
check_inside drive_len [] = ok tt
check_inside drive_len (r ∷ rs) =
    refuse_if (ltb drive_len (r.off + r.len)) outside_drive then_do check_inside drive_len rs

unfoldable pub overlaps : Region → Region → Bool
overlaps a b = ltb a.off (b.off + b.len) && ltb b.off (a.off + a.len)

unfoldable pub check_apart_from : Region → List Region → Result (Unit {0})
check_apart_from a [] = ok tt
check_apart_from a (b ∷ rs) = refuse_if (overlaps a b) overlap then_do check_apart_from a rs

unfoldable pub check_apart : List Region → Result (Unit {0})
check_apart [] = ok tt
check_apart (a ∷ rs) = check_apart_from a rs then_do check_apart rs

unfoldable pub validate_config : NormalizedConfig → Result (Unit {0})
validate_config c =
    refuse_if ((c.drive_length == 0) || not (is_pow2 c.drive_length)) length_not_pow2
    then_do refuse_if (ltb profile_sparse c.profile) unknown_profile
    then_do check_slot_size c
    then_do refuse_if (ltb c.capacity 2) small_capacity
    then_do refuse_if (ltb c.load_limit 1 || leb c.capacity c.load_limit) load_limit_range
    then_do refuse_if (ltb c.table_offset header_size || not (c.table_offset % c.slot_size == 0))
        table_offset_range
    then_do check_registry c
    then_do check_sparse c
    then_do check_inside c.drive_length (regions_of c)
    then_do check_apart (regions_of c)
