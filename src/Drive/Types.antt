-- ===== src/Drive/Types.antt =====
-- The drive's constants, types and state (accounts-drive/js/src/drive.ts): header offsets,
-- `AddressLike`, `Token`, `Account`, `Config`, `NormalizedConfig`, the fields of class `Drive`.
use op_cartesi.Base.{ℕ, Option, List, [], ◌∷◌}
use op_cartesi.Bytes.{Bytes}

abbrev pub profile_single_asset : ℕ
profile_single_asset = 0

abbrev pub profile_wide : ℕ
profile_wide = 1

abbrev pub profile_sparse : ℕ
profile_sparse = 2

-- "ctsiacct"
abbrev pub magic : Bytes
magic = 0x63 ∷ 0x74 ∷ 0x73 ∷ 0x69 ∷ 0x61 ∷ 0x63 ∷ 0x63 ∷ 0x74 ∷ []

abbrev pub version : ℕ
version = 1

abbrev pub header_size : ℕ
header_size = 4096

abbrev pub off_magic : ℕ
off_magic = 0x00

abbrev pub off_version : ℕ
off_version = 0x08

abbrev pub off_flags : ℕ
off_flags = 0x0c

abbrev pub off_capacity : ℕ
off_capacity = 0x10

abbrev pub off_table_offset : ℕ
off_table_offset = 0x18

abbrev pub off_load_limit : ℕ
off_load_limit = 0x20

abbrev pub off_live_count : ℕ
off_live_count = 0x28

abbrev pub off_seed : ℕ
off_seed = 0x30

abbrev pub off_profile : ℕ
off_profile = 0x50

abbrev pub off_slot_size : ℕ
off_slot_size = 0x54

abbrev pub off_registry_offset : ℕ
off_registry_offset = 0x58

abbrev pub off_registry_cap : ℕ
off_registry_cap = 0x60

abbrev pub off_token_count : ℕ
off_token_count = 0x68

abbrev pub off_sparse_offset : ℕ
off_sparse_offset = 0x70

abbrev pub off_sparse_capacity : ℕ
off_sparse_capacity = 0x78

abbrev pub off_sparse_load_limit : ℕ
off_sparse_load_limit = 0x80

abbrev pub off_sparse_live_count : ℕ
off_sparse_live_count = 0x88

abbrev pub off_sparse_slot_size : ℕ
off_sparse_slot_size = 0x90

abbrev pub min_registry_offset : ℕ
min_registry_offset = 0x100

-- Raw bytes, or the codes of a hex text.
pub data AddressLike : Type 0 where
  raw : Bytes → AddressLike
  hex : Bytes → AddressLike

pub record Token : Type 0 where
  pub address : Bytes
  pub width : ℕ

pub record ResolvedToken : Type 0 where
  pub id : ℕ
  pub address : Bytes
  pub width : ℕ

pub record Account : Type 0 where
  pub address : Bytes
  pub nonce : ℕ
  pub balance : ℕ

-- A field that may be absent is an option; numbers are whole and not negative.
pub record Config : Type 0 where
  pub drive_length : Option ℕ
  pub capacity : Option ℕ
  pub load_limit : Option ℕ
  pub seed : Option AddressLike
  pub profile : Option ℕ
  pub slot_size : Option ℕ
  pub table_offset : Option ℕ
  pub registry_offset : Option ℕ
  pub registry_capacity : Option ℕ
  pub sparse_offset : Option ℕ
  pub sparse_capacity : Option ℕ
  pub sparse_load_limit : Option ℕ
  pub sparse_slot_size : Option ℕ

pub record NormalizedConfig : Type 0 where
  pub drive_length : ℕ
  pub capacity : ℕ
  pub load_limit : ℕ
  pub seed : Bytes
  pub profile : ℕ
  pub slot_size : ℕ
  pub table_offset : ℕ
  pub registry_offset : ℕ
  pub registry_capacity : ℕ
  pub sparse_offset : ℕ
  pub sparse_capacity : ℕ
  pub sparse_load_limit : ℕ
  pub sparse_slot_size : ℕ

-- The fields of an open drive over a store with states in `S`.
pub record Drive (S : Type 0) : Type 0 where
  pub store : S
  pub cfg : NormalizedConfig
  pub tokens : List Token
  pub col_off : List ℕ
