-- ===== src/AbiDrive/Types.antt =====
-- The ABI drive's constants, entries and state (abi-drive/js/src/index.ts). A text is its code
-- units, and `TextEncoder` and `TextDecoder` are parameters.
use op_cartesi.Base.{ℕ, List, [], ◌∷◌}
use op_cartesi.Bytes.{Bytes}

abbrev pub Text : Type 0
Text = List ℕ

-- The platform's `TextEncoder.encode` and `TextDecoder.decode`.
pub record TextCodec : Type 0 where
  pub encode : Text → Bytes
  pub decode : Bytes → Text

-- "ctsiabis"
abbrev pub abi_drive_magic : Text
abi_drive_magic = 0x63 ∷ 0x74 ∷ 0x73 ∷ 0x69 ∷ 0x61 ∷ 0x62 ∷ 0x69 ∷ 0x73 ∷ []

abbrev pub abi_drive_version : ℕ
abi_drive_version = 1

abbrev pub kind_system : ℕ
kind_system = 0

abbrev pub kind_app : ℕ
kind_app = 1

abbrev pub header_length : ℕ
header_length = 64

abbrev pub entry_length : ℕ
entry_length = 32

pub record AbiDriveConfig : Type 0 where
  pub drive_length : ℕ
  pub capacity : ℕ
  pub heap_offset : ℕ

abbrev pub devnet_abi_drive_config : AbiDriveConfig
devnet_abi_drive_config = record { drive_length = 262144; capacity = 64; heap_offset = 4096 }

pub record AbiEntry : Type 0 where
  pub address : Bytes
  pub kind : ℕ
  pub abi : Text

-- The fields of class `AbiDrive`.
pub record AbiDrive (S : Type 0) : Type 0 where
  pub store : S
  pub capacity : ℕ
  pub count : ℕ
  pub index_offset : ℕ
  pub heap_offset : ℕ
  pub heap_length : ℕ
  pub heap_used : ℕ
