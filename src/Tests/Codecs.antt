-- ===== src/Tests/Codecs.antt =====
-- The codecs, geometry and nonces at concrete values.
use op_cartesi.Drive.Registry.{compact}
use op_cartesi.Bytes.Hex.{hex_to_bytes, bytes_to_hex}
use op_cartesi.Bytes.Hex.RoundTrip.{hex_to_bytes-bytes_to_hex, no_byte, byte_first}
use op_cartesi.Drive.Types.{NormalizedConfig}
use op_cartesi.Drive.Config.{
  is_pow2, check_slot_size, check_registry, check_sparse, regions_of, check_inside, overlaps,
  check_apart_from, check_apart, validate_config,
}
use op_cartesi.Drive.Config.Regions.{validate_config-IsValid, IsValid}
use op_cartesi.Drive.Accounts.{encode_account}
use op_cartesi.Drive.Accounts.Codec.{
  nonce_bytes, balance_bytes, decode-encode_account, encode_account-overflow, Holds,
}
use op_cartesi.Evm.Nonces.{encode_versioned_nonce, decode_versioned_nonce}
use op_cartesi.Evm.Nonces.Packing.{
  versioned_withdrawal_nonce-injective, decode-encode_versioned_nonce,
}
use op_cartesi.Tests.World.{alice}
use op_cartesi.Base.{
  ℕ, ◌^◌, ◌≤◌, ◌<◌, ◌≡◌, refl, inl, [], ◌∷◌, arith, replicate, overflow, drive, ok, err,
}
use op_cartesi.Bytes.{Bytes}

-- A geometry that `validateConfig` accepts.
abbrev tidy_config : NormalizedConfig
tidy_config = record {
  drive_length = 8192;
  capacity = 64;
  load_limit = 56;
  seed = replicate 32 0;
  profile = 0;
  slot_size = 32;
  table_offset = 4096;
  registry_offset = 256;
  registry_capacity = 8;
  sparse_offset = 0;
  sparse_capacity = 0;
  sparse_load_limit = 0;
  sparse_slot_size = 0;
}

tidy_config_passes : validate_config tidy_config ≡ ok tt
unfolding validate_config is_pow2 check_slot_size check_registry check_sparse check_inside
    regions_of check_apart check_apart_from overlaps
tidy_config_passes = refl

validate_config-IsValid_example : IsValid tidy_config
validate_config-IsValid_example = validate_config-IsValid tidy_config tidy_config_passes

nonce_fits : 7 < 256 ^ nonce_bytes tidy_config
unfolding compact
nonce_fits = omega arith

balance_fits : 1000 < 256 ^ balance_bytes tidy_config
unfolding compact
balance_fits = omega arith

too_wide : 256 ^ balance_bytes tidy_config ≤ 256 ^ 9
unfolding compact
too_wide = omega arith

decode-encode_account_example :
    (rec : Bytes) × (encode_account tidy_config alice 7 1000 ≡ ok rec)
    × Holds tidy_config alice 7 1000 rec
decode-encode_account_example =
    decode-encode_account tidy_config alice 7 1000 refl nonce_fits balance_fits

encode_account-overflow_example :
    encode_account tidy_config alice 7 (256 ^ 9) ≡ err (drive overflow)
encode_account-overflow_example =
    encode_account-overflow tidy_config alice 7 (256 ^ 9) (inl too_wide)

abbrev input : ℕ
input = 3

abbrev ordinal : ℕ
ordinal = 1

versioned_withdrawal_nonce-injective_example : (input ≡ 3) × (ordinal ≡ 1)
versioned_withdrawal_nonce-injective_example =
    versioned_withdrawal_nonce-injective input ordinal 3 1 (omega arith) (omega arith) (omega arith)
      (omega arith) refl

decode-encode_versioned_nonce_example :
    decode_versioned_nonce (encode_versioned_nonce 12 1) ≡ (12, 1)
decode-encode_versioned_nonce_example = decode-encode_versioned_nonce 12 1 (omega arith)

hex_to_bytes-bytes_to_hex_example : hex_to_bytes (bytes_to_hex (0 ∷ 171 ∷ [])) ≡ ok (0 ∷ 171 ∷ [])
hex_to_bytes-bytes_to_hex_example =
    hex_to_bytes-bytes_to_hex (0 ∷ 171 ∷ [])
      (byte_first (omega arith) (byte_first (omega arith) no_byte))
