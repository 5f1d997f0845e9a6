-- ===== src/Evm/Addresses.antt =====
-- The address map (evm-compat/js/src/addresses.ts). Addresses are their 20 bytes.
use op_cartesi.Base.{ℕ, ◌+◌, ◌%◌, ◌^◌, [], ◌∷◌, ◌++◌, replicate}
use op_cartesi.Bytes.{Bytes, slice, read_be, fill_be}

-- 0xc751 ‖ 0…0 ‖ index
abbrev system_address : ℕ → Bytes
system_address index = 0xc7 ∷ 0x51 ∷ (replicate 16 0 ++ 0 ∷ index ∷ [])

-- 0x42 ‖ 0…0 ‖ index
abbrev predeploy_address : ℕ → Bytes
predeploy_address index = 0x42 ∷ (replicate 18 0 ++ index ∷ [])

abbrev pub registry_address : Bytes
registry_address = system_address 0

abbrev pub bridge_address : Bytes
bridge_address = system_address 1

abbrev pub config_address : Bytes
config_address = system_address 2

abbrev pub l1block_address : Bytes
l1block_address = predeploy_address 0x15

abbrev pub l2_messenger_address : Bytes
l2_messenger_address = predeploy_address 0x07

abbrev pub l2_bridge_address : Bytes
l2_bridge_address = predeploy_address 0x10

abbrev pub message_passer_address : Bytes
message_passer_address = predeploy_address 0x16

abbrev pub zero_address_bytes : Bytes
zero_address_bytes = replicate 20 0

-- "ctsi.erc20.v1"
abbrev pub token_domain : Bytes
token_domain =
    b'c' ∷ b't' ∷ b's' ∷ b'i' ∷ b'.' ∷ b'e' ∷ b'r' ∷ b'c' ∷ b'2' ∷ b'0' ∷ b'.' ∷ b'v' ∷ b'1' ∷ []

-- The last 20 of the 32 bytes of the hash.
unfoldable pub l2_token_address : (Bytes → Bytes) → Bytes → Bytes
l2_token_address keccak256 l1_token = slice 12 20 (keccak256 (token_domain ++ l1_token))

abbrev pub alias_offset : ℕ
alias_offset = 0x1111000000000000000000000000000000001111

unfoldable pub apply_l1_to_l2_alias : Bytes → Bytes
apply_l1_to_l2_alias l1 = fill_be 20 ((read_be l1 + alias_offset) % 2 ^ 160) []
