-- ===== src/Evm/Nonces.antt =====
-- Versioned nonces and gas (evm-compat/js/src/withdrawal.ts and crossdomain.ts).
pub mod Packing
use Prim.Native.Nat.{bit_or}
use op_cartesi.Base.{ℕ, ◌+◌, ◌*◌, ◌/◌, ◌%◌, ◌^◌, Option, none, some, ltb, leb, if◌then◌else◌}

-- `too many withdrawals in one input` is `none`.
unfoldable pub versioned_withdrawal_nonce : ℕ → ℕ → Option ℕ
versioned_withdrawal_nonce input_index ordinal =
    if leb (2 ^ 32) ordinal
    then none
    else some (bit_or (bit_or (2 ^ 240) (input_index * 2 ^ 32)) ordinal)

unfoldable pub encode_versioned_nonce : ℕ → ℕ → ℕ
encode_versioned_nonce nonce version = bit_or (version * 2 ^ 240) nonce

-- The nonce and the version; `& (2 ^ 240 - 1)` is `% 2 ^ 240`.
unfoldable pub decode_versioned_nonce : ℕ → ℕ × ℕ
decode_versioned_nonce nonce = (nonce % 2 ^ 240, nonce / 2 ^ 240)

-- `baseGas`
unfoldable pub base_gas : ℕ → ℕ → ℕ
base_gas message_length min_gas_limit =
    let execution_gas = 200_000 + 40_000 + 40_000 + 5_000 + min_gas_limit * 64 / 63 in
    let total_message_size = message_length + 260 in
    let with_calldata = execution_gas + total_message_size * 16 in
    let floor = total_message_size * 40 in
    21_000 + (if ltb floor with_calldata then with_calldata else floor)
