-- ===== src/Evm/Encoding.antt =====
-- What the guest encodes itself from the codec (evm-compat/js/src/events.ts, withdrawal.ts,
-- crossdomain.ts and evmcall.ts).
use op_cartesi.Base.{ℕ, List, [], ◌∷◌, ◌++◌, replicate, codes}
use op_cartesi.Bytes.{Bytes, fill_be}
use op_cartesi.Evm.Types.{Reason, WithdrawalMessage}
use op_cartesi.Evm.External.{AbiValue, uint, address, bytes, bytes32, bytes32_list, External}
use Prim.Native.String.{String}

-- `padHex(a, { size: 32 })` of an address.
abbrev pub pad_address : Bytes → Bytes
pad_address a = replicate 12 0 ++ a

-- `toHex(n, { size: 32 })`
abbrev pub to_word : ℕ → Bytes
to_word n = fill_be 32 n []

pub record Log : Type 0 where
  pub topics : List Bytes
  pub log_bytes : Bytes

module _ (ext : External) where
  unfoldable pub error_revert : Reason → Bytes
  error_revert reason = ext.encode_error_result reason

  unfoldable pub encode_evm_log : Bytes → List Bytes → Bytes → Bytes
  encode_evm_log emitter topics log =
      ext.to_function_selector "EvmLog(address,bytes32[],bytes)"
      ++ ext.encode_abi_parameters (address emitter ∷ bytes32_list topics ∷ bytes log ∷ [])

  -- `keccak256(toHex(signature))`: the bytes of the ASCII text.
  unfoldable pub topic_of : String → Bytes
  topic_of signature = ext.keccak256 (codes signature)

  unfoldable pub transfer_log : Bytes → Bytes → ℕ → Log
  unfolding topic_of
  transfer_log from to value = record {
    topics = topic_of "Transfer(address,address,uint256)" ∷ pad_address from ∷ pad_address to ∷ [];
    log_bytes = to_word value;
  }

  abbrev withdrawal_values : WithdrawalMessage → List AbiValue
  withdrawal_values w =
      uint w.nonce
      ∷ address w.sender
      ∷ address w.target
      ∷ uint w.value
      ∷ uint w.gas_limit
      ∷ bytes w.payload
      ∷ []

  unfoldable pub encode_withdrawal : WithdrawalMessage → Bytes
  encode_withdrawal w =
      ext.to_function_selector "Withdrawal(uint256,address,address,uint256,uint256,bytes)"
      ++ ext.encode_abi_parameters (withdrawal_values w)

  unfoldable pub withdrawal_hash : WithdrawalMessage → Bytes
  withdrawal_hash w = ext.keccak256 (ext.encode_abi_parameters (withdrawal_values w))

  unfoldable pub message_passed_log : WithdrawalMessage → Bytes → Log
  unfolding topic_of
  message_passed_log w hash = record {
    topics =
        topic_of "MessagePassed(uint256,address,address,uint256,uint256,bytes,bytes32)"
        ∷ to_word w.nonce
        ∷ pad_address w.sender
        ∷ pad_address w.target
        ∷ [];
    log_bytes =
        ext.encode_abi_parameters
          (uint w.value ∷ uint w.gas_limit ∷ bytes w.payload ∷ bytes32 hash ∷ []);
  }
