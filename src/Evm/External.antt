-- ===== src/Evm/External.antt =====
-- The libraries that the guest calls (viem and @noble/hashes), as one parameter: hashing, the ABI
-- codec, transaction parsing and sender recovery. A decoder stands for `tryDecodeCalldata`
-- (evm-compat/js/src/abi.ts) over one ABI, and gives that ABI's functions as constructors.
use op_cartesi.Base.{ℕ, Bool, Option, List, Result}
use op_cartesi.Base.Int.{ℤ}
use op_cartesi.Bytes.{Bytes}
use op_cartesi.Evm.Types.{Reason, CrossDomainMessage}
use Prim.Native.String.{String}

pub data AbiValue : Type 0 where
  uint : ℕ → AbiValue
  address : Bytes → AbiValue
  bytes : Bytes → AbiValue
  bytes32 : Bytes → AbiValue
  bytes32_list : List Bytes → AbiValue

pub data TxType : Type 0 where
  deposit_type legacy eip2930 eip1559 other_type : TxType

pub record AnyParsedTx : Type 0 where
  pub tx_type : TxType
  pub from : Option Bytes
  pub to : Option Bytes
  pub mint : Option ℕ
  pub value : Option ℕ
  pub payload : Option Bytes
  pub chain_id : Option ℕ
  pub nonce : Option ℕ
  pub r : Option Bytes
  pub s : Option Bytes

pub data BridgeCall : Type 0 where
  withdraw_ether : Bytes → BridgeCall
  withdraw_erc20 : Bytes → Bytes → ℕ → BridgeCall

pub data Erc20View : Type 0 where
  balance_of : Bytes → Erc20View
  total_supply_view decimals_view name_view symbol_view : Erc20View

-- What a view returns, for the codec to encode.
pub data ViewValue : Type 0 where
  natural : ℕ → ViewValue
  whole : ℤ → ViewValue
  characters : Bytes → ViewValue
  truth : Bool → ViewValue
  routed : Bool → Bool → ViewValue
  one_address : Bytes → ViewValue
  addresses : List Bytes → ViewValue
  one_hash : Bytes → ViewValue

pub data Erc20Call : Type 0 where
  transfer : Bytes → ℕ → Erc20Call
  view_call : Erc20View → Erc20Call
  other_function : Erc20Call

pub record PasserCall : Type 0 where
  pub target : Bytes
  pub gas_limit : ℕ
  pub payload : Bytes

-- The calls of the configuration's ABI.
pub data ConfigCall : Type 0 where
  set_fee_call : ℕ → ConfigCall
  register_portal_call : ℕ → Bytes → ConfigCall
  register_messenger_call : Bytes → Bytes → ConfigCall
  register_token_call : Bytes → Bytes → Bytes → ℕ → ConfigCall
  set_token_metadata_call : Bytes → Bytes → Bytes → ℕ → ConfigCall
  fee_view owner_view : ConfigCall

-- The calls of the registry's ABI and of the `L1Block` predeploy's: all of them are views.
pub data RegistryCall : Type 0 where
  handler_at : Bytes → RegistryCall
  handlers : RegistryCall
  l2_token_of : Bytes → RegistryCall

pub data L1Query : Type 0 where
  l1_number l1_timestamp l1_basefee l1_blob_base_fee l1_hash l1_sequence_number : L1Query
  l1_batcher_hash l1_base_fee_scalar l1_blob_base_fee_scalar : L1Query

-- The tuple of an `EvmCall` or `EvmSimulate` query.
pub record AbiCall : Type 0 where
  pub chain_id : ℕ
  pub from : Bytes
  pub to : Bytes
  pub value : ℕ
  pub payload : Bytes

-- The calls of the messenger's ABI.
pub data MessengerView : Type 0 where
  message_nonce_view : MessengerView
  successful_messages failed_messages : Bytes → MessengerView

pub data MessengerCall : Type 0 where
  relay_message : CrossDomainMessage → MessengerCall
  messenger_view_call : MessengerView → MessengerCall

-- The arguments of `bridgeERC20To` and of `finalizeBridgeERC20`, and the standard bridge's calls.
pub record BridgeOrder : Type 0 where
  pub local_token : Bytes
  pub remote_token : Bytes
  pub to : Bytes
  pub amount : ℕ
  pub min_gas_limit : ℕ
  pub extra : Bytes

pub record BridgeTransfer : Type 0 where
  pub local_token : Bytes
  pub remote_token : Bytes
  pub from : Bytes
  pub to : Bytes
  pub amount : ℕ
  pub extra : Bytes

pub data StandardBridgeCall : Type 0 where
  bridge_erc20 : Bytes → Bytes → ℕ → ℕ → Bytes → StandardBridgeCall
  bridge_erc20_to : BridgeOrder → StandardBridgeCall
  finalize_erc20 : BridgeTransfer → StandardBridgeCall
  finalize_ether : Bytes → Bytes → ℕ → Bytes → StandardBridgeCall

pub record External : Type 0 where
  pub keccak256 : Bytes → Bytes
  pub encode_abi_parameters : List AbiValue → Bytes
  pub to_function_selector : String → Bytes
  pub encode_error_result : Reason → Bytes
  pub encode_transfer : Bytes → ℕ → Bytes
  pub parse_transaction : Bytes → Option AnyParsedTx
  pub recover_transaction_address : Bytes → Option Bytes
  pub decode_bridge : Bytes → Option BridgeCall
  pub decode_erc20 : Bytes → Option Erc20Call
  pub decode_passer : Bytes → Option PasserCall
  pub decode_config : Bytes → Option ConfigCall
  pub decode_call : Bytes → Option AbiCall
  pub encode_function_result : ViewValue → Result Bytes
  pub decode_messenger : Bytes → Option MessengerCall
  pub decode_standard_bridge : Bytes → Option StandardBridgeCall
  pub decode_registry : Bytes → Option RegistryCall
  pub decode_l1_block : Bytes → Option L1Query
  pub encode_finalize_erc20 : BridgeTransfer → Bytes
