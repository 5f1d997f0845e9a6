-- ===== src/Evm/Types.antt =====
-- The wire vocabulary (evm-compat/js/src/types.ts and withdrawal.ts): contexts, outcomes, emissions,
-- report tags. Hex text is the bytes that it spells.
use op_cartesi.Base.{ℕ, Bool, Failure}
use op_cartesi.Bytes.{Bytes}
use Prim.Native.String.{String}

pub record BlockContext : Type 0 where
  pub chain_id : ℕ
  pub app_contract : Bytes
  pub block_number : ℕ
  pub timestamp : ℕ
  pub prev_randao : ℕ
  pub input_index : ℕ

pub record TxContext : Type 0 where
  pub block : BlockContext
  pub sender : Bytes
  pub to : Bytes
  pub value : ℕ
  pub payload : Bytes
  pub is_deposit : Bool
  pub mint : ℕ

pub record CallContext : Type 0 where
  pub sender : Bytes
  pub to : Bytes
  pub value : ℕ
  pub payload : Bytes

-- Why a transaction was reverted or refused: a text, or a failure that `describe` puts in words.
pub data Reason : Type 0 where
  text : String → Reason
  described : Failure → Reason

pub data AdvanceOutcome : Type 0 where
  accept : AdvanceOutcome
  revert : Bytes → AdvanceOutcome
  fail : Bytes → AdvanceOutcome
  reject : Reason → AdvanceOutcome

pub data ViewOutcome : Type 0 where
  return : Bytes → ViewOutcome
  revert : Bytes → ViewOutcome

pub data Emission : Type 0 where
  notice : Bytes → Emission
  voucher : Bytes → ℕ → Bytes → Emission
  report : Bytes → Emission

abbrev pub tag_app : ℕ
tag_app = 0x00

abbrev pub tag_return : ℕ
tag_return = 0x01

abbrev pub tag_revert : ℕ
tag_revert = 0x02

abbrev pub tag_fail : ℕ
tag_fail = 0x03

pub record WithdrawalMessage : Type 0 where
  pub nonce : ℕ
  pub sender : Bytes
  pub target : Bytes
  pub value : ℕ
  pub gas_limit : ℕ
  pub payload : Bytes

abbrev pub withdrawal_default_gas_limit : ℕ
withdrawal_default_gas_limit = 100_000

-- One cross-domain message (evm-compat/js/src/crossdomain.ts), as `relayMessage` carries it.
pub record CrossDomainMessage : Type 0 where
  pub nonce : ℕ
  pub sender : Bytes
  pub target : Bytes
  pub value : ℕ
  pub min_gas_limit : ℕ
  pub message : Bytes
