-- ===== src/App/Contract/Spec.antt =====
-- What an application declares of a contract (app/src/contract.ts, the types). viem's codec and the
-- types of the values that it decodes and encodes are parameters.
use Prim.Native.String.{String}
use op_cartesi.Base.{Bool, Option, List, Act, Result}
use op_cartesi.Bytes.{Bytes}
use op_cartesi.Evm.Types.{TxContext, CallContext}
use op_cartesi.App.World.{World}

pub data Mutability : Type 0 where
  pure_function view_function nonpayable_function payable_function : Mutability

-- One item of a JSON ABI, its inputs and outputs as their own JSON text.
pub record AbiItem : Type 0 where
  pub is_function : Bool
  pub name : String
  pub mutability : Mutability
  pub parameters : Bytes

-- `decodeFunctionData`, which throws on what no function takes, and `encodeFunctionResult`.
pub record Decoded (Arg : Type 0) : Type 0 where
  pub function_name : String
  pub args : List Arg

pub record ContractCodec (Arg Value : Type 0) : Type 0 where
  pub decode_function_data : List AbiItem → Bytes → Option (Decoded Arg)
  pub encode_function_result : List AbiItem → String → Value → Result Bytes

-- The argument of `new Revert` and `new Fail`: a reason, or data.
pub data ErrorData : Type 0 where
  because : String → ErrorData
  raw : Bytes → ErrorData

-- How a callback ends that throws one of the two. Any other `Error` is a failure of the action.
pub data Ending (B : Type 0) : Type 0 where
  returned : B → Ending B
  fails reverts : ErrorData → Ending B

-- The callbacks are what the object has under a name: for a name that the application does not
-- give, that is what every object inherits, such as `toString`. A view's callback is handed the ledger
-- itself, and nothing keeps it from writing.
pub record ContractSpec (A Arg Value : Type 0) : Type 0 where
  pub address : Bytes
  pub abi : List AbiItem
  pub payable : Option Bool
  pub transactions : String → Option (List Arg → TxContext → Act (World A) (Ending (Unit {0})))
  pub views : String → Option (List Arg → CallContext → Act (World A) (Ending Value))
