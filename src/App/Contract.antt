-- ===== src/App/Contract.antt =====
-- The handler of an application's contract (app/src/contract.ts, `contractHandler`): dispatch by the
-- ABI, and every exception of a callback as a revert or a failure.
pub mod Spec
pub mod Answers
use Prim.Native.String.{String, ◌++◌ as join}
use op_cartesi.Base.{
  pure, if_some, ◌>>=◌, Bool, true, false, not, ◌&&◌, Option, none, some, List, [], ◌∷◌,
  if◌then◌else◌, Act, ◌>>◌, Result, ok, err, str_eq,
}
use op_cartesi.Bytes.{Bytes}
use op_cartesi.Evm.Types.{
  TxContext, CallContext, text, described, AdvanceOutcome, accept, revert, fail, ViewOutcome,
  return,
}
use op_cartesi.Evm.External.{External}
use op_cartesi.Evm.Encoding.{error_revert}
use op_cartesi.App.World.{attempt, World, Handler}
use op_cartesi.App.Contract.Spec.{
  Mutability, pure_function, view_function, nonpayable_function, payable_function, AbiItem, Decoded,
  ContractCodec, ErrorData, because, raw, Ending, returned, fails, reverts, ContractSpec,
}

-- `mutabilityOf`: of the first function of that name.
unfoldable pub mutability_of : List AbiItem → String → Option Mutability
mutability_of [] name = none
mutability_of (item ∷ abi) name =
    if item.is_function && str_eq item.name name
    then some item.mutability
    else mutability_of abi name

abbrev pub is_read_only : Option Mutability → Bool
is_read_only none = false
is_read_only (some pure_function) = true
is_read_only (some view_function) = true
is_read_only (some nonpayable_function) = false
is_read_only (some payable_function) = false

abbrev or_not_payable : Option Bool → Bool
or_not_payable none = false
or_not_payable (some b) = b

module _ (ext : External) where
  abbrev error_data : ErrorData → Bytes
  error_data (because reason) = error_revert ext (text reason)
  error_data (raw b) = b

  abbrev pub refused_call : String → AdvanceOutcome
  refused_call why = AdvanceOutcome.revert (error_revert ext (text why))

  abbrev pub refused_query : String → ViewOutcome
  refused_query why = ViewOutcome.revert (error_revert ext (text why))

  -- What a callback that ran comes to, with `failureOutcome` where it threw.
  unfoldable pub outcome_of : Result (Ending (Unit {0})) → AdvanceOutcome
  outcome_of (ok (returned u)) = accept
  outcome_of (ok (fails e)) = AdvanceOutcome.fail (error_data e)
  outcome_of (ok (reverts e)) = AdvanceOutcome.revert (error_data e)
  outcome_of (err e) = AdvanceOutcome.revert (error_revert ext (described e))

  module _ {A Arg Value : Type 0} (codec : ContractCodec Arg Value)
      (spec : ContractSpec A Arg Value) where
    unfoldable pub contract_call : TxContext → Decoded Arg → Act (World A) AdvanceOutcome
    unfolding mutability_of outcome_of
    contract_call ctx call =
        if is_read_only (mutability_of spec.abi call.function_name)
        then pure (refused_call (join call.function_name " is not a transaction"))
        else if_some (spec.transactions call.function_name)
            (λ callback. do r ← attempt (callback call.args ctx); pure (outcome_of r))
            (pure (refused_call (join call.function_name " is not implemented")))

    -- `advance`
    unfoldable pub contract_advance : TxContext → Act (World A) AdvanceOutcome
    unfolding contract_call
    contract_advance ctx =
        if_some (codec.decode_function_data spec.abi ctx.payload) (contract_call ctx)
          (pure (refused_call "unknown function"))

    -- The answer for what a view's callback returned, or for what it or the encoder threw.
    unfoldable pub answer_of : String → Result (Ending Value) → ViewOutcome
    answer_of name (ok (returned v)) = elim (codec.encode_function_result spec.abi name v) [
      | ok b ↦ ViewOutcome.return b
      | err e ↦ ViewOutcome.revert (error_revert ext (described e))
    ]
    answer_of name (ok (fails e)) = ViewOutcome.revert (error_data e)
    answer_of name (ok (reverts e)) = ViewOutcome.revert (error_data e)
    answer_of name (err e) = ViewOutcome.revert (error_revert ext (described e))

    unfoldable pub contract_query : CallContext → Decoded Arg → Act (World A) ViewOutcome
    unfolding mutability_of answer_of
    contract_query call decoded =
        if not (is_read_only (mutability_of spec.abi decoded.function_name))
        then pure (refused_query (join decoded.function_name " is not a view"))
        else if_some (spec.views decoded.function_name)
            (λ callback. do
              r ← attempt (callback decoded.args call)
              pure (answer_of decoded.function_name r))
            (pure (refused_query (join decoded.function_name " is not implemented")))

    -- `view`
    unfoldable pub contract_view : CallContext → Act (World A) ViewOutcome
    unfolding contract_query
    contract_view call =
        if_some (codec.decode_function_data spec.abi call.payload) (contract_query call)
          (pure (refused_query "unknown function"))

    unfoldable pub contract_handler : Handler A
    unfolding contract_advance contract_view
    contract_handler = record {
      payable = or_not_payable spec.payable;
      advance = some contract_advance;
      view = some contract_view;
    }
