-- ===== src/App/Inspect.antt =====
-- Queries (app/src/router.ts, `inspect`, and evm-compat/js/src/evmcall.ts, `decodeEvmCall`): a view,
-- or a simulation that is taken back.
pub mod Views
pub mod Answers
use op_cartesi.Evm.Encoding.{error_revert}
use op_cartesi.Evm.Addresses.{zero_address_bytes}
use op_cartesi.Base.{
  pure, gets, if_some, ◌>>=◌, ℕ, Bool, true, false, not, ◌&&◌, ◌||◌, Option, none, some, List, [],
  ◌∷◌, ltb, if◌then◌else◌, length, drop, Act, ◌>>◌, Result, ok, err,
}
use op_cartesi.Bytes.{Bytes, slice, bytes_equal}
use op_cartesi.Evm.Types.{
  tag_return, tag_revert, tag_fail, BlockContext, TxContext, CallContext, text, described,
  AdvanceOutcome, revert, fail, reject, ViewOutcome, return,
}
use op_cartesi.Evm.External.{address, bytes, AbiCall, External}
use op_cartesi.Ledger.Journal.{mark}
use op_cartesi.App.World.{attempt, World}
use op_cartesi.App.Router.{begin_sink, resolve, dispatch, roll_back, Router}

pub record InspectResult : Type 0 where
  pub accept : Bool
  pub reports : List Bytes

abbrev answer : Bool → ℕ → Bytes → InspectResult
answer accept tag b = record { accept = accept; reports = (tag ∷ b) ∷ [] }

abbrev empty_block : ℕ → BlockContext
empty_block chain_id = record {
  chain_id = chain_id;
  app_contract = zero_address_bytes;
  block_number = 0;
  timestamp = 0;
  prev_randao = 0;
  input_index = 0;
}

-- What a simulation answers by its outcome.
unfoldable pub simulated : AdvanceOutcome → InspectResult
simulated AdvanceOutcome.accept = answer true tag_return []
simulated (AdvanceOutcome.revert b) = answer false tag_revert b
simulated (fail b) = answer false tag_fail b
simulated (reject reason) = answer true tag_return []

module _ (ext : External) where
  -- The call, and whether it is to be simulated.
  unfoldable pub decode_evm_call : Bytes → Option (Bool × AbiCall)
  decode_evm_call payload =
      let selector = slice 0 4 payload in
      let simulate =
        bytes_equal selector
          (ext.to_function_selector "EvmSimulate(uint256,address,address,uint256,bytes)") in
      let plain =
        bytes_equal selector
          (ext.to_function_selector "EvmCall(uint256,address,address,uint256,bytes)") in
      if ltb (length payload) 4 || (not simulate && not plain)
      then none
      else elim (ext.decode_call (drop 4 payload)) [
        | none ↦ none
        | some call ↦ some (simulate, call)
      ]

  -- The `catch` of a simulation.
  unfoldable pub simulation_caught : Result AdvanceOutcome → AdvanceOutcome
  simulation_caught (ok outcome) = outcome
  simulation_caught (err e) = AdvanceOutcome.revert (error_revert ext (described e))

  unfoldable pub view_answer : Result ViewOutcome → InspectResult
  view_answer (ok (return b)) = answer true tag_return b
  view_answer (ok (ViewOutcome.revert b)) = answer false tag_revert b
  view_answer (err e) = answer false tag_revert (error_revert ext (described e))

  module _ {A : Type 0} (router : Router A) where
    abbrev call_context : BlockContext → AbiCall → TxContext
    call_context block call = record {
      block = block;
      sender = call.from;
      to = call.to;
      value = call.value;
      payload = call.payload;
      is_deposit = false;
      mint = 0;
    }

    abbrev view_context : AbiCall → CallContext
    view_context call = record {
      sender = call.from;
      to = call.to;
      value = call.value;
      payload = call.payload;
    }

    unfoldable pub simulate : BlockContext → AbiCall → Act (World A) InspectResult
    unfolding simulated simulation_caught dispatch roll_back attempt begin_sink
    simulate block call = do
      here ← gets (λ w. mark w.ledger)
      begin_sink block.input_index
      r ← attempt (dispatch ext router (call_context block call))
      roll_back ext router here
      pure (simulated (simulation_caught r))

    -- What a view writes is not taken back.
    unfoldable pub run_view :
        AbiCall → Option (CallContext → Act (World A) ViewOutcome) → Act (World A) InspectResult
    unfolding view_answer attempt
    run_view call none =
        pure (answer false tag_revert (error_revert ext (text "not a view target")))
    run_view call (some view) = do r ← attempt (view (view_context call)); pure (view_answer r)

    unfoldable pub view_of : AbiCall → Act (World A) InspectResult
    unfolding run_view resolve
    view_of call = do
      handler ← gets (λ w. resolve ext router call.to none none w.ledger)
      if_some handler (λ h. run_view call h.view) (pure (answer true tag_return []))

    -- `last_block` is the context that the router saw last.
    unfoldable pub inspect_call :
        Option BlockContext → Option (Bool × AbiCall) → Act (World A) InspectResult
    unfolding simulate view_of
    inspect_call last_block none =
        pure (answer false tag_revert (error_revert ext (text "not an EvmCall query")))
    inspect_call last_block (some (false, call)) = view_of call
    inspect_call none (some (true, call)) = simulate (empty_block router.chain_id) call
    inspect_call (some block) (some (true, call)) = simulate block call

    -- `inspect`
    unfoldable pub inspect : Option BlockContext → Bytes → Act (World A) InspectResult
    unfolding inspect_call decode_evm_call
    inspect last_block payload = inspect_call last_block (decode_evm_call payload)
