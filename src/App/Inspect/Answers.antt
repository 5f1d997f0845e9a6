-- ===== src/App/Inspect/Answers.antt =====
-- What a query leaves (app/src/router.ts, `inspect`).
use op_cartesi.Base.{
  pure, gets, if_some, ◌>>=◌, ◌≡◌, refl, Bool, true, false, Option, none, some, [], Act, ok,
}
use op_cartesi.Bytes.{Bytes}
use op_cartesi.Evm.Types.{tag_return, BlockContext, CallContext, ViewOutcome}
use op_cartesi.Evm.External.{AbiCall, External}
use op_cartesi.Ledger.Operations.Rollback.{IsCached}
use op_cartesi.App.World.{attempt, World, Handler}
use op_cartesi.App.Router.{new_sink, begin_sink, resolve, dispatch, Router}
use op_cartesi.App.Router.Frame.{dispatch-Keeps, AllJournaled}
use op_cartesi.App.Router.Outcomes.{roll_back_restores}
use op_cartesi.App.Inspect.{
  answer, empty_block, simulated, decode_evm_call, simulation_caught, call_context, view_context,
  simulate, run_view, view_of, inspect_call, inspect, InspectResult,
}
use op_cartesi.App.Inspect.Views.{
  resolve-Readable, IsReadOnly, no_view, only_reads, AllReadOnly, Readable, nobody, somebody,
}

module _ (ext : External) {A : Type 0} (router : Router A) where
  -- A simulation, from a cached ledger.
  simulate_answers :
      (block : BlockContext) (call : AbiCall) (w : World A)
      → AllJournaled router.manifest
      → IsCached ext.keccak256 w.ledger
      → (r : InspectResult) × ((simulate ext router block call w).0 ≡ ok r)
        × ((simulate ext router block call w).1.ledger ≡ w.ledger)
  unfolding simulate gets begin_sink attempt ◌>>=◌
  simulate_answers block call w all cached =
      let begun : World A = record w { sink = new_sink block.input_index } in
      let run = dispatch ext router (call_context ext router block call) begun in
      let back =
        roll_back_restores ext router begun run.1 cached
          ((dispatch-Keeps ext router (call_context ext router block call) all).related begun) in
      (simulated (simulation_caught ext run.0), rw back refl, rw back refl)

  run_view_answers :
      (call : AbiCall) (o : Option (CallContext → Act (World A) ViewOutcome)) (w : World A)
      → IsReadOnly o
      → (r : InspectResult) × ((run_view ext router call o w).0 ≡ ok r)
        × ((run_view ext router call o w).1.ledger ≡ w.ledger)
  unfolding run_view attempt pure ◌>>=◌
  run_view_answers call _ w no_view = (_, refl, refl)
  run_view_answers call _ w (only_reads keeps) = (_, refl, keeps (view_context ext router call) w)

  found_answers :
      (call : AbiCall) (o : Option (Handler A)) (w : World A)
      → Readable o
      → (r : InspectResult) × ((if_some o
            (λ h. run_view ext router call h.view)
            (pure (answer true tag_return []))
            w).0
          ≡ ok r)
        × ((if_some o
              (λ h. run_view ext router call h.view)
              (pure (answer true tag_return []))
              w).1.ledger
            ≡ w.ledger)
  unfolding pure if_some
  found_answers call _ w nobody = (_, refl, refl)
  found_answers call _ w (somebody {h = h} still) = run_view_answers call h.view w still

  view_answers :
      (call : AbiCall) (w : World A)
      → AllReadOnly router.manifest
      → (r : InspectResult) × ((view_of ext router call w).0 ≡ ok r)
        × ((view_of ext router call w).1.ledger ≡ w.ledger)
  unfolding view_of gets ◌>>=◌
  view_answers call w still =
      found_answers call (resolve ext router call.to none none w.ledger) w
        (resolve-Readable ext router call.to w.ledger still)

  call_answers :
      (last_block : Option BlockContext) (query : Option (Bool × AbiCall)) (w : World A)
      → AllJournaled router.manifest
      → AllReadOnly router.manifest
      → IsCached ext.keccak256 w.ledger
      → (r : InspectResult) × ((inspect_call ext router last_block query w).0 ≡ ok r)
        × ((inspect_call ext router last_block query w).1.ledger ≡ w.ledger)
  unfolding inspect_call pure gets
  call_answers last_block none w all still cached = (_, refl, refl)
  call_answers last_block (some (false, call)) w all still cached = view_answers call w still
  call_answers none (some (true, call)) w all still cached =
      simulate_answers (empty_block router.chain_id) call w all cached
  call_answers (some block) (some (true, call)) w all still cached =
      simulate_answers block call w all cached

  -- With journaled handlers in the manifest whose views leave the ledger as it was, and a
  -- ledger with right caches, a query of any bytes gives an answer, never a throw, and leaves
  -- the ledger as it was, whatever a simulated call writes.
  pub inspect_answers :
      (last_block : Option BlockContext) (payload : Bytes) (w : World A)
      → AllJournaled router.manifest
      → AllReadOnly router.manifest
      → IsCached ext.keccak256 w.ledger
      → (r : InspectResult) × ((inspect ext router last_block payload w).0 ≡ ok r)
        × ((inspect ext router last_block payload w).1.ledger ≡ w.ledger)
  unfolding inspect
  inspect_answers last_block payload w all still cached =
      call_answers last_block (decode_evm_call ext payload) w all still cached
