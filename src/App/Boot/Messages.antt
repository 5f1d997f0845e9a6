-- ===== src/App/Boot/Messages.antt =====
-- Cross-domain messages over the inputs of the router that the boot leaves (app/src/router.ts, the
-- constructor and `advance`).
use op_cartesi.Base.{ℕ, List}
use op_cartesi.Bytes.{Bytes}
use op_cartesi.Evm.Types.{BlockContext}
use op_cartesi.Evm.External.{External}
use op_cartesi.Ledger.Types.{Address}
use op_cartesi.Ledger.Operations.Statuses.{StatusOrder}
use op_cartesi.App.World.{World, Handler}
use op_cartesi.App.Parse.{parse_input}
use op_cartesi.App.L1Block.{Guest}
use op_cartesi.App.Router.Input.{advance}
use op_cartesi.App.Router.Frame.{AllJournaled}
use op_cartesi.App.Router.Settle.{IsReady}
use op_cartesi.App.Router.Advance.{MintIsCached}
use op_cartesi.App.Router.Messages.{advance-StatusOrder}
use op_cartesi.App.Boot.{standard_router}
use op_cartesi.App.Boot.Wiring.{standard_router-AllJournaled}

-- In the router that the boot leaves, with journaled handlers of the application behind the
-- built-in ones, from a ledger with an empty journal and right caches, and with caches that
-- stay right after a deposit's mint, every cross-domain message has after any input the status
-- that it had before, or moved from none to a first result, or from failed to successful: what
-- has been relayed is never relayed again.
pub standard_router-StatusOrder :
    {A : Type 0} (ext : External) (owner : Address) (chain_id : ℕ)
    (application : List (Address × Handler (Guest A))) (block : BlockContext) (raw : Bytes)
    (w : World (Guest A))
    → AllJournaled application
    → IsReady ext (standard_router ext owner chain_id application) w
    → MintIsCached ext
        (standard_router ext owner chain_id application)
        (parse_input ext raw)
        w.ledger
    → (k : Bytes)
    → StatusOrder (w.ledger.ram.messages k) (
        (advance ext
            (standard_router ext owner chain_id application)
            block
            raw
            w).1.ledger.ram.messages
          k)
standard_router-StatusOrder ext owner chain_id application block raw w all =
    advance-StatusOrder ext (standard_router ext owner chain_id application) block raw w
      (standard_router-AllJournaled ext owner chain_id application all)
