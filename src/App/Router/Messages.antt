-- ===== src/App/Router/Messages.antt =====
-- Cross-domain messages over whole inputs (app/src/router.ts, `advance`).
use op_cartesi.Base.{sym, Result}
use op_cartesi.Bytes.{Bytes}
use op_cartesi.Evm.Types.{BlockContext}
use op_cartesi.Evm.External.{External}
use op_cartesi.Ledger.Types.{Ledger}
use op_cartesi.Ledger.Operations.Statuses.{StatusOrder, unchanged}
use op_cartesi.App.World.{World}
use op_cartesi.App.Parse.{parse_input}
use op_cartesi.App.Router.{Router, AdvanceResult}
use op_cartesi.App.Router.Input.{advance}
use op_cartesi.App.Router.Frame.{AllJournaled}
use op_cartesi.App.Router.Settle.{Settles, refused_whole, committed, thrown, IsReady}
use op_cartesi.App.Router.Advance.{MintIsCached, advance-Settles}
use mathlib.Core.Path.{subst}

module _ {A : Type 0} (ext : External) (router : Router A) where
  -- The statuses after an input that settled.
  settled_progress :
      (l : Ledger) (p : Result AdvanceResult × World A)
      → Settles l p
      → (k : Bytes) → StatusOrder (l.ram.messages k) (p.1.ledger.ram.messages k)
  settled_progress l _ (refused_whole a e same) k =
      subst (λ (m : Ledger). StatusOrder (l.ram.messages k) (m.ram.messages k)) (sym same) unchanged
  settled_progress l _ (committed a e moves) k = moves k
  settled_progress l _ (thrown same) k =
      subst (λ (m : Ledger). StatusOrder (l.ram.messages k) (m.ram.messages k)) (sym same) unchanged

  -- With journaled handlers, from a ledger with an empty journal and right caches, and with
  -- caches that stay right after a deposit's mint, every cross-domain message has after any
  -- input the status that it had before, or moved from none to a first result, or from failed
  -- to successful: what has been relayed is never relayed again.
  pub advance-StatusOrder :
      (block : BlockContext) (raw : Bytes) (w : World A)
      → AllJournaled router.manifest
      → IsReady ext router w
      → MintIsCached ext router (parse_input ext raw) w.ledger
      → (k : Bytes)
      → StatusOrder
          (w.ledger.ram.messages k)
          ((advance ext router block raw w).1.ledger.ram.messages k)
  advance-StatusOrder block raw w all ready minted =
      settled_progress w.ledger _ (advance-Settles ext router block raw w all ready minted)
