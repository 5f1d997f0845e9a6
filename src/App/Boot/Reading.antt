-- ===== src/App/Boot/Reading.antt =====
-- The views of the router that the boot leaves only read (app/src/router.ts, the constructor).
use op_cartesi.Base.{ℕ, List}
use op_cartesi.Evm.External.{External}
use op_cartesi.Ledger.Types.{Address}
use op_cartesi.App.World.{Handler}
use op_cartesi.App.Config.View.{config_view}
use op_cartesi.App.CrossDomain.View.{messenger_view}
use op_cartesi.App.L1Block.{l1block_view, Guest}
use op_cartesi.App.Boot.{manifest_with, router_with, wired_registry, standard_router}
use op_cartesi.App.Inspect.Views.{reads-IsReadOnly, no_view, AllReadOnly, and_handler}

module _ {A : Type 0} (ext : External) (owner : Address) (chain_id : ℕ) where
  -- When the views of what the application registers only read, so do all of the router's.
  pub standard_router-AllReadOnly :
      (application : List (Address × Handler (Guest A)))
      → AllReadOnly application
      → AllReadOnly (standard_router ext owner chain_id application).manifest
  unfolding standard_router router_with manifest_with
  standard_router-AllReadOnly application all =
      and_handler (reads-IsReadOnly (wired_registry ext owner chain_id application)) (
        and_handler no_view (
          and_handler (reads-IsReadOnly (config_view ext owner)) (
            and_handler (reads-IsReadOnly (l1block_view ext)) (
              and_handler (reads-IsReadOnly (messenger_view ext))
                (and_handler no_view (and_handler no_view all))))))
