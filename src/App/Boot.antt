-- ===== src/App/Boot.antt =====
-- How the router is put together (app/src/router.ts, the constructor and `register`).
pub mod Wiring
pub mod Messages
pub mod Payable
pub mod Reading
use op_cartesi.Base.{
  reads, ℕ, Bool, true, false, Option, none, some, List, [], ◌∷◌, ◌++◌, already_routed, error,
  never_ends, Result, ok, err,
}
use op_cartesi.Evm.Addresses.{
  registry_address, bridge_address, config_address, l1block_address, l2_messenger_address,
  l2_bridge_address, message_passer_address,
}
use op_cartesi.Evm.Types.{CallContext, ViewOutcome}
use op_cartesi.Evm.External.{External}
use op_cartesi.Ledger.Types.{Address, Ledger}
use op_cartesi.App.World.{World, Handler}
use op_cartesi.App.L1Block.{l1block_advance, l1block_view, Guest}
use op_cartesi.App.Registry.{registry_view}
use op_cartesi.App.Config.{config_advance}
use op_cartesi.App.Config.View.{config_view}
use op_cartesi.App.CrossDomain.View.{messenger_view}
use op_cartesi.App.CrossDomain.Messenger.{messenger_advance}
use op_cartesi.App.CrossDomain.Bridge.{standard_bridge_advance}
use op_cartesi.App.Handlers.{bridge_advance, passer_advance}
use op_cartesi.App.Router.{find_handler, resolve, Router}
use op_cartesi.App.Router.Input.{advance}

-- `[...this.manifest.keys()]`
unfoldable pub manifest_keys : {A : Type 0} → List (Address × Handler A) → List Address
manifest_keys [] = []
manifest_keys ((key, h) ∷ m) = key ∷ manifest_keys m

abbrev pub payable_of : {A : Type 0} → Option (Handler A) → Option Bool
payable_of none = none
payable_of (some h) = some h.payable

module _ {A : Type 0} where
  -- `register`: an address that is routed is refused.
  unfoldable pub register :
      Address → Handler A → List (Address × Handler A) → Result (List (Address × Handler A))
  register key h m = elim (find_handler key m) [
    | some taken ↦ err (error already_routed)
    | none ↦ ok (m ++ (key, h) ∷ [])
  ]

module _ {A : Type 0} (ext : External) (owner : Address) (chain_id : ℕ) where
  -- The manifest after the constructor, for a given view of the registry. The built-in views read.
  unfoldable pub manifest_with :
      (CallContext → World (Guest A) → Result ViewOutcome) → List (Address × Handler (Guest A))
  manifest_with registry =
      (
        registry_address,
        record { payable = false; advance = none; view = some (λ call. reads (registry call)) },
      )
      ∷ (
        bridge_address,
        record { payable = true; advance = some (bridge_advance ext); view = none },
      )
      ∷ (
        config_address,
        record {
          payable = false;
          advance = some (config_advance ext config_address owner);
          view = some (λ call. reads (config_view ext owner call));
        },
      )
      ∷ (
        l1block_address,
        record {
          payable = false;
          advance = some (l1block_advance ext);
          view = some (λ call. reads (l1block_view ext call));
        },
      )
      ∷ (
        l2_messenger_address,
        record {
          payable = true;
          advance = some (messenger_advance ext);
          view = some (λ call. reads (messenger_view ext call));
        },
      )
      ∷ (
        l2_bridge_address,
        record { payable = false; advance = some (standard_bridge_advance ext); view = none },
      )
      ∷ (
        message_passer_address,
        record { payable = true; advance = some (passer_advance ext); view = none },
      )
      ∷ []

  -- With the application's own handlers behind, as boot-time registration leaves them.
  unfoldable pub router_with :
      (CallContext → World (Guest A) → Result ViewOutcome)
      → List (Address × Handler (Guest A))
      → Router (Guest A)
  unfolding manifest_with
  router_with registry application = record {
    manifest = manifest_with registry ++ application;
    chain_id = chain_id;
  }

  -- `lookup` and `list` read the finished manifest: of the registry's own entry they use the
  -- address and whether it is payable, and not its view.
  abbrev unwired : CallContext → World (Guest A) → Result ViewOutcome
  unwired call w = err never_ends

  unfoldable pub look_up : List (Address × Handler (Guest A)) → Address → Ledger → Option Bool
  unfolding router_with
  look_up application target l =
      payable_of (resolve ext (router_with unwired application) target none none l)

  unfoldable pub wired_registry :
      List (Address × Handler (Guest A)) → CallContext → World (Guest A) → Result ViewOutcome
  unfolding look_up
  wired_registry application =
      registry_view ext (look_up application)
        (manifest_keys (router_with unwired application).manifest)

  -- `new Router`, and the registrations of the boot.
  unfoldable pub standard_router : List (Address × Handler (Guest A)) → Router (Guest A)
  unfolding router_with wired_registry
  standard_router application = router_with (wired_registry application) application
