-- ===== src/App/Config/View.antt =====
-- The views of the owner's configuration (app/src/handlers/config.ts, `view`).
use op_cartesi.Base.{none, some, Result, ok}
use op_cartesi.Evm.Types.{CallContext, text, ViewOutcome}
use op_cartesi.Evm.External.{
  natural, one_address, ConfigCall, set_fee_call, register_portal_call, register_messenger_call,
  register_token_call, set_token_metadata_call, fee_view, owner_view, External,
}
use op_cartesi.Ledger.Types.{Address, Ledger}
use op_cartesi.App.World.{World}
use op_cartesi.App.FacadeView.{encoded_value, refused_view}

module _ (ext : External) (owner : Address) where
  unfoldable pub config_query : ConfigCall → Ledger → Result ViewOutcome
  unfolding encoded_value
  config_query fee_view l = encoded_value ext (ok (natural l.ram.fee))
  config_query owner_view l = encoded_value ext (ok (one_address owner))
  config_query (set_fee_call fee) l = refused_view ext (text "is not a view")
  config_query (register_portal_call kind portal) l = refused_view ext (text "is not a view")
  config_query (register_messenger_call l1_messenger l1_bridge) l =
      refused_view ext (text "is not a view")
  config_query (register_token_call l1_token name symbol decimals) l =
      refused_view ext (text "is not a view")
  config_query (set_token_metadata_call l1_token name symbol decimals) l =
      refused_view ext (text "is not a view")

  -- `Config.view`
  unfoldable pub config_view : {A : Type 0} → CallContext → World A → Result ViewOutcome
  unfolding config_query
  config_view call w = elim (ext.decode_config call.payload) [
    | none ↦ refused_view ext (text "unknown function")
    | some c ↦ config_query c w.ledger
  ]
