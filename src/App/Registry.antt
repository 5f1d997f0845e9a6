-- ===== src/App/Registry.antt =====
-- The router registry (app/src/handlers/registry.ts): discovery views over the manifest. The
-- constructor of the router wires `lookup` and `list`.
use op_cartesi.Base.{Bool, true, false, Option, none, some, List, [], ◌∷◌, ◌++◌, Result, ok}
use op_cartesi.Evm.Addresses.{l2_token_address}
use op_cartesi.Evm.Types.{CallContext, text, ViewOutcome}
use op_cartesi.Evm.External.{
  ViewValue, routed, one_address, addresses, RegistryCall, handler_at, handlers, l2_token_of,
  External,
}
use op_cartesi.Drive.Types.{Token}
use op_cartesi.Ledger.Types.{Address, Ledger}
use op_cartesi.Ledger.Operations.{token_by_l2_address}
use op_cartesi.App.World.{World}
use op_cartesi.App.FacadeView.{encoded_value, refused_view}

module _ (ext : External) (look_up : Address → Ledger → Option Bool) (list : List Address) where
  -- Whether the target is routed, and whether what stands there is payable.
  unfoldable pub payable_at : Address → Ledger → Option Bool
  payable_at target l = elim (look_up target l) [
    | some payable ↦ some payable
    | none ↦ elim (token_by_l2_address ext.keccak256 target l) [ none ↦ none | some t ↦ some false ]
  ]

  abbrev routed_value : Option Bool → ViewValue
  routed_value none = routed false false
  routed_value (some payable) = routed true payable

  unfoldable pub facade_addresses : List Token → List Address
  facade_addresses [] = []
  facade_addresses (t ∷ ts) = l2_token_address ext.keccak256 t.address ∷ facade_addresses ts

  unfoldable pub registry_value : RegistryCall → Ledger → ViewValue
  unfolding payable_at facade_addresses
  registry_value (handler_at target) l = routed_value (payable_at target l)
  registry_value handlers l = addresses (list ++ facade_addresses l.drive.tokens)
  registry_value (l2_token_of l1_token) l = one_address (l2_token_address ext.keccak256 l1_token)

  -- `Registry.view`
  unfoldable pub registry_view : {A : Type 0} → CallContext → World A → Result ViewOutcome
  unfolding registry_value encoded_value
  registry_view call w = elim (ext.decode_registry call.payload) [
    | none ↦ refused_view ext (text "unknown function")
    | some c ↦ encoded_value ext (ok (registry_value c w.ledger))
  ]
