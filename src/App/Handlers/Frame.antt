-- ===== src/App/Handlers/Frame.antt =====
-- The built-in handlers and the journal (app/src/handlers).
use op_cartesi.Base.{
  pure, ℕ, Act, drive, insufficient, error, abi_drive, never_ends, Result, ok, err,
}
use op_cartesi.Base.Frame.{Keeps}
use op_cartesi.Bytes.{Bytes}
use op_cartesi.Evm.Types.{TxContext, AdvanceOutcome}
use op_cartesi.Evm.External.{
  BridgeCall, withdraw_ether, withdraw_erc20, Erc20Call, transfer, view_call, other_function,
  External,
}
use op_cartesi.Ledger.Types.{Address, ResolvedFacade}
use op_cartesi.Ledger.Operations.Frame.{
  credit_ether-Keeps, debit_ether-Keeps, register_l1_token-Keeps, credit_token-Keeps,
  debit_token-Keeps, token_by_l1_address-Keeps,
}
use op_cartesi.App.World.{World}
use op_cartesi.App.World.Frame.{OnWorld-preorder, world_rules, OnWorld}
use op_cartesi.App.Handlers.{
  after_funds, funds_or_revert, withdraw_ether_call, withdraw_erc20_call, bridge_call,
  bridge_advance, facade_call, facade_advance, passer_advance, ether_deposit, token_id_of,
  erc20_deposit, portal_advance,
}
use Prim.Native.String.{String}

pub ruleset handler_rules = (
  world_rules, credit_ether-Keeps, debit_ether-Keeps, credit_token-Keeps, debit_token-Keeps,
  register_l1_token-Keeps, token_by_l1_address-Keeps,
)

module _ {A : Type 0} (ext : External) where
  after_funds-Keeps :
      (w : World A) (p : Result (Unit {0}) × World A) (message : String)
      (k : Act (World A) AdvanceOutcome)
      → OnWorld w p.1
      → Keeps OnWorld k
      → OnWorld w (after_funds ext p message k).1
  unfolding after_funds pure
  after_funds-Keeps w (ok u, v) message k h hk = OnWorld-preorder.chain _ _ _ h (hk.related v)
  after_funds-Keeps w (err (insufficient f), v) message k h hk = h
  after_funds-Keeps w (err (drive e), v) message k h hk = h
  after_funds-Keeps w (err (error e), v) message k h hk = h
  after_funds-Keeps w (err (abi_drive e), v) message k h hk = h
  after_funds-Keeps w (err never_ends, v) message k h hk = h

  pub funds_or_revert-Keeps :
      (m : Act (World A) (Unit {0})) (message : String) (k : Act (World A) AdvanceOutcome)
      → Keeps OnWorld m
      → Keeps OnWorld k
      → Keeps OnWorld (funds_or_revert ext m message k)
  unfolding funds_or_revert
  funds_or_revert-Keeps m message k hm hk = record {
    related = λ w. after_funds-Keeps w (m w) message k (hm.related w) hk;
  }

  withdraw_ether_call-Keeps :
      (ctx : TxContext) (to : Bytes) → Keeps (OnWorld {A = A}) (withdraw_ether_call ext ctx to)
  unfolding withdraw_ether_call
  withdraw_ether_call-Keeps ctx to = search handler_rules depth 12

  withdraw_erc20_call-Keeps :
      (ctx : TxContext) (l2_token to : Bytes) (amount : ℕ)
      → Keeps (OnWorld {A = A}) (withdraw_erc20_call ext ctx l2_token to amount)
  unfolding withdraw_erc20_call
  withdraw_erc20_call-Keeps ctx l2_token to amount =
      search (handler_rules, funds_or_revert-Keeps) depth 14

  bridge_call-Keeps :
      (ctx : TxContext) (call : BridgeCall) → Keeps (OnWorld {A = A}) (bridge_call ext ctx call)
  unfolding bridge_call
  bridge_call-Keeps ctx (withdraw_ether to) = withdraw_ether_call-Keeps ctx to
  bridge_call-Keeps ctx (withdraw_erc20 l2_token to amount) =
      withdraw_erc20_call-Keeps ctx l2_token to amount

  pub bridge_advance-Keeps : (ctx : TxContext) → Keeps (OnWorld {A = A}) (bridge_advance ext ctx)
  unfolding bridge_advance
  bridge_advance-Keeps ctx = search (handler_rules, bridge_call-Keeps) depth 8

  facade_call-Keeps :
      (ctx : TxContext) (token : ResolvedFacade) (call : Erc20Call)
      → Keeps (OnWorld {A = A}) (facade_call ext ctx token call)
  unfolding facade_call
  facade_call-Keeps ctx token (view_call q) = search handler_rules
  facade_call-Keeps ctx token other_function = search handler_rules
  facade_call-Keeps ctx token (transfer to value) =
      search (handler_rules, funds_or_revert-Keeps) depth 12

  pub facade_advance-Keeps : (ctx : TxContext) → Keeps (OnWorld {A = A}) (facade_advance ext ctx)
  unfolding facade_advance
  facade_advance-Keeps ctx = search (handler_rules, facade_call-Keeps) depth 10

  pub passer_advance-Keeps : (ctx : TxContext) → Keeps (OnWorld {A = A}) (passer_advance ext ctx)
  unfolding passer_advance
  passer_advance-Keeps ctx = search handler_rules depth 14

  ether_deposit-Keeps : (ctx : TxContext) → Keeps (OnWorld {A = A}) (ether_deposit ext ctx)
  unfolding ether_deposit
  ether_deposit-Keeps ctx = search (handler_rules, funds_or_revert-Keeps) depth 12

  pub token_id_of-Keeps : (l1_token : Address) → Keeps (OnWorld {A = A}) (token_id_of ext l1_token)
  unfolding token_id_of
  token_id_of-Keeps l1_token = search handler_rules depth 12

  erc20_deposit-Keeps : (ctx : TxContext) → Keeps (OnWorld {A = A}) (erc20_deposit ext ctx)
  unfolding erc20_deposit
  erc20_deposit-Keeps ctx = search (handler_rules, token_id_of-Keeps) depth 14

  pub portal_advance-Keeps : (ctx : TxContext) → Keeps (OnWorld {A = A}) (portal_advance ext ctx)
  unfolding portal_advance
  portal_advance-Keeps ctx =
      search (handler_rules, ether_deposit-Keeps, erc20_deposit-Keeps) depth 12
