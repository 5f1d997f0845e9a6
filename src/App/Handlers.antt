-- ===== src/App/Handlers.antt =====
-- The built-in handlers that move value (app/src/handlers): the bridge, the token façade, the
-- portal receiver and the message passer.
pub mod Frame
use op_cartesi.Bytes.{Bytes, slice, read_be}
use op_cartesi.Ledger.Types.{Address, ResolvedFacade}
use op_cartesi.Base.{
  pure, gets, if_some, ◌>>=◌, ℕ, not, none, some, [], ltb, ◌==◌, if◌then◌else◌, length, Act, ◌>>◌,
  insufficient, Result, ok, err,
}
use op_cartesi.Evm.Types.{TxContext, text, AdvanceOutcome, accept, revert}
use op_cartesi.Evm.External.{
  BridgeCall, withdraw_ether, withdraw_erc20, Erc20Call, transfer, view_call, other_function,
  External,
}
use op_cartesi.Evm.Encoding.{error_revert, transfer_log}
use op_cartesi.Evm.Addresses.{zero_address_bytes, l2_token_address}
use op_cartesi.Ledger.Operations.{
  portal_kind, portal_ether, credit_ether, debit_ether, register_l1_token, credit_token,
  debit_token, token_by_l2_address, token_by_l1_address,
}
use op_cartesi.App.World.{on_ledger, emit_voucher, emit_log, emit_withdrawal, World}
use Prim.Native.String.{String}

module _ {A : Type 0} (ext : External) where
  abbrev pub revert_with : String → Act (World A) AdvanceOutcome
  revert_with message = pure (AdvanceOutcome.revert (error_revert ext (text message)))

  after_funds :
      Result (Unit {0}) × World A
      → String
      → Act (World A) AdvanceOutcome
      → Result AdvanceOutcome × World A
  after_funds (ok _, w) message k = k w
  after_funds (err (insufficient f), w) message k = revert_with message w
  after_funds (err e, w) message k = (err e, w)

  -- `try { m } catch (e) { if (e instanceof InsufficientFunds) revert; throw e; }`, then `k`.
  unfoldable pub funds_or_revert :
      Act (World A) (Unit {0})
      → String
      → Act (World A) AdvanceOutcome
      → Act (World A) AdvanceOutcome
  unfolding after_funds
  funds_or_revert m message k w = after_funds (m w) message k

  unfoldable pub withdraw_ether_call : TxContext → Bytes → Act (World A) AdvanceOutcome
  withdraw_ether_call ctx to = if ctx.value == 0 then revert_with "withdrawEther: no value" else (do
    on_ledger (debit_ether ext.keccak256 ctx.to ctx.value)
    emit_withdrawal ext ctx.sender to ctx.value none []
    pure accept)

  unfoldable pub withdraw_erc20_call : TxContext → Bytes → Bytes → ℕ → Act (World A) AdvanceOutcome
  unfolding funds_or_revert
  withdraw_erc20_call ctx l2_token to amount = do
    cross ← gets (λ w. w.ledger.ram.cross_domain_config)
    token ← gets (λ w. token_by_l2_address ext.keccak256 l2_token w.ledger)
    if_some cross
        (λ c. revert_with "ERC-20 leaves through the standard bridge (0x4200…0010) on this chain")
        (if_some token
          (λ t.
            funds_or_revert (on_ledger (debit_token ext.keccak256 ctx.sender t.id amount))
              "withdrawERC20: amount exceeds balance"
              (do
                emit_voucher t.l1_token 0 (ext.encode_transfer to amount)
                emit_log ext l2_token (transfer_log ext ctx.sender zero_address_bytes amount)
                pure accept))
          (revert_with "unknown token"))

  unfoldable pub bridge_call : TxContext → BridgeCall → Act (World A) AdvanceOutcome
  unfolding withdraw_ether_call withdraw_erc20_call
  bridge_call ctx (withdraw_ether to) = withdraw_ether_call ctx to
  bridge_call ctx (withdraw_erc20 l2_token to amount) = withdraw_erc20_call ctx l2_token to amount

  -- `Bridge.advance`
  unfoldable pub bridge_advance : TxContext → Act (World A) AdvanceOutcome
  unfolding bridge_call
  bridge_advance ctx =
      if_some (ext.decode_bridge ctx.payload) (bridge_call ctx) (revert_with "unknown function")

  unfoldable pub facade_call : TxContext → ResolvedFacade → Erc20Call → Act (World A) AdvanceOutcome
  unfolding funds_or_revert
  facade_call ctx token (view_call q) = revert_with "is not a transaction"
  facade_call ctx token other_function = revert_with "is not a transaction"
  facade_call ctx token (transfer to value) =
      funds_or_revert
        (do
          on_ledger (debit_token ext.keccak256 ctx.sender token.id value)
          on_ledger (credit_token ext.keccak256 to token.id value))
        "ERC20: transfer amount exceeds balance"
        (do emit_log ext ctx.to (transfer_log ext ctx.sender to value); pure accept)

  -- `Erc20Facade.advance`
  unfoldable pub facade_advance : TxContext → Act (World A) AdvanceOutcome
  unfolding facade_call
  facade_advance ctx = do
    token ← gets (λ w. token_by_l2_address ext.keccak256 ctx.to w.ledger)
    if_some token
        (λ t.
          if_some (ext.decode_erc20 ctx.payload) (facade_call ctx t)
            (revert_with "unknown function"))
        (revert_with "unknown token")

  -- `MessagePasser.advance`
  unfoldable pub passer_advance : TxContext → Act (World A) AdvanceOutcome
  passer_advance ctx =
      if length ctx.payload == 0
      then (do
        on_ledger (debit_ether ext.keccak256 ctx.to ctx.value)
        emit_withdrawal ext ctx.sender ctx.sender ctx.value none []
        pure accept)
      else if_some (ext.decode_passer ctx.payload)
          (λ call. do
            on_ledger (debit_ether ext.keccak256 ctx.to ctx.value)
            emit_withdrawal ext ctx.sender call.target ctx.value (some call.gas_limit) call.payload
            pure accept)
          (revert_with "unknown function")

  unfoldable pub ether_deposit : TxContext → Act (World A) AdvanceOutcome
  unfolding funds_or_revert
  ether_deposit ctx =
      if ltb (length ctx.payload) 52
      then revert_with "short ether deposit"
      else (let amount = read_be (slice 20 32 ctx.payload) in
          funds_or_revert
            (do
              on_ledger (debit_ether ext.keccak256 ctx.to amount)
              on_ledger (credit_ether ext.keccak256 (slice 0 20 ctx.payload) amount))
            "deposit value does not cover the credit" (pure accept))

  -- The token's id, registered at its first deposit.
  unfoldable pub token_id_of : Address → Act (World A) ℕ
  token_id_of l1_token = do
    token ← on_ledger (token_by_l1_address ext.keccak256 l1_token)
    if_some token (λ t. pure t.id)
        (do (id, l2_token) ← on_ledger (register_l1_token ext.keccak256 l1_token none); pure id)

  unfoldable pub erc20_deposit : TxContext → Act (World A) AdvanceOutcome
  unfolding token_id_of
  erc20_deposit ctx = if ltb (length ctx.payload) 72 then revert_with "short erc20 deposit" else (do
    let l1_token = slice 0 20 ctx.payload
    let beneficiary = slice 20 20 ctx.payload
    let amount = read_be (slice 40 32 ctx.payload)
    id ← token_id_of l1_token
    on_ledger (credit_token ext.keccak256 beneficiary id amount)
    emit_log ext (l2_token_address ext.keccak256 l1_token)
        (transfer_log ext zero_address_bytes beneficiary amount)
    pure accept)

  -- `PortalReceiver.advance`
  unfoldable pub portal_advance : TxContext → Act (World A) AdvanceOutcome
  unfolding ether_deposit erc20_deposit
  portal_advance ctx = if not ctx.is_deposit then revert_with "not a portal deposit" else (do
    kind ← gets (λ w. portal_kind ctx.sender w.ledger)
    if_some kind (λ k. if k == portal_ether then ether_deposit ctx else erc20_deposit ctx)
        (revert_with "unregistered portal"))
