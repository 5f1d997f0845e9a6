-- ===== src/App/CrossDomain/Bridge.antt =====
-- The standard bridge (app/src/handlers/l2bridge.ts): tokens leave through the messenger, and what
-- the messenger relays from the L1 bridge is credited.
use op_cartesi.Evm.Encoding.{pad_address, topic_of, transfer_log}
use op_cartesi.Evm.Addresses.{
  l2_messenger_address, l2_bridge_address, zero_address_bytes, l2_token_address,
}
use op_cartesi.Evm.CrossDomain.{erc20_bridge_log}
use op_cartesi.Base.{
  pure, throw, gets, throw_if, if_some, ◌>>=◌, ℕ, not, [], ◌∷◌, ◌==◌, if◌then◌else◌, Act, ◌>>◌,
  relay_sender, not_bridge_message, message_carries_value, wrong_token_pair, value_mismatch,
  unsupported_bridge_message, error,
}
use op_cartesi.Bytes.{Bytes, bytes_equal}
use op_cartesi.Evm.Types.{TxContext, AdvanceOutcome, accept, CrossDomainMessage}
use op_cartesi.Evm.External.{
  uint, bytes, BridgeOrder, BridgeTransfer, StandardBridgeCall, bridge_erc20, bridge_erc20_to,
  finalize_erc20, finalize_ether, External,
}
use op_cartesi.Ledger.Types.{CrossDomainConfig, ResolvedFacade}
use op_cartesi.Ledger.Operations.{
  credit_ether, debit_ether, credit_token, debit_token, token_by_l2_address,
}
use op_cartesi.App.World.{on_ledger, emit_log, World}
use op_cartesi.App.Handlers.{revert_with, funds_or_revert, token_id_of}
use op_cartesi.App.CrossDomain.{send_cross_domain_message}
use Prim.Native.String.{String}

abbrev initiated_event : String
initiated_event = "ERC20BridgeInitiated(address,address,address,uint256,bytes)"

abbrev finalized_event : String
finalized_event = "ERC20BridgeFinalized(address,address,address,uint256,bytes)"

module _ {A : Type 0} (ext : External) where
  -- After the debit: the burn's event, the bridge's and the message to the other bridge.
  unfoldable pub announce :
      TxContext → CrossDomainConfig → BridgeOrder → Act (World A) AdvanceOutcome
  unfolding send_cross_domain_message
  announce ctx cd a = do
    emit_log ext a.local_token (transfer_log ext ctx.sender zero_address_bytes a.amount)
    emit_log ext l2_bridge_address (
        erc20_bridge_log ext initiated_event (record {
          local_token = a.local_token;
          remote_token = a.remote_token;
          from = ctx.sender;
          to = a.to;
          amount = a.amount;
          extra = a.extra;
        }))
    send_cross_domain_message ext cd l2_bridge_address cd.l1_bridge
        (ext.encode_finalize_erc20 (record {
          local_token = a.remote_token;
          remote_token = a.local_token;
          from = ctx.sender;
          to = a.to;
          amount = a.amount;
          extra = a.extra;
        }))
        a.min_gas_limit 0
    pure accept

  -- `initiate`, for the token of the façade: the pair has to be the façade's.
  unfoldable pub initiate_token :
      TxContext → CrossDomainConfig → BridgeOrder → ResolvedFacade → Act (World A) AdvanceOutcome
  unfolding announce funds_or_revert
  initiate_token ctx cd a t =
      if bytes_equal t.l1_token a.remote_token
      then funds_or_revert ext (on_ledger (debit_token ext.keccak256 ctx.sender t.id a.amount))
          "amount exceeds balance" (announce ctx cd a)
      else revert_with ext "wrong token pair"

  unfoldable pub initiate :
      TxContext → CrossDomainConfig → BridgeOrder → Act (World A) AdvanceOutcome
  unfolding initiate_token
  initiate ctx cd a = do
    token ← gets (λ w. token_by_l2_address ext.keccak256 a.local_token w.ledger)
    if_some token (initiate_token ctx cd a) (revert_with ext "wrong token pair")

  unfoldable pub standard_bridge_call :
      TxContext → CrossDomainConfig → StandardBridgeCall → Act (World A) AdvanceOutcome
  unfolding initiate
  standard_bridge_call ctx cd (bridge_erc20 local_token remote_token amount min_gas_limit extra) =
      initiate ctx cd (record {
        local_token = local_token;
        remote_token = remote_token;
        to = ctx.sender;
        amount = amount;
        min_gas_limit = min_gas_limit;
        extra = extra;
      })
  standard_bridge_call ctx cd (bridge_erc20_to a) = initiate ctx cd a
  standard_bridge_call ctx cd (finalize_erc20 t) =
      revert_with ext "finalize is only callable by the messenger"
  standard_bridge_call ctx cd (finalize_ether from to amount extra) =
      revert_with ext "finalize is only callable by the messenger"

  -- `L2Bridge.advance`
  unfoldable pub standard_bridge_advance : TxContext → Act (World A) AdvanceOutcome
  unfolding standard_bridge_call
  standard_bridge_advance ctx = do
    cross ← gets (λ w. w.ledger.ram.cross_domain_config)
    if_some cross
        (λ cd.
          if_some (ext.decode_standard_bridge ctx.payload) (standard_bridge_call ctx cd)
            (revert_with ext "unknown function"))
        (revert_with ext "no standard bridge registered")

  unfoldable pub finalize_erc20_transfer :
      CrossDomainMessage → BridgeTransfer → Act (World A) (Unit {0})
  unfolding token_id_of
  finalize_erc20_transfer m t = do
    throw_if (not (m.value == 0)) (error message_carries_value)
    throw_if (not (bytes_equal t.local_token (l2_token_address ext.keccak256 t.remote_token)))
        (error wrong_token_pair)
    id ← token_id_of ext t.remote_token
    on_ledger (credit_token ext.keccak256 t.to id t.amount)
    emit_log ext t.local_token (transfer_log ext zero_address_bytes t.to t.amount)
    emit_log ext l2_bridge_address (erc20_bridge_log ext finalized_event t)

  unfoldable pub finalize_ether_transfer :
      CrossDomainMessage → Bytes → Bytes → ℕ → Bytes → Act (World A) (Unit {0})
  finalize_ether_transfer m from to amount extra = do
    throw_if (not (m.value == amount)) (error value_mismatch)
    on_ledger (debit_ether ext.keccak256 l2_messenger_address amount)
    on_ledger (credit_ether ext.keccak256 to amount)
    emit_log ext l2_bridge_address (record {
      topics =
          topic_of ext "ETHBridgeFinalized(address,address,uint256,bytes)"
          ∷ pad_address from
          ∷ pad_address to
          ∷ [];
      log_bytes = ext.encode_abi_parameters (uint amount ∷ bytes extra ∷ []);
    })

  unfoldable pub finalize_call : CrossDomainMessage → StandardBridgeCall → Act (World A) (Unit {0})
  unfolding finalize_erc20_transfer finalize_ether_transfer
  finalize_call m (finalize_erc20 t) = finalize_erc20_transfer m t
  finalize_call m (finalize_ether from to amount extra) =
      finalize_ether_transfer m from to amount extra
  finalize_call m (bridge_erc20 local_token remote_token amount min_gas_limit extra) =
      throw (error unsupported_bridge_message)
  finalize_call m (bridge_erc20_to a) = throw (error unsupported_bridge_message)

  -- `finalizeFromMessenger`
  unfoldable pub finalize_from_messenger :
      CrossDomainMessage → CrossDomainConfig → Act (World A) (Unit {0})
  unfolding finalize_call
  finalize_from_messenger m cd = do
    throw_if (not (bytes_equal m.sender cd.l1_bridge)) (error relay_sender)
    if_some (ext.decode_standard_bridge m.message) (finalize_call m)
        (throw (error not_bridge_message))
