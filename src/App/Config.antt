-- ===== src/App/Config.antt =====
-- The owner's configuration (app/src/handlers/config.ts): the fee, the portals, the messenger and
-- the tokens.
pub mod Escrow
pub mod Frame
pub mod View
use op_cartesi.App.Handlers.{revert_with}
use op_cartesi.Evm.Types.{TxContext, AdvanceOutcome, accept}
use op_cartesi.Evm.External.{
  uint, address, ConfigCall, set_fee_call, register_portal_call, register_messenger_call,
  register_token_call, set_token_metadata_call, fee_view, owner_view, External,
}
use op_cartesi.Evm.Encoding.{pad_address, to_word, topic_of}
use op_cartesi.Evm.Addresses.{config_address, apply_l1_to_l2_alias}
use op_cartesi.Base.{
  pure, gets, if_some, ◌>>=◌, ℕ, Bool, true, false, not, ◌&&◌, Option, none, some, List, [], ◌∷◌,
  ◌==◌, if◌then◌else◌, Act, ◌>>◌, duplicate_token, drive, Result, ok, err,
}
use op_cartesi.Bytes.{Bytes, bytes_equal}
use op_cartesi.Ledger.Types.{Address, CrossDomainConfig, TokenMetadata}
use op_cartesi.Ledger.Operations.{
  set_metadata, register_portal, set_fee, register_cross_domain, portal_ether, portal_erc20,
  has_erc20_portal, register_l1_token, token_by_l1_address,
}
use op_cartesi.App.World.{on_ledger, emit_log, World}
use Prim.Native.String.{String}

abbrev some_config : Option CrossDomainConfig → Bool
some_config none = false
some_config (some cfg) = true

module _ {A : Type 0} (ext : External) (config_address : Address) where
  -- The log of one event, of which the outcome is the acceptance.
  unfoldable pub logged : String → List Bytes → Bytes → Act (World A) AdvanceOutcome
  logged event topics payload = do
    emit_log ext config_address
        (record { topics = topic_of ext event ∷ topics; log_bytes = payload })
    pure accept

  unfoldable pub set_fee_call_advance : ℕ → Act (World A) AdvanceOutcome
  unfolding logged
  set_fee_call_advance fee = do on_ledger (set_fee fee); logged "FeeSet(uint256)" [] (to_word fee)

  -- The registration of a known kind: escrow paths are exclusive.
  unfoldable pub register_exclusive_portal : ℕ → Bytes → Act (World A) AdvanceOutcome
  unfolding logged
  register_exclusive_portal kind portal = do
    cross ← gets (λ w. w.ledger.ram.cross_domain_config)
    if (kind == portal_erc20) && some_config cross
        then revert_with ext "the standard bridge is registered; escrows are exclusive"
        else (do
          let aliased = apply_l1_to_l2_alias portal
          on_ledger (register_portal aliased kind)
          logged "PortalRegistered(uint8,address,address)" []
              (ext.encode_abi_parameters (uint kind ∷ address portal ∷ address aliased ∷ [])))

  unfoldable pub register_portal_advance : ℕ → Bytes → Act (World A) AdvanceOutcome
  unfolding register_exclusive_portal
  register_portal_advance kind portal =
      if not (kind == portal_ether) && not (kind == portal_erc20)
      then revert_with ext "unknown portal kind"
      else register_exclusive_portal kind portal

  unfoldable pub register_messenger_advance : Bytes → Bytes → Act (World A) AdvanceOutcome
  unfolding logged
  register_messenger_advance l1_messenger l1_bridge = do
    taken ← gets (λ w. has_erc20_portal w.ledger)
    if taken then revert_with ext "an ERC-20 portal is registered; escrows are exclusive" else (do
      on_ledger (
          register_cross_domain (record {
            l1_messenger = l1_messenger;
            l1_messenger_aliased = apply_l1_to_l2_alias l1_messenger;
            l1_bridge = l1_bridge;
          }))
      logged "MessengerRegistered(address,address)" []
          (ext.encode_abi_parameters (address l1_messenger ∷ address l1_bridge ∷ [])))

  -- What follows the registration; a duplicate reverts, and any other throw goes on.
  unfoldable pub after_registration :
      Bytes → Result (ℕ × Address) × World A → Result AdvanceOutcome × World A
  unfolding logged
  after_registration l1_token (ok (id, l2_token), w) =
      logged "TokenRegistered(address,address,uint16)"
        (pad_address l1_token ∷ pad_address l2_token ∷ []) (to_word id) w
  after_registration l1_token (err (drive duplicate_token), w) =
      revert_with ext "token already registered" w
  after_registration l1_token (err e, w) = (err e, w)

  unfoldable pub register_token_advance : Bytes → TokenMetadata → Act (World A) AdvanceOutcome
  unfolding after_registration
  register_token_advance l1_token metadata w =
      after_registration l1_token
        (on_ledger (register_l1_token ext.keccak256 l1_token (some metadata)) w)

  unfoldable pub set_token_metadata_advance : Bytes → TokenMetadata → Act (World A) AdvanceOutcome
  set_token_metadata_advance l1_token metadata = do
    token ← on_ledger (token_by_l1_address ext.keccak256 l1_token)
    if_some token (λ t. do on_ledger (set_metadata t.id metadata); pure accept)
        (revert_with ext "unknown token")

  unfoldable pub config_call : ConfigCall → Act (World A) AdvanceOutcome
  unfolding set_fee_call_advance register_portal_advance register_messenger_advance
      register_token_advance set_token_metadata_advance
  config_call (set_fee_call fee) = set_fee_call_advance fee
  config_call (register_portal_call kind portal) = register_portal_advance kind portal
  config_call (register_messenger_call l1_messenger l1_bridge) =
      register_messenger_advance l1_messenger l1_bridge
  config_call (register_token_call l1_token name symbol decimals) =
      register_token_advance l1_token (record { name = name; symbol = symbol; decimals = decimals })
  config_call (set_token_metadata_call l1_token name symbol decimals) =
      set_token_metadata_advance l1_token
        (record { name = name; symbol = symbol; decimals = decimals })
  config_call fee_view = revert_with ext "is not a transaction"
  config_call owner_view = revert_with ext "is not a transaction"

  -- `Config.advance`
  unfoldable pub config_advance : Address → TxContext → Act (World A) AdvanceOutcome
  unfolding config_call
  config_advance owner ctx =
      if not (bytes_equal ctx.sender owner)
      then revert_with ext "not the owner"
      else if_some (ext.decode_config ctx.payload) config_call (revert_with ext "unknown function")
