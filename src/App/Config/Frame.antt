-- ===== src/App/Config/Frame.antt =====
-- The configuration and the journal (app/src/handlers/config.ts).
use op_cartesi.Base.{
  pure, ℕ, some, List, table_full, registry_full, overflow, nonce_protected, duplicate_token,
  unknown_token, bad_width, zero_address, profile, drive, insufficient, error, abi_drive,
  never_ends, Result, ok, err,
}
use op_cartesi.Base.Frame.{Keeps}
use op_cartesi.Bytes.{Bytes}
use op_cartesi.Evm.Types.{TxContext}
use op_cartesi.Evm.External.{
  ConfigCall, set_fee_call, register_portal_call, register_messenger_call, register_token_call,
  set_token_metadata_call, fee_view, owner_view, External,
}
use op_cartesi.Ledger.Types.{Address, TokenMetadata}
use op_cartesi.Ledger.Operations.Frame.{
  set_metadata-Keeps, register_portal-Keeps, set_fee-Keeps, register_cross_domain-Keeps,
  register_l1_token-Keeps,
}
use op_cartesi.App.World.{World}
use op_cartesi.App.World.Frame.{OnWorld-preorder, on_ledger-Keeps, OnWorld}
use op_cartesi.App.Handlers.Frame.{handler_rules}
use op_cartesi.Ledger.Operations.{register_l1_token}
use op_cartesi.App.Config.{
  logged, set_fee_call_advance, register_exclusive_portal, register_portal_advance,
  register_messenger_advance, after_registration, register_token_advance,
  set_token_metadata_advance, config_call, config_advance,
}
use Prim.Native.String.{String}

module _ {A : Type 0} (ext : External) (config_address : Address) where
  logged-Keeps :
      (event : String) (topics : List Bytes) (payload : Bytes)
      → Keeps (OnWorld {A = A}) (logged ext config_address event topics payload)
  unfolding logged
  logged-Keeps event topics payload = search handler_rules

  ruleset config_rules = (
    handler_rules, logged-Keeps, set_fee-Keeps, register_portal-Keeps, register_cross_domain-Keeps,
    set_metadata-Keeps,
  )

  after_registration-Keeps :
      (l1_token : Bytes) (w : World A) (p : Result (ℕ × Address) × World A)
      → OnWorld w p.1
      → OnWorld w (after_registration ext config_address l1_token p).1
  unfolding after_registration pure
  after_registration-Keeps l1_token w (ok (id, l2_token), v) h =
      OnWorld-preorder.chain w v _ h ((logged-Keeps _ _ _).related v)
  after_registration-Keeps l1_token w (err (drive e), v) h =
      elim e
        as (λ k. OnWorld w (after_registration ext config_address l1_token (err (drive k), v)).1) [
          | table_full ↦ h
          | registry_full ↦ h
          | overflow ↦ h
          | nonce_protected ↦ h
          | duplicate_token ↦ h
          | unknown_token ↦ h
          | bad_width ↦ h
          | zero_address ↦ h
          | profile ↦ h
        ]
  after_registration-Keeps l1_token w (err (insufficient f), v) h = h
  after_registration-Keeps l1_token w (err (error m), v) h = h
  after_registration-Keeps l1_token w (err (abi_drive e), v) h = h
  after_registration-Keeps l1_token w (err never_ends, v) h = h

  register_token_advance-Keeps :
      (l1_token : Bytes) (m : TokenMetadata)
      → Keeps (OnWorld {A = A}) (register_token_advance ext config_address l1_token m)
  unfolding register_token_advance
  register_token_advance-Keeps l1_token m = record {
    related = λ w. after_registration-Keeps l1_token w _ (
        (on_ledger-Keeps (register_l1_token ext.keccak256 l1_token (some m))
            (register_l1_token-Keeps ext.keccak256 l1_token (some m))).related
          w);
  }

  config_call-Keeps :
      (call : ConfigCall) → Keeps (OnWorld {A = A}) (config_call ext config_address call)
  unfolding config_call set_fee_call_advance register_portal_advance register_exclusive_portal
      register_messenger_advance set_token_metadata_advance
  config_call-Keeps (set_fee_call fee) = search config_rules depth 8
  config_call-Keeps (register_portal_call kind portal) = search config_rules depth 12
  config_call-Keeps (register_messenger_call l1_messenger l1_bridge) = search config_rules depth 12
  config_call-Keeps (register_token_call l1_token name symbol decimals) =
      register_token_advance-Keeps l1_token _
  config_call-Keeps (set_token_metadata_call l1_token name symbol decimals) =
      search config_rules depth 12
  config_call-Keeps fee_view = search config_rules
  config_call-Keeps owner_view = search config_rules

  -- From every world the journal leads back from the ledger after a call of the configuration
  -- to the ledger before it, the geometry is the same, and message statuses have only moved on,
  -- however the call ends.
  pub config_advance-Keeps :
      (owner : Address) (ctx : TxContext)
      → Keeps (OnWorld {A = A}) (config_advance ext config_address owner ctx)
  unfolding config_advance
  config_advance-Keeps owner ctx = search (handler_rules, config_call-Keeps) depth 8
