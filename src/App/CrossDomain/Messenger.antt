-- ===== src/App/CrossDomain/Messenger.antt =====
-- The cross-domain messenger (app/src/handlers/messenger.ts): what the L1 messenger relays is run
-- once, and a run that failed is kept for a replay.
pub mod Relay
pub mod Admission
use op_cartesi.Evm.Nonces.{decode_versioned_nonce}
use op_cartesi.Evm.Addresses.{l2_messenger_address, l2_bridge_address}
use op_cartesi.Evm.CrossDomain.{hash_cross_domain_message, relayed_message_log}
use op_cartesi.Base.{
  pure, gets, throw_if, if_some, ◌>>=◌, ℕ, zero, Bool, true, false, not, ◌&&◌, Option, none, some,
  ltb, ◌==◌, if◌then◌else◌, length, Act, ◌>>◌, unsupported_target, error, Result, ok, err,
}
use op_cartesi.Bytes.{Bytes, bytes_equal}
use op_cartesi.Evm.Types.{TxContext, AdvanceOutcome, accept, CrossDomainMessage}
use op_cartesi.Evm.External.{MessengerCall, relay_message, messenger_view_call, External}
use op_cartesi.Ledger.Types.{Status, successful, failed, CrossDomainConfig}
use op_cartesi.Ledger.Journal.{mark, rollback_to}
use op_cartesi.Ledger.Operations.{
  message_status, set_message_status, credit_ether, debit_ether, after_rollback,
}
use op_cartesi.App.World.{on_ledger, attempt, emit_log, World}
use op_cartesi.App.Handlers.{revert_with}
use op_cartesi.App.CrossDomain.{message_version}
use op_cartesi.App.CrossDomain.Bridge.{finalize_from_messenger}
use Prim.Native.String.{String}

-- A delivery comes from the aliased L1 messenger, as a deposit.
abbrev pub is_from_l1 : TxContext → CrossDomainConfig → Bool
is_from_l1 ctx cd = ctx.is_deposit && bytes_equal ctx.sender cd.l1_messenger_aliased

-- Why a message is not run, by its status: a first delivery carries the value, a replay none.
unfoldable pub relay_refusal :
    TxContext → CrossDomainConfig → CrossDomainMessage → Option Status → Option String
relay_refusal ctx cd m (some successful) = some "message has already been relayed"
relay_refusal ctx cd m (some failed) =
    if is_from_l1 ctx cd
    then (if not (ctx.value == m.value)
        then some "value does not match the message"
        else some "message already received")
    else (if not (ctx.value == 0) then some "value must be zero on replay" else none)
relay_refusal ctx cd m none =
    if is_from_l1 ctx cd
    then (if not (ctx.value == m.value) then some "value does not match the message" else none)
    else (if not (ctx.value == 0)
        then some "value must be zero on replay"
        else some "message cannot be replayed")

module _ {A : Type 0} (ext : External) where
  -- The relayed call (`dispatch` of the messenger).
  unfoldable pub relay_dispatch : CrossDomainMessage → CrossDomainConfig → Act (World A) (Unit {0})
  unfolding finalize_from_messenger
  relay_dispatch m cd =
      if bytes_equal m.target l2_bridge_address then finalize_from_messenger ext m cd else (do
        throw_if (ltb 0 (length m.message)) (error unsupported_target)
        on_ledger (debit_ether ext.keccak256 l2_messenger_address m.value)
        on_ledger (credit_ether ext.keccak256 m.target m.value))

  -- The record of the run, and its event.
  unfoldable pub record_relay : Bytes → Status → Bool → Act (World A) (Unit {0})
  record_relay hash status is_failure = do
    on_ledger (set_message_status hash status)
    emit_log ext l2_messenger_address (relayed_message_log ext hash is_failure)

  -- The body of the `try`.
  unfoldable pub run_relay :
      CrossDomainMessage → CrossDomainConfig → Bytes → Act (World A) (Unit {0})
  unfolding relay_dispatch record_relay
  run_relay m cd hash = do relay_dispatch m cd; record_relay hash successful false

  -- The `catch`: the run is taken back, and the failure recorded.
  unfoldable pub conclude_relay : Bytes → ℕ → Result (Unit {0}) → Act (World A) AdvanceOutcome
  unfolding record_relay
  conclude_relay hash here (ok _) = pure accept
  conclude_relay hash here (err e) = do
    on_ledger (do rollback_to here; after_rollback ext.keccak256)
    record_relay hash failed true
    pure accept

  unfoldable pub deliver :
      CrossDomainMessage → CrossDomainConfig → Bytes → Act (World A) AdvanceOutcome
  unfolding run_relay conclude_relay attempt
  deliver m cd hash = do
    here ← gets (λ w. mark w.ledger)
    r ← attempt (run_relay m cd hash)
    conclude_relay hash here r

  unfoldable pub relay :
      TxContext → CrossDomainConfig → CrossDomainMessage → Act (World A) AdvanceOutcome
  unfolding deliver relay_refusal
  relay ctx cd m =
      if not ((decode_versioned_nonce m.nonce).1 == message_version)
      then revert_with ext "only version 1 messages are supported"
      else (let hash = hash_cross_domain_message ext m in
          do
            status ← gets (λ w. message_status hash w.ledger)
            if_some (relay_refusal ctx cd m status) (revert_with ext) (deliver m cd hash))

  unfoldable pub messenger_call :
      TxContext → CrossDomainConfig → MessengerCall → Act (World A) AdvanceOutcome
  unfolding relay
  messenger_call ctx cd (relay_message m) = relay ctx cd m
  messenger_call ctx cd (messenger_view_call v) = revert_with ext "unknown function"

  -- `Messenger.advance`
  unfoldable pub messenger_advance : TxContext → Act (World A) AdvanceOutcome
  unfolding messenger_call
  messenger_advance ctx = do
    cross ← gets (λ w. w.ledger.ram.cross_domain_config)
    if_some cross
        (λ cd.
          if_some (ext.decode_messenger ctx.payload) (messenger_call ctx cd)
            (revert_with ext "unknown function"))
        (revert_with ext "no messenger registered")
