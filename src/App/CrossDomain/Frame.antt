-- ===== src/App/CrossDomain/Frame.antt =====
-- The standard messaging pair and the journal (app/src/handlers/messenger.ts and l2bridge.ts).
use op_cartesi.Ledger.Operations.{message_status, set_message_status, after_rollback}
use op_cartesi.Base.{
  pure, ◌>>=◌, ℕ, ◌≡◌, sym, ◌≢◌, inl, inr, Bool, true, false, Option, none, some, continue_with,
  ◌>>◌, Result, ok, err,
}
use op_cartesi.Base.Frame.{Keeps-pure, after, Keeps}
use op_cartesi.Bytes.{Bytes}
use op_cartesi.Evm.Types.{TxContext, AdvanceOutcome, accept, CrossDomainMessage}
use op_cartesi.Evm.External.{
  MessengerCall, relay_message, messenger_view_call, BridgeOrder, StandardBridgeCall, bridge_erc20,
  bridge_erc20_to, finalize_erc20, finalize_ether, External,
}
use op_cartesi.Ledger.Types.{Status, successful, failed, CrossDomainConfig, ResolvedFacade, Ram}
use op_cartesi.Ledger.Journal.{mark, rollback_to}
use op_cartesi.Ledger.Operations.Frame.{set_message_status-OnLedger, next_message_nonce-Keeps}
use op_cartesi.Ledger.Operations.Rollback.{rolled_back-ram, rolled_back-OnLedger}
use op_cartesi.App.World.{on_ledger, emit, emit_log, World}
use op_cartesi.Ledger.Operations.Statuses.{StatusOrder-successful, StatusOrder-failed, StatusOrder}
use op_cartesi.App.CrossDomain.Messenger.Admission.{Admitted, relay-cases}
use mathlib.Core.Path.{subst}
use op_cartesi.App.World.Frame.{OnWorld-preorder, OnWorld}
use op_cartesi.App.Handlers.Frame.{handler_rules, funds_or_revert-Keeps, token_id_of-Keeps}
use op_cartesi.App.CrossDomain.{send_cross_domain_message}
use op_cartesi.App.CrossDomain.Bridge.{
  announce, initiate_token, initiate, standard_bridge_call, standard_bridge_advance,
  finalize_erc20_transfer, finalize_ether_transfer, finalize_call, finalize_from_messenger,
}
use op_cartesi.App.CrossDomain.Messenger.{
  relay_dispatch, record_relay, run_relay, conclude_relay, deliver, relay, messenger_call,
  messenger_advance,
}

Admitted-not_successful :
    (ctx : TxContext) (cd : CrossDomainConfig) (m : CrossDomainMessage) (s : Option Status)
    → Admitted ctx cd m s
    → s ≢ some successful
unfolding Admitted
Admitted-not_successful ctx cd m none a = λ h. absurd cc
Admitted-not_successful ctx cd m (some failed) a = λ h. absurd cc
Admitted-not_successful ctx cd m (some successful) a = absurd a

module _ {A : Type 0} (ext : External) where
  send_cross_domain_message-Keeps :
      (cd : CrossDomainConfig) (sender target message : Bytes) (min_gas_limit value : ℕ)
      → Keeps
          (OnWorld {A = A})
          (send_cross_domain_message ext cd sender target message min_gas_limit value)
  unfolding send_cross_domain_message
  send_cross_domain_message-Keeps cd sender target message min_gas_limit value =
      search (handler_rules, next_message_nonce-Keeps) depth 14

  ruleset bridge_rules = (handler_rules, send_cross_domain_message-Keeps, funds_or_revert-Keeps)

  announce-Keeps :
      (ctx : TxContext) (cd : CrossDomainConfig) (a : BridgeOrder)
      → Keeps (OnWorld {A = A}) (announce ext ctx cd a)
  unfolding announce
  announce-Keeps ctx cd a = search bridge_rules depth 14

  initiate_token-Keeps :
      (ctx : TxContext) (cd : CrossDomainConfig) (a : BridgeOrder) (t : ResolvedFacade)
      → Keeps (OnWorld {A = A}) (initiate_token ext ctx cd a t)
  unfolding initiate_token
  initiate_token-Keeps ctx cd a t = search (bridge_rules, announce-Keeps) depth 10

  initiate-Keeps :
      (ctx : TxContext) (cd : CrossDomainConfig) (a : BridgeOrder)
      → Keeps (OnWorld {A = A}) (initiate ext ctx cd a)
  unfolding initiate
  initiate-Keeps ctx cd a = search (handler_rules, initiate_token-Keeps) depth 10

  standard_bridge_call-Keeps :
      (ctx : TxContext) (cd : CrossDomainConfig) (call : StandardBridgeCall)
      → Keeps (OnWorld {A = A}) (standard_bridge_call ext ctx cd call)
  unfolding standard_bridge_call
  standard_bridge_call-Keeps ctx cd (bridge_erc20 l r amount gas extra) = initiate-Keeps ctx cd _
  standard_bridge_call-Keeps ctx cd (bridge_erc20_to a) = initiate-Keeps ctx cd a
  standard_bridge_call-Keeps ctx cd (finalize_erc20 t) = search handler_rules
  standard_bridge_call-Keeps ctx cd (finalize_ether from to amount extra) = search handler_rules

  pub standard_bridge_advance-Keeps :
      (ctx : TxContext) → Keeps (OnWorld {A = A}) (standard_bridge_advance ext ctx)
  unfolding standard_bridge_advance
  standard_bridge_advance-Keeps ctx = search (handler_rules, standard_bridge_call-Keeps) depth 10

  finalize_call-Keeps :
      (m : CrossDomainMessage) (call : StandardBridgeCall)
      → Keeps (OnWorld {A = A}) (finalize_call ext m call)
  unfolding finalize_call finalize_erc20_transfer finalize_ether_transfer
  finalize_call-Keeps m (finalize_erc20 t) = search (handler_rules, token_id_of-Keeps) depth 16
  finalize_call-Keeps m (finalize_ether from to amount extra) = search handler_rules depth 14
  finalize_call-Keeps m (bridge_erc20 l r amount gas extra) = search handler_rules
  finalize_call-Keeps m (bridge_erc20_to a) = search handler_rules

  finalize_from_messenger-Keeps :
      (m : CrossDomainMessage) (cd : CrossDomainConfig)
      → Keeps (OnWorld {A = A}) (finalize_from_messenger ext m cd)
  unfolding finalize_from_messenger
  finalize_from_messenger-Keeps m cd = search (handler_rules, finalize_call-Keeps) depth 10

  relay_dispatch-Keeps :
      (m : CrossDomainMessage) (cd : CrossDomainConfig)
      → Keeps (OnWorld {A = A}) (relay_dispatch ext m cd)
  unfolding relay_dispatch
  relay_dispatch-Keeps m cd = search (handler_rules, finalize_from_messenger-Keeps) depth 12

  -- The record of a status that moves on.
  record_relay-OnWorld :
      (hash : Bytes) (status : Status) (is_failure : Bool) (w : World A)
      → StatusOrder (message_status hash w.ledger) (some status)
      → OnWorld w (record_relay ext hash status is_failure w).1
  unfolding record_relay on_ledger emit_log emit set_message_status message_status ◌>>=◌
  record_relay-OnWorld hash status is_failure w moves = record {
    ledgers = set_message_status-OnLedger hash status w.ledger moves;
  }

  recorded-Keeps : (hash : Bytes) → Keeps (OnWorld {A = A}) (record_relay ext hash successful false)
  recorded-Keeps hash = record {
    related = λ w.
        record_relay-OnWorld hash successful false w
          (StatusOrder-successful (message_status hash w.ledger));
  }

  pub run_relay-Keeps :
      (m : CrossDomainMessage) (cd : CrossDomainConfig) (hash : Bytes)
      → Keeps (OnWorld {A = A}) (run_relay ext m cd hash)
  unfolding run_relay
  run_relay-Keeps m cd hash = search (handler_rules, relay_dispatch-Keeps, recorded-Keeps)

  -- The failure, recorded on a ledger with the statuses of the one from before the run.
  failure-OnWorld :
      (hash : Bytes) (w : World A) (p : Result (Unit {0}) × World A)
      → message_status hash w.ledger ≢ some successful
      → p.1.ledger.ram ≡ w.ledger.ram
      → OnWorld w p.1
      → OnWorld w (continue_with p (λ _. do record_relay ext hash failed true; pure accept)).1
  unfolding message_status pure ◌>>=◌
  failure-OnWorld hash w (ok u, v) fresh same h = OnWorld-preorder.chain w v _ h (
      after (OnWorld-preorder {A = A}) v (record_relay ext hash failed true v) (λ _. pure accept)
        (record_relay-OnWorld hash failed true v (
          StatusOrder-failed (message_status hash v.ledger)
            (subst (λ (ram : Ram). ram.messages hash ≢ some successful) (sym same) fresh)))
        λ _. Keeps-pure OnWorld-preorder accept)
  failure-OnWorld hash w (err e, v) fresh same h = h

  -- What follows the run, by the run's own result.
  conclude_relay-OnWorld :
      (hash : Bytes) (r : Result (Unit {0})) (w v : World A)
      → message_status hash w.ledger ≢ some successful
      → OnWorld w v
      → OnWorld w (conclude_relay ext hash (mark w.ledger) r v).1
  unfolding conclude_relay on_ledger ◌>>=◌
  conclude_relay-OnWorld hash (ok u) w v fresh h = h
  conclude_relay-OnWorld hash (err e) w v fresh h =
      failure-OnWorld hash w
        (on_ledger (do rollback_to (mark w.ledger); after_rollback ext.keccak256) v) fresh
        (rolled_back-ram ext.keccak256 w.ledger v.ledger h.ledgers)
        (record { ledgers = rolled_back-OnLedger ext.keccak256 w.ledger v.ledger h.ledgers })

  deliver-OnWorld :
      (m : CrossDomainMessage) (cd : CrossDomainConfig) (hash : Bytes) (w : World A)
      → message_status hash w.ledger ≢ some successful
      → OnWorld w (deliver ext m cd hash w).1
  unfolding deliver ◌>>=◌
  deliver-OnWorld m cd hash w fresh =
      conclude_relay-OnWorld hash (run_relay ext m cd hash w).0 w _ fresh
        ((run_relay-Keeps m cd hash).related w)

  relay-Keeps :
      (ctx : TxContext) (cd : CrossDomainConfig) (m : CrossDomainMessage)
      → Keeps (OnWorld {A = A}) (relay ext ctx cd m)
  relay-Keeps ctx cd m = record {
    related = λ w. elim (relay-cases ext ctx cd m w) [
      | inl ((_, admitted), e) ↦
          subst (λ (p : Result AdvanceOutcome × World A). OnWorld w p.1) (sym e)
            (deliver-OnWorld m cd _ w (Admitted-not_successful ctx cd m _ admitted))
      | inr (_, (message, e)) ↦
          subst (λ (p : Result AdvanceOutcome × World A). OnWorld w p.1) (sym e)
            (OnWorld-preorder.here w)
    ];
  }

  messenger_call-Keeps :
      (ctx : TxContext) (cd : CrossDomainConfig) (call : MessengerCall)
      → Keeps (OnWorld {A = A}) (messenger_call ext ctx cd call)
  unfolding messenger_call
  messenger_call-Keeps ctx cd (relay_message m) = relay-Keeps ctx cd m
  messenger_call-Keeps ctx cd (messenger_view_call v) = search handler_rules

  pub messenger_advance-Keeps :
      (ctx : TxContext) → Keeps (OnWorld {A = A}) (messenger_advance ext ctx)
  unfolding messenger_advance
  messenger_advance-Keeps ctx = search (handler_rules, messenger_call-Keeps) depth 10
