-- ===== src/App/CrossDomain.antt =====
-- The standard messaging pair (app/src/handlers/messenger.ts and l2bridge.ts), and here
-- `sendCrossDomainMessage`: the message under a fresh nonce, as a withdrawal with its events.
pub mod Bridge
pub mod Messenger
pub mod View
pub mod Quiet
pub mod Frame
use op_cartesi.Evm.Nonces.{encode_versioned_nonce, base_gas}
use op_cartesi.Evm.Addresses.{l2_messenger_address}
use op_cartesi.Evm.CrossDomain.{encode_relay_message, sent_message_log, sent_message_extension_log}
use op_cartesi.Base.{◌>>=◌, ℕ, some, length, Act, ◌>>◌}
use op_cartesi.Bytes.{Bytes}
use op_cartesi.Evm.Types.{CrossDomainMessage}
use op_cartesi.Evm.External.{External}
use op_cartesi.Ledger.Types.{CrossDomainConfig}
use op_cartesi.Ledger.Operations.{next_message_nonce}
use op_cartesi.App.World.{on_ledger, emit_log, emit_withdrawal, World}

-- `MESSAGE_VERSION`
abbrev pub message_version : ℕ
message_version = 1

module _ {A : Type 0} (ext : External) where
  unfoldable pub send_cross_domain_message :
      CrossDomainConfig → Bytes → Bytes → Bytes → ℕ → ℕ → Act (World A) (Unit {0})
  send_cross_domain_message cd sender target message min_gas_limit value = do
    ordinal ← on_ledger next_message_nonce
    let m : CrossDomainMessage = record {
      nonce = encode_versioned_nonce ordinal message_version;
      sender = sender;
      target = target;
      value = value;
      min_gas_limit = min_gas_limit;
      message = message;
    }
    let gas_limit = base_gas (length message) min_gas_limit
    emit_withdrawal ext l2_messenger_address cd.l1_messenger value (some gas_limit)
        (encode_relay_message ext m)
    emit_log ext l2_messenger_address (sent_message_log ext m gas_limit)
    emit_log ext l2_messenger_address (sent_message_extension_log ext sender value)
