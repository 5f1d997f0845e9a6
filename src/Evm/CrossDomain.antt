-- ===== src/Evm/CrossDomain.antt =====
-- Cross-domain messages and their events (evm-compat/js/src/crossdomain.ts).
use op_cartesi.Base.{ℕ, Bool, true, false, [], ◌∷◌, ◌++◌}
use op_cartesi.Bytes.{Bytes}
use op_cartesi.Evm.Types.{CrossDomainMessage}
use op_cartesi.Evm.External.{uint, address, bytes, BridgeTransfer, External}
use op_cartesi.Evm.Encoding.{pad_address, to_word, topic_of, Log}
use Prim.Native.String.{String}

module _ (ext : External) where
  -- `encodeRelayMessage`
  unfoldable pub encode_relay_message : CrossDomainMessage → Bytes
  encode_relay_message m =
      ext.to_function_selector "relayMessage(uint256,address,address,uint256,uint256,bytes)"
      ++ ext.encode_abi_parameters (
          uint m.nonce
          ∷ address m.sender
          ∷ address m.target
          ∷ uint m.value
          ∷ uint m.min_gas_limit
          ∷ bytes m.message
          ∷ [])

  -- `hashCrossDomainMessageV1`: the key of the messages' statuses.
  unfoldable pub hash_cross_domain_message : CrossDomainMessage → Bytes
  unfolding encode_relay_message
  hash_cross_domain_message m = ext.keccak256 (encode_relay_message m)

  -- `sentMessageLog`, of which `gas_limit` is the base gas.
  unfoldable pub sent_message_log : CrossDomainMessage → ℕ → Log
  sent_message_log m gas_limit = record {
    topics =
        topic_of ext "SentMessage(address,address,bytes,uint256,uint256)"
        ∷ pad_address m.target
        ∷ [];
    log_bytes =
        ext.encode_abi_parameters
          (address m.sender ∷ bytes m.message ∷ uint m.nonce ∷ uint gas_limit ∷ []);
  }

  -- `sentMessageExtension1Log`
  unfoldable pub sent_message_extension_log : Bytes → ℕ → Log
  sent_message_extension_log sender value = record {
    topics = topic_of ext "SentMessageExtension1(address,uint256)" ∷ pad_address sender ∷ [];
    log_bytes = to_word value;
  }

  abbrev relayed_event : Bool → String
  relayed_event true = "FailedRelayedMessage(bytes32)"
  relayed_event false = "RelayedMessage(bytes32)"

  -- `relayedMessageLog`
  unfoldable pub relayed_message_log : Bytes → Bool → Log
  relayed_message_log hash failed = record {
    topics = topic_of ext (relayed_event failed) ∷ hash ∷ [];
    log_bytes = [];
  }

  -- `erc20BridgeLog`, by the event's signature.
  unfoldable pub erc20_bridge_log : String → BridgeTransfer → Log
  erc20_bridge_log event e = record {
    topics =
        topic_of ext event
        ∷ pad_address e.local_token
        ∷ pad_address e.remote_token
        ∷ pad_address e.from
        ∷ [];
    log_bytes = ext.encode_abi_parameters (address e.to ∷ uint e.amount ∷ bytes e.extra ∷ []);
  }
