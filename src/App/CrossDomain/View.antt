-- ===== src/App/CrossDomain/View.antt =====
-- The messenger's views (app/src/handlers/messenger.ts, `view`).
use op_cartesi.Base.{Bool, true, false, Option, none, some, Result, ok}
use op_cartesi.Evm.Types.{CallContext, text, ViewOutcome}
use op_cartesi.Evm.Nonces.{encode_versioned_nonce}
use op_cartesi.Evm.External.{
  ViewValue, natural, truth, MessengerView, message_nonce_view, successful_messages,
  failed_messages, MessengerCall, relay_message, messenger_view_call, External,
}
use op_cartesi.Ledger.Types.{Status, successful, failed, Ledger}
use op_cartesi.Ledger.Operations.{peek_message_nonce, message_status}
use op_cartesi.App.World.{World}
use op_cartesi.App.FacadeView.{encoded_value, refused_view}
use op_cartesi.App.CrossDomain.{message_version}

abbrev pub was_successful : Option Status → Bool
was_successful none = false
was_successful (some successful) = true
was_successful (some failed) = false

abbrev pub has_failed : Option Status → Bool
has_failed none = false
has_failed (some successful) = false
has_failed (some failed) = true

unfoldable pub messenger_value : MessengerView → Ledger → ViewValue
messenger_value message_nonce_view l =
    natural (encode_versioned_nonce (peek_message_nonce l) message_version)
messenger_value (successful_messages hash) l = truth (was_successful (message_status hash l))
messenger_value (failed_messages hash) l = truth (has_failed (message_status hash l))

module _ (ext : External) where
  unfoldable pub messenger_query : MessengerCall → Ledger → Result ViewOutcome
  unfolding messenger_value encoded_value
  messenger_query (messenger_view_call v) l = encoded_value ext (ok (messenger_value v l))
  messenger_query (relay_message m) l = refused_view ext (text "is not a view")

  -- `Messenger.view`
  unfoldable pub messenger_view : {A : Type 0} → CallContext → World A → Result ViewOutcome
  unfolding messenger_query
  messenger_view call w = elim (ext.decode_messenger call.payload) [
    | none ↦ refused_view ext (text "unknown function")
    | some c ↦ messenger_query c w.ledger
  ]
