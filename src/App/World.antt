-- ===== src/App/World.antt =====
-- What a handler works on: the ledger, the sink that buffers its outputs (app/src/router.ts,
-- `BufferSink`), and the state `A` that the handlers keep in plain RAM.
pub mod Frame
use op_cartesi.Base.{
  gets, reads, ◌>>=◌, ℕ, ◌+◌, Bool, Option, none, some, List, [], ◌∷◌, ◌++◌, Act, ◌>>◌,
  too_many_withdrawals, Failure, error, Result, ok, err,
}
use op_cartesi.Bytes.{Bytes}
use op_cartesi.Evm.Types.{
  tag_app, withdrawal_default_gas_limit, TxContext, CallContext, AdvanceOutcome, ViewOutcome,
  Emission, notice, voucher, report, WithdrawalMessage,
}
use op_cartesi.Evm.External.{External}
use op_cartesi.Evm.Encoding.{
  encode_evm_log, encode_withdrawal, withdrawal_hash, message_passed_log, Log,
}
use op_cartesi.Evm.Nonces.{versioned_withdrawal_nonce}
use op_cartesi.Evm.Addresses.{message_passer_address}
use op_cartesi.Ledger.Types.{Ledger}

pub record Sink : Type 0 where
  pub input_index : ℕ
  pub emissions : List Emission
  pub withdrawals : ℕ

pub record World (A : Type 0) : Type 0 where
  pub ledger : Ledger
  pub sink : Sink
  pub app : A

abbrev some_or_throw : {B : Type 0} → Option B → Failure → Result B
some_or_throw none e = err e
some_or_throw (some b) e = ok b

module _ {A : Type 0} where
  unfoldable pub on_ledger : {B : Type 0} → Act Ledger B → Act (World A) B
  on_ledger m w = let (r, l) = m w.ledger in (r, record w { ledger = l })

  -- `try { m } catch (e)`: what was written before a throw stays.
  unfoldable pub attempt : {B : Type 0} → Act (World A) B → Act (World A) (Result B)
  attempt m w = (ok (m w).0, (m w).1)

  -- `emissions.push(e)`
  unfoldable pub emit : Emission → Act (World A) (Unit {0})
  emit e w = (ok tt, record w { sink = record (w.sink) { emissions = w.sink.emissions ++ e ∷ [] } })

  unfoldable pub emit_voucher : Bytes → ℕ → Bytes → Act (World A) (Unit {0})
  unfolding emit
  emit_voucher destination value payload = emit (voucher destination value payload)

  unfoldable pub emit_report : Bytes → Act (World A) (Unit {0})
  unfolding emit
  emit_report payload = emit (report (tag_app ∷ payload))

  unfoldable pub next_withdrawal : Act (World A) ℕ
  next_withdrawal w = (
    ok w.sink.withdrawals,
    record w { sink = record (w.sink) { withdrawals = w.sink.withdrawals + 1 } },
  )

  module _ (ext : External) where
    unfoldable pub emit_log : Bytes → Log → Act (World A) (Unit {0})
    unfolding emit encode_evm_log
    emit_log emitter l = emit (notice (encode_evm_log ext emitter l.topics l.log_bytes))

    -- `withdrawal`, with the defaults that the caller's message leaves out filled in.
    unfoldable pub emit_withdrawal : Bytes → Bytes → ℕ → Option ℕ → Bytes → Act (World A) (Unit {0})
    unfolding emit emit_log next_withdrawal
    emit_withdrawal sender target value gas_limit payload = do
      ordinal ← next_withdrawal
      index ← gets (λ w. w.sink.input_index)
      nonce ← reads (λ w.
          some_or_throw (versioned_withdrawal_nonce index ordinal) (error too_many_withdrawals))
      let message : WithdrawalMessage = record {
        nonce = nonce;
        sender = sender;
        target = target;
        value = value;
        gas_limit = elim gas_limit [ none ↦ withdrawal_default_gas_limit | some g ↦ g ];
        payload = payload;
      }
      emit (notice (encode_withdrawal ext message))
      emit_log message_passer_address (message_passed_log ext message (withdrawal_hash ext message))

-- A handler: native guest code at an address. Either entry may be missing. A view is handed the ledger
-- itself, as in the source: that it only reads is up to the handler.
pub record Handler (A : Type 0) : Type 0 where
  pub payable : Bool
  pub advance : Option (TxContext → Act (World A) AdvanceOutcome)
  pub view : Option (CallContext → Act (World A) ViewOutcome)
