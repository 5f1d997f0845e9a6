-- ===== src/App/World/Frame.antt =====
-- Journaled work on a world: the outputs and the handlers' own state stand outside the journal.
use op_cartesi.Base.{ℕ, Option, Act}
use op_cartesi.Base.Frame.{keeps_rules, IsPreorder, Keeps}
use op_cartesi.Bytes.{Bytes}
use op_cartesi.Evm.Types.{Emission}
use op_cartesi.Evm.External.{External}
use op_cartesi.Evm.Encoding.{Log}
use op_cartesi.Ledger.Types.{Ledger}
use op_cartesi.Ledger.Operations.Frame.{OnLedger-preorder, OnLedger}
use op_cartesi.App.World.{
  on_ledger, attempt, emit, emit_voucher, next_withdrawal, emit_log, emit_withdrawal, World,
}

pub record OnWorld {A : Type 0} (w v : World A) : Type 0 where
  pub ledgers : OnLedger w.ledger v.ledger

pub OnWorld-preorder : {A : Type 0} → IsPreorder (OnWorld {A = A})
OnWorld-preorder = record {
  here = λ w. record { ledgers = OnLedger-preorder.here w.ledger };
  chain = λ u v w h k. record {
    ledgers = OnLedger-preorder.chain u.ledger v.ledger w.ledger h.ledgers k.ledgers;
  };
}

module _ {A : Type 0} where
  pub on_ledger-Keeps :
      {B : Type 0} (m : Act Ledger B) → Keeps OnLedger m → Keeps (OnWorld {A = A}) (on_ledger m)
  unfolding on_ledger
  on_ledger-Keeps m h = record { related = λ w. record { ledgers = h.related w.ledger } }

  pub attempt-Keeps :
      {B : Type 0} (m : Act (World A) B) → Keeps OnWorld m → Keeps OnWorld (attempt m)
  unfolding attempt
  attempt-Keeps m h = record { related = h.related }

  pub emit-Keeps : (e : Emission) → Keeps (OnWorld {A = A}) (emit e)
  unfolding emit
  emit-Keeps e = record { related = λ w. record { ledgers = OnLedger-preorder.here w.ledger } }

  next_withdrawal-Keeps : Keeps (OnWorld {A = A}) next_withdrawal
  unfolding next_withdrawal
  next_withdrawal-Keeps = record {
    related = λ w. record { ledgers = OnLedger-preorder.here w.ledger };
  }

  pub emit_voucher-Keeps :
      (destination : Bytes) (value : ℕ) (payload : Bytes)
      → Keeps (OnWorld {A = A}) (emit_voucher destination value payload)
  unfolding emit_voucher
  emit_voucher-Keeps destination value payload = emit-Keeps _

  module _ (ext : External) where
    pub emit_log-Keeps :
        (emitter : Bytes) (l : Log) → Keeps (OnWorld {A = A}) (emit_log ext emitter l)
    unfolding emit_log
    emit_log-Keeps emitter l = emit-Keeps _

    pub emit_withdrawal-Keeps :
        (sender target : Bytes) (value : ℕ) (gas_limit : Option ℕ) (payload : Bytes)
        → Keeps (OnWorld {A = A}) (emit_withdrawal ext sender target value gas_limit payload)
    unfolding emit_withdrawal
    emit_withdrawal-Keeps sender target value gas_limit payload =
        search (keeps_rules, OnWorld-preorder, next_withdrawal-Keeps, emit-Keeps, emit_log-Keeps)
          depth 12

pub ruleset world_rules = (
  keeps_rules, OnWorld-preorder, on_ledger-Keeps, emit_voucher-Keeps, emit_log-Keeps,
  emit_withdrawal-Keeps,
)
