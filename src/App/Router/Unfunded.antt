-- ===== src/App/Router/Unfunded.antt =====
-- A deposit that cannot pay for its own value (app/src/router.ts, `advanceDeposit` and `execute`).
use op_cartesi.Ledger.Operations.Frame.{credit_ether-Keeps}
use op_cartesi.Base.{
  pure, gets, reads, if_some, ◌>>=◌, ℕ, ◌+◌, ◌^◌, ◌<◌, ◌≡◌, refl, none, some, [], ether_funds,
  insufficient, ok, err,
}
use op_cartesi.Evm.Types.{BlockContext, TxContext, described}
use op_cartesi.Evm.External.{External}
use op_cartesi.Drive.Types.{Account}
use op_cartesi.Drive.Accounts.Codec.{nonce_bytes, balance_bytes}
use op_cartesi.Ledger.Types.{Address}
use op_cartesi.Ledger.Operations.{account, credit_ether}
use op_cartesi.Ledger.Operations.Funds.{debit_ether-insufficient}
use op_cartesi.Ledger.Operations.Balances.{credit_ether-account, IsHolding}
use op_cartesi.App.World.{on_ledger, attempt, World}
use op_cartesi.App.World.Frame.{OnWorld}
use op_cartesi.App.Parse.{DepositInput}
use op_cartesi.App.Router.{rejection, begin_sink, dispatch, caught, conclude, execute, Router}
use op_cartesi.Ledger.Journal.{mark}
use op_cartesi.App.Router.Input.{deposit_context, finish_deposit, advance_deposit}
use op_cartesi.App.Router.Outcomes.{begun}
use op_cartesi.App.Router.Settle.{rollback_all_restores, IsReady}

module _ {A : Type 0} (ext : External) (router : Router A) where
  -- More than the sender has: the value does not move, and the dispatch throws.
  unpaid :
      (ctx : TxContext) (nonce balance : ℕ) (w : World A)
      → (account ext.keccak256 ctx.sender w.ledger).0 ≡ ok (nonce, balance)
      → balance < ctx.value
      → dispatch ext router ctx w ≡ (err (insufficient ether_funds), w)
  unfolding dispatch on_ledger ◌>>=◌
  unpaid ctx nonce balance w read short =
      rw
        (debit_ether-insufficient ext.keccak256 ctx.sender ctx.value nonce balance w.ledger read
          short)
        refl

  -- Without a sender to charge, that throw takes back all that the input wrote.
  execute-unpaid :
      (ctx : TxContext) (m nonce balance : ℕ) (w v : World A)
      → IsReady ext router w
      → OnWorld w (begun ext router ctx v)
      → (account ext.keccak256 ctx.sender v.ledger).0 ≡ ok (nonce, balance)
      → balance < ctx.value
      → execute ext router ctx m none v ≡ (
        ok (rejection (described (insufficient ether_funds))),
        record (begun ext router ctx v) { ledger = w.ledger },
      )
  unfolding execute begin_sink attempt caught conclude pure ◌>>=◌
  execute-unpaid ctx m nonce balance w v ready led read short =
      rw (unpaid ctx nonce balance (begun ext router ctx v) read short)
        (rw (rollback_all_restores ext router w (begun ext router ctx v) ready led) refl)

  -- From a ledger with an empty journal and right caches that holds an account of the
  -- depositor, with room for the mint, a deposit to an address whose value exceeds the balance
  -- and the mint together is rejected for want of funds, with no emissions, and the ledger is
  -- as it was, the mint taken back.
  pub deposit-unfunded :
      (block : BlockContext) (d : DepositInput) (to : Address) (a : Account) (w : World A)
      → IsReady ext router w
      → IsHolding ext.keccak256 d.from w.ledger a
      → a.nonce < 256 ^ nonce_bytes w.ledger.drive.cfg
      → a.balance + d.mint < 256 ^ balance_bytes w.ledger.drive.cfg
      → d.to ≡ some to
      → a.balance + d.mint < d.value
      → let end = advance_deposit ext router block d w in
        (end.0 ≡ ok (rejection (described (insufficient ether_funds))))
        × (end.1.ledger ≡ w.ledger)
        × (end.1.sink.emissions ≡ [])
  unfolding advance_deposit finish_deposit attempt on_ledger if_some gets ◌>>=◌
  deposit-unfunded block d to a w ready holding small_nonce small_balance target short =
      let k = ext.keccak256 in
      let (fine, reads) =
        credit_ether-account k d.from d.mint a w.ledger holding small_nonce small_balance in
      let v : World A = record w { ledger = (credit_ether k d.from d.mint w.ledger).1 } in
      let ctx = deposit_context ext router block d to in
      let led : OnWorld w (begun ext router ctx v) = record {
        ledgers = (credit_ether-Keeps k d.from d.mint).related w.ledger;
      } in
      rw
        (
          fine,
          target,
          execute-unpaid ctx (mark v.ledger) a.nonce (a.balance + d.mint) w v ready led reads short,
        )
        (refl, refl, refl)
