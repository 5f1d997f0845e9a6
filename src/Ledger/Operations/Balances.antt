-- ===== src/Ledger/Operations/Balances.antt =====
-- What the operations on ether leave in an account (app/src/ledger.ts, `creditEther`, `debitEther`
-- and `bumpNonceAndCharge`).
use mathlib.Core.Path.{subst}
use op_cartesi.Base.{
  pure, ◌>>=◌, ℕ, zero, suc, ◌+◌, ◌-◌, ◌^◌, ◌≤◌, ◌<◌, ◌≡◌, refl, sym, ap, ◌∙◌, false, Option, none,
  some, arith, ◌==◌, le→ltb_false, length, Result, ok,
}
use op_cartesi.Bytes.{Bytes, is_zero}
use op_cartesi.Drive.Types.{raw, Account}
use op_cartesi.Drive.Accounts.{get_account}
use op_cartesi.Drive.Accounts.Codec.{record_size, nonce_bytes, balance_bytes}
use op_cartesi.Drive.Accounts.ReadBack.{set_account-get_account}
use op_cartesi.Drive.Table.{accounts_table}
use op_cartesi.Drive.Table.Slots.{FitsIn}
use op_cartesi.Ledger.Types.{Ledger}
use op_cartesi.Ledger.Journal.{journaled_store}
use op_cartesi.Ledger.Journal.Laws.{journaled_store-IsByteStore}
use op_cartesi.Ledger.Operations.{
  on_drive, account, put_account, credit_ether, debit_ether, bump_nonce_and_charge,
}
use op_cartesi.Ledger.Operations.Funds.{account_read, bump_nonce_and_charge_lem}

-- The drive has a table in its store, and in it an account for the address.
pub record IsHolding (keccak256 : Bytes → Bytes) (addr : Bytes) (l : Ledger) (a : Account)
    : Type 0 where
  pub table_fits : FitsIn journaled_store-IsByteStore (accounts_table l.drive.cfg) l.drive.store
  pub slot_room : record_size l.drive.cfg ≤ l.drive.cfg.slot_size
  pub address_length : length addr ≡ 20
  pub address_nonzero : is_zero addr ≡ false
  pub account_there : (get_account journaled_store keccak256 (raw addr) l.drive).0 ≡ ok (some a)

module _ (keccak256 : Bytes → Bytes) where
  abbrev pair_of : Option Account → ℕ × ℕ
  pair_of o = elim o [ none ↦ (0, 0) | some r ↦ (r.nonce, r.balance) ]

  pub account_of_drive :
      (addr : Bytes) (l : Ledger) (r : Account)
      → (get_account journaled_store keccak256 (raw addr) l.drive).0 ≡ ok (some r)
      → (account keccak256 addr l).0 ≡ ok (r.nonce, r.balance)
  unfolding account on_drive pure ◌>>=◌
  account_of_drive addr l r e = rw e refl

  -- An account that is put reads back.
  put_account-account :
      (addr : Bytes) (nonce balance : ℕ) (a : Account) (l : Ledger)
      → IsHolding keccak256 addr l a
      → nonce < 256 ^ nonce_bytes l.drive.cfg
      → balance < 256 ^ balance_bytes l.drive.cfg
      → ((put_account keccak256 addr nonce balance l).0 ≡ ok tt)
        × ((account keccak256 addr (put_account keccak256 addr nonce balance l).1).0
            ≡ ok (nonce, balance))
  unfolding put_account on_drive
  put_account-account addr nonce balance a l holding small_nonce small_balance =
      let (fine, back) =
        set_account-get_account journaled_store-IsByteStore keccak256 addr nonce balance a l.drive
          holding.table_fits holding.slot_room holding.address_length holding.address_nonzero
          small_nonce small_balance holding.account_there in
      (
        fine,
        account_of_drive addr _ (record { address = addr; nonce = nonce; balance = balance }) back,
      )

  held :
      (addr : Bytes) (a : Account) (l : Ledger)
      → IsHolding keccak256 addr l a
      → account keccak256 addr l ≡ (ok (a.nonce, a.balance), l)
  held addr a l holding =
      account_read keccak256 addr a.nonce a.balance l
        (account_of_drive addr l a holding.account_there)

  -- The run of an operation on ether, when it is the writing of an account.
  put-account :
      (addr : Bytes) (nonce balance : ℕ) (a : Account) (l : Ledger) (p : Result (Unit {0}) × Ledger)
      → p ≡ put_account keccak256 addr nonce balance l
      → IsHolding keccak256 addr l a
      → nonce < 256 ^ nonce_bytes l.drive.cfg
      → balance < 256 ^ balance_bytes l.drive.cfg
      → (p.0 ≡ ok tt) × ((account keccak256 addr p.1).0 ≡ ok (nonce, balance))
  put-account addr nonce balance a l p e holding small_nonce small_balance =
      subst
        (λ (q : Result (Unit {0}) × Ledger).
          (q.0 ≡ ok tt) × ((account keccak256 addr q.1).0 ≡ ok (nonce, balance)))
        (sym e) (put_account-account addr nonce balance a l holding small_nonce small_balance)

  pub credit_put :
      (addr : Bytes) (amount : ℕ) (a : Account) (l : Ledger)
      → IsHolding keccak256 addr l a
      → (amount == 0) ≡ false
      → credit_ether keccak256 addr amount l
        ≡ put_account keccak256 addr a.nonce (a.balance + amount) l
  unfolding credit_ether ◌>>=◌
  credit_put addr amount a l holding z = rw z (rw (held addr a l holding) refl)

  credit_nothing : (addr : Bytes) (l : Ledger) → credit_ether keccak256 addr 0 l ≡ (ok tt, l)
  unfolding credit_ether pure
  credit_nothing addr l = refl

  -- In a ledger whose table lies inside its store and holds an account of the address, a credit
  -- that the balance's field has room for succeeds, and the account then reads with the same
  -- nonce and the balance grown by the amount.
  pub credit_ether-account :
      (addr : Bytes) (amount : ℕ) (a : Account) (l : Ledger)
      → IsHolding keccak256 addr l a
      → a.nonce < 256 ^ nonce_bytes l.drive.cfg
      → a.balance + amount < 256 ^ balance_bytes l.drive.cfg
      → ((credit_ether keccak256 addr amount l).0 ≡ ok tt)
        × ((account keccak256 addr (credit_ether keccak256 addr amount l).1).0
            ≡ ok (a.nonce, a.balance + amount))
  credit_ether-account addr zero a l holding small_nonce small_balance =
      let same : a.balance ≡ a.balance + 0 = omega arith in
      (
        ap (λ (p : Result (Unit {0}) × Ledger). p.0) (credit_nothing addr l),
        ap (λ (p : Result (Unit {0}) × Ledger). (account keccak256 addr p.1).0)
              (credit_nothing addr l)
            ∙ account_of_drive addr l a holding.account_there
            ∙ ap (λ (b : ℕ). ok (a.nonce, b)) same,
      )
  credit_ether-account addr (suc n) a l holding small_nonce small_balance =
      put-account addr a.nonce (a.balance + suc n) a l _
        (credit_put addr (suc n) a l holding (ground arith)) holding small_nonce small_balance

  pub debit_put :
      (addr : Bytes) (amount : ℕ) (a : Account) (l : Ledger)
      → IsHolding keccak256 addr l a
      → (amount == 0) ≡ false
      → amount ≤ a.balance
      → debit_ether keccak256 addr amount l
        ≡ put_account keccak256 addr a.nonce (a.balance - amount) l
  unfolding debit_ether ◌>>=◌
  debit_put addr amount a l holding z covered =
      rw z (rw (held addr a l holding) (rw (le→ltb_false amount a.balance covered) refl))

  debit_nothing : (addr : Bytes) (l : Ledger) → debit_ether keccak256 addr 0 l ≡ (ok tt, l)
  unfolding debit_ether pure
  debit_nothing addr l = refl

  -- In a ledger whose table lies inside its store and holds an account of the address, a debit
  -- that the balance covers succeeds, and the account then reads with the same nonce and the
  -- balance less the amount.
  pub debit_ether-account :
      (addr : Bytes) (amount : ℕ) (a : Account) (l : Ledger)
      → IsHolding keccak256 addr l a
      → amount ≤ a.balance
      → a.nonce < 256 ^ nonce_bytes l.drive.cfg
      → a.balance < 256 ^ balance_bytes l.drive.cfg
      → ((debit_ether keccak256 addr amount l).0 ≡ ok tt)
        × ((account keccak256 addr (debit_ether keccak256 addr amount l).1).0
            ≡ ok (a.nonce, a.balance - amount))
  debit_ether-account addr zero a l holding covered small_nonce small_balance =
      let same : a.balance ≡ a.balance - 0 = omega arith in
      (
        ap (λ (p : Result (Unit {0}) × Ledger). p.0) (debit_nothing addr l),
        ap (λ (p : Result (Unit {0}) × Ledger). (account keccak256 addr p.1).0)
              (debit_nothing addr l)
            ∙ account_of_drive addr l a holding.account_there
            ∙ ap (λ (b : ℕ). ok (a.nonce, b)) same,
      )
  debit_ether-account addr (suc n) a l holding covered small_nonce small_balance =
      put-account addr a.nonce (a.balance - suc n) a l _
        (debit_put addr (suc n) a l holding (ground arith) covered) holding small_nonce
        (omega (arith, small_balance))

  -- In a ledger whose table lies inside its store and holds an account of the address, a charge
  -- that the balance covers succeeds while the next nonce fits its field, and the account then
  -- reads with the next nonce and the balance less the fee.
  pub bump_nonce_and_charge-account :
      (addr : Bytes) (fee : ℕ) (a : Account) (l : Ledger)
      → IsHolding keccak256 addr l a
      → fee ≤ a.balance
      → a.nonce + 1 < 256 ^ nonce_bytes l.drive.cfg
      → a.balance < 256 ^ balance_bytes l.drive.cfg
      → ((bump_nonce_and_charge keccak256 addr fee l).0 ≡ ok tt)
        × ((account keccak256 addr (bump_nonce_and_charge keccak256 addr fee l).1).0
            ≡ ok (a.nonce + 1, a.balance - fee))
  bump_nonce_and_charge-account addr fee a l holding covered small_nonce small_balance =
      put-account addr (a.nonce + 1) (a.balance - fee) a l _
        (bump_nonce_and_charge_lem keccak256 addr fee a.nonce a.balance l
          (account_of_drive addr l a holding.account_there) covered)
        holding small_nonce (omega (arith, small_balance))
