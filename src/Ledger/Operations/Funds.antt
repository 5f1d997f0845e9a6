-- ===== src/Ledger/Operations/Funds.antt =====
-- Accounts that can and cannot pay (app/src/ledger.ts, `debitEther` and `bumpNonceAndCharge`).
use op_cartesi.Base.{
  ◌>>=◌, ℕ, ◌+◌, ◌-◌, ◌≤◌, ◌<◌, ◌≡◌, refl, lt→ltb, le→ltb_false, lt→==0_false, ether_funds,
  fee_funds, insufficient, ok, err,
}
use op_cartesi.Bytes.{Bytes}
use op_cartesi.Ledger.Types.{Address, Ledger}
use op_cartesi.Ledger.Operations.{account, put_account, debit_ether, bump_nonce_and_charge}
use op_cartesi.Ledger.Operations.Reads.{account-Same}

module _ (keccak256 : Bytes → Bytes) where
  -- The record that is read, with the ledger as it was.
  pub account_read :
      (addr : Address) (nonce balance : ℕ) (l : Ledger)
      → (account keccak256 addr l).0 ≡ ok (nonce, balance)
      → account keccak256 addr l ≡ (ok (nonce, balance), l)
  account_read addr nonce balance l e i = (e i, ((account-Same keccak256 addr).related l).same i)

  -- When the account is read with a balance below the amount, the debit throws for want of
  -- funds and the ledger is as it was.
  pub debit_ether-insufficient :
      (addr : Address) (amount nonce balance : ℕ) (l : Ledger)
      → (account keccak256 addr l).0 ≡ ok (nonce, balance)
      → balance < amount
      → debit_ether keccak256 addr amount l ≡ (err (insufficient ether_funds), l)
  unfolding debit_ether ◌>>=◌
  debit_ether-insufficient addr amount nonce balance l e lt =
      rw (lt→==0_false balance amount lt)
        (rw (account_read addr nonce balance l e) (rw (lt→ltb balance amount lt) refl))

  pub bump_nonce_and_charge-insufficient :
      (addr : Address) (fee nonce balance : ℕ) (l : Ledger)
      → (account keccak256 addr l).0 ≡ ok (nonce, balance)
      → balance < fee
      → bump_nonce_and_charge keccak256 addr fee l ≡ (err (insufficient fee_funds), l)
  unfolding bump_nonce_and_charge ◌>>=◌
  bump_nonce_and_charge-insufficient addr fee nonce balance l e lt =
      rw (account_read addr nonce balance l e) (rw (lt→ltb balance fee lt) refl)

  -- When the account is read with a balance that covers the fee, the charge is the writing of
  -- the account with the next nonce and the balance less the fee.
  pub bump_nonce_and_charge_lem :
      (addr : Address) (fee nonce balance : ℕ) (l : Ledger)
      → (account keccak256 addr l).0 ≡ ok (nonce, balance)
      → fee ≤ balance
      → bump_nonce_and_charge keccak256 addr fee l
        ≡ put_account keccak256 addr (nonce + 1) (balance - fee) l
  unfolding bump_nonce_and_charge ◌>>=◌
  bump_nonce_and_charge_lem addr fee nonce balance l e le =
      rw (account_read addr nonce balance l e) (rw (le→ltb_false fee balance le) refl)
