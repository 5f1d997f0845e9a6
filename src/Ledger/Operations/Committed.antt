-- ===== src/Ledger/Operations/Committed.antt =====
-- A commit changes no account (app/src/ledger.ts, `Journal.commit` and `account`).
use op_cartesi.Base.{
  pure, ◌>>=◌, ℕ, zero, suc, ◌+◌, ◌%◌, ◌≡◌, refl, sym, ap, ◌∙◌, inl, inr, false, Option, none, some,
  [], ◌==◌, Bool-cases, length, continue_with, Result, ok, err,
}
use op_cartesi.Bytes.{Bytes, is_zero}
use op_cartesi.Drive.Types.{raw, Account, Drive}
use op_cartesi.Drive.Table.{accounts_table, home, read_slot, lookup_from, lookup, Table}
use op_cartesi.Drive.Table.Found.{read_round}
use op_cartesi.Drive.Table.Contents.{record_of}
use op_cartesi.Drive.Accounts.{get_account}
use op_cartesi.Drive.Accounts.Created.{account_in, get_account-account_in}
use op_cartesi.Ledger.Types.{Journaled, Ledger}
use op_cartesi.Ledger.Journal.{journaled_store, commit}
use op_cartesi.Ledger.Journal.Laws.{journaled_store-IsByteStore}
use op_cartesi.Ledger.Operations.{on_drive, account}

module _ (keccak256 : Bytes → Bytes) where
  abbrev emptied : Journaled → Journaled
  emptied s = record s { entries = [] }

  lookup_from-emptied :
      (seed : Bytes) (t : Table) (key : Bytes) (h rounds dist : ℕ) (s : Journaled)
      → lookup_from journaled_store keccak256 seed t key h rounds dist (emptied s)
        ≡ lookup_from journaled_store keccak256 seed t key h rounds dist s
  unfolding lookup_from read_slot journaled_store
  lookup_from-emptied seed t key h zero dist s = refl
  lookup_from-emptied seed t key h (suc rounds) dist s =
      ap
        (λ (rest : Result (Option (ℕ × Bytes))).
          read_round journaled_store keccak256 seed t key ((h + dist) % t.capacity) dist
            (read_slot journaled_store t ((h + dist) % t.capacity) s) rest)
        (lookup_from-emptied seed t key h rounds (dist + 1) s)

  lookup-commit :
      (t : Table) (key : Bytes) (l : Ledger)
      → (lookup journaled_store keccak256 t key (commit l).drive).0
        ≡ (lookup journaled_store keccak256 t key l.drive).0
  unfolding lookup commit ◌>>=◌
  lookup-commit t key l = elim (Bool-cases (t.capacity == 0)) [
    | inl e ↦ rw e refl
    | inr e ↦ rw e (
        lookup_from-emptied l.drive.cfg.seed t key (home keccak256 l.drive.cfg.seed key t.capacity)
          t.capacity 0 l.drive.store)
  ]

  abbrev pair_in : Result (Option Account) → Result (ℕ × ℕ)
  pair_in (ok none) = ok (0, 0)
  pair_in (ok (some r)) = ok (r.nonce, r.balance)
  pair_in (err e) = err e

  account_got :
      (l : Ledger) (p : Result (Option Account) × Drive Journaled)
      → (continue_with
          (p.0, record l { drive = p.1 })
          (λ a. pure (elim a [ none ↦ (0, 0) | some r ↦ (r.nonce, r.balance) ]))).0
        ≡ pair_in p.0
  unfolding pure
  account_got l (ok none, d) = refl
  account_got l (ok (some r), d) = refl
  account_got l (err e, d) = refl

  account-pair_in :
      (addr : Bytes) (l : Ledger)
      → (account keccak256 addr l).0
        ≡ pair_in (get_account journaled_store keccak256 (raw addr) l.drive).0
  unfolding account on_drive ◌>>=◌
  account-pair_in addr l = account_got l (get_account journaled_store keccak256 (raw addr) l.drive)

  -- After a commit, an account reads as before it.
  pub account-commit :
      (addr : Bytes) (l : Ledger)
      → length addr ≡ 20
      → is_zero addr ≡ false
      → (account keccak256 addr (commit l)).0 ≡ (account keccak256 addr l).0
  unfolding commit
  account-commit addr l len nonzero =
      let laws = journaled_store-IsByteStore in
      account-pair_in addr (commit l)
      ∙ ap pair_in (
          get_account-account_in laws keccak256 addr (commit l).drive len nonzero
          ∙ ap (λ (r : Result (Option (ℕ × Bytes))). account_in l.drive.cfg addr (record_of r))
              (lookup-commit (accounts_table l.drive.cfg) addr l)
          ∙ sym (get_account-account_in laws keccak256 addr l.drive len nonzero))
      ∙ sym (account-pair_in addr l)
