-- ===== src/Ledger/Operations/Transfers.antt =====
-- Ether that moves from one account to another (app/src/ledger.ts, `debitEther` and then
-- `creditEther`, as the callers in app/src/router.ts and app/src/handlers/ pair them).
use mathlib.Core.Path.{subst}
use op_cartesi.Base.{ℕ, ◌+◌, ◌-◌, ◌*◌, ◌^◌, ◌≤◌, ◌<◌, ◌≡◌, sym, ap, ◌∙◌, ◌≢◌, arith, Result, ok}
use op_cartesi.Bytes.{Bytes}
use op_cartesi.Drive.Types.{raw, Account, Drive}
use op_cartesi.Drive.Accounts.{set_account}
use op_cartesi.Drive.Accounts.Codec.{record_size, nonce_bytes, balance_bytes}
use op_cartesi.Drive.Accounts.ReadBack.{set_account-Rewritten, set_account-get_account, Rewritten}
use op_cartesi.Drive.Accounts.Apart.{get_account-set_account_other}
use op_cartesi.Drive.Table.{accounts_table}
use op_cartesi.Drive.Table.Slots.{FitsIn}
use op_cartesi.Ledger.Types.{Journaled, Ledger}
use op_cartesi.Ledger.Journal.{journaled_store}
use op_cartesi.Ledger.Journal.Laws.{journaled_store-IsByteStore}
use op_cartesi.Ledger.Operations.{on_drive, account, put_account, credit_ether, debit_ether}
use op_cartesi.Ledger.Operations.Balances.{account_of_drive, credit_put, debit_put, IsHolding}

abbrev holder : Bytes → ℕ → ℕ → Account
holder address nonce balance = record { address = address; nonce = nonce; balance = balance }

-- A drive whose table lies in its store, with slots that hold a record.
record IsRoomy (d : Drive Journaled) : Type 0 where
  fits : FitsIn journaled_store-IsByteStore (accounts_table d.cfg) d.store
  room : record_size d.cfg ≤ d.cfg.slot_size

-- A run that leaves one account as given and every other as it was.
record Settled (keccak256 : Bytes → Bytes) (addr : Bytes) (a : Account) (l : Ledger)
    (p : Result (Unit {0}) × Ledger) : Type 0 where
  fine : p.0 ≡ ok tt
  same_cfg : p.1.drive.cfg ≡ l.drive.cfg
  holds : IsHolding keccak256 addr p.1 a
  others :
      (other : Bytes) (b : Account)
      → addr ≢ other
      → IsHolding keccak256 other l b
      → IsHolding keccak256 other p.1 b

module _ (keccak256 : Bytes → Bytes) where
  IsRoomy-set_account :
      (addr : Bytes) (nonce balance : ℕ) (d : Drive Journaled)
      → Rewritten journaled_store-IsByteStore keccak256 addr nonce balance d
      → IsRoomy d
      → IsRoomy (set_account journaled_store keccak256 (raw addr) nonce balance d).1
  unfolding accounts_table
  IsRoomy-set_account addr nonce balance d r roomy =
      let laws = journaled_store-IsByteStore in
      let t = accounts_table d.cfg in
      let same = laws.write_size (t.base + t.slot_size * r.index) r.after d.store in
      subst (λ (e : Drive Journaled). IsRoomy e)
        (sym (ap (λ (p : Result (Unit {0}) × Drive Journaled). p.1) r.wrote))
        (record {
          fits = record {
            slots_inside =
                subst (λ (n : ℕ). t.base + t.slot_size * t.capacity ≤ n) (sym same)
                  roomy.fits.slots_inside;
            count_inside =
                subst (λ (n : ℕ). t.count_off + 8 ≤ n) (sym same) roomy.fits.count_inside;
          };
          room = roomy.room;
        })

  put_account-Settled :
      (addr : Bytes) (nonce balance : ℕ) (a : Account) (l : Ledger)
      → IsHolding keccak256 addr l a
      → nonce < 256 ^ nonce_bytes l.drive.cfg
      → balance < 256 ^ balance_bytes l.drive.cfg
      → Settled keccak256 addr
          (holder addr nonce balance)
          l
          (put_account keccak256 addr nonce balance l)
  unfolding put_account on_drive
  put_account-Settled addr nonce balance a l h small_nonce small_balance =
      let laws = journaled_store-IsByteStore in
      let r =
        set_account-Rewritten laws keccak256 addr nonce balance a l.drive h.table_fits h.slot_room
          h.address_length h.address_nonzero small_nonce small_balance h.account_there in
      let roomy =
        IsRoomy-set_account addr nonce balance l.drive r
          (record { fits = h.table_fits; room = h.slot_room }) in
      let (done, back) =
        set_account-get_account laws keccak256 addr nonce balance a l.drive h.table_fits h.slot_room
          h.address_length h.address_nonzero small_nonce small_balance h.account_there in
      record {
        fine = done;
        same_cfg = ap (λ (p : Result (Unit {0}) × Drive Journaled). p.1.cfg) r.wrote;
        holds = record {
          table_fits = roomy.fits;
          slot_room = roomy.room;
          address_length = h.address_length;
          address_nonzero = h.address_nonzero;
          account_there = back;
        };
        others = λ other b differs o. record {
          table_fits = roomy.fits;
          slot_room = roomy.room;
          address_length = o.address_length;
          address_nonzero = o.address_nonzero;
          account_there =
              get_account-set_account_other laws keccak256 addr other nonce balance a l.drive
                h.table_fits h.slot_room h.address_length h.address_nonzero small_nonce
                small_balance h.account_there differs o.address_length o.address_nonzero
              ∙ o.account_there;
        };
      }

  debit_ether-Settled :
      (addr : Bytes) (amount : ℕ) (a : Account) (l : Ledger)
      → IsHolding keccak256 addr l a
      → 0 < amount
      → amount ≤ a.balance
      → a.nonce < 256 ^ nonce_bytes l.drive.cfg
      → a.balance < 256 ^ balance_bytes l.drive.cfg
      → Settled keccak256 addr
          (holder addr a.nonce (a.balance - amount))
          l
          (debit_ether keccak256 addr amount l)
  debit_ether-Settled addr amount a l h positive covered small_nonce small_balance =
      subst (Settled keccak256 addr (holder addr a.nonce (a.balance - amount)) l)
        (sym (debit_put keccak256 addr amount a l h (ground arith) covered))
        (put_account-Settled addr a.nonce (a.balance - amount) a l h small_nonce
          (omega (arith, small_balance)))

  credit_ether-Settled :
      (addr : Bytes) (amount : ℕ) (a : Account) (l : Ledger)
      → IsHolding keccak256 addr l a
      → 0 < amount
      → a.nonce < 256 ^ nonce_bytes l.drive.cfg
      → a.balance + amount < 256 ^ balance_bytes l.drive.cfg
      → Settled keccak256 addr
          (holder addr a.nonce (a.balance + amount))
          l
          (credit_ether keccak256 addr amount l)
  credit_ether-Settled addr amount a l h positive small_nonce small_balance =
      subst (Settled keccak256 addr (holder addr a.nonce (a.balance + amount)) l)
        (sym (credit_put keccak256 addr amount a l h (ground arith)))
        (put_account-Settled addr a.nonce (a.balance + amount) a l h small_nonce small_balance)

  read_held :
      (addr : Bytes) (a : Account) (l : Ledger)
      → IsHolding keccak256 addr l a
      → (account keccak256 addr l).0 ≡ ok (a.nonce, a.balance)
  read_held addr a l h = account_of_drive keccak256 addr l a h.account_there

  -- In a ledger whose table lies inside its store and holds accounts of two different
  -- addresses, the debit of a positive amount that the first one's balance covers and its
  -- credit to the second, while both accounts fit their fields, both succeed, and then the
  -- first reads with the amount less, the second with the amount more and both with the nonces
  -- they had.
  pub debit_ether-credit_ether :
      (sender receiver : Bytes) (amount : ℕ) (a b : Account) (l : Ledger)
      → IsHolding keccak256 sender l a
      → IsHolding keccak256 receiver l b
      → sender ≢ receiver
      → 0 < amount
      → amount ≤ a.balance
      → a.nonce < 256 ^ nonce_bytes l.drive.cfg
      → b.nonce < 256 ^ nonce_bytes l.drive.cfg
      → a.balance < 256 ^ balance_bytes l.drive.cfg
      → b.balance + amount < 256 ^ balance_bytes l.drive.cfg
      → (let after_debit = debit_ether keccak256 sender amount l in
          let after = credit_ether keccak256 receiver amount after_debit.1 in
          (after_debit.0 ≡ ok tt)
          × (after.0 ≡ ok tt)
          × ((account keccak256 sender after.1).0 ≡ ok (a.nonce, a.balance - amount))
          × ((account keccak256 receiver after.1).0 ≡ ok (b.nonce, b.balance + amount)))
  debit_ether-credit_ether sender receiver amount a b l from to differs positive covered small_a
        small_b small_balance small_sum =
      let d = debit_ether-Settled sender amount a l from positive covered small_a small_balance in
      let at = d.others receiver b differs to in
      let c =
        credit_ether-Settled receiver amount b (debit_ether keccak256 sender amount l).1 at positive
          (rw d.same_cfg small_b) (rw d.same_cfg small_sum) in
      (
        d.fine,
        c.fine,
        read_held sender _ _ (c.others sender _ (λ e. differs (sym e)) d.holds),
        read_held receiver _ _ c.holds,
      )
