-- ===== src/Drive/Accounts/Created.antt =====
-- A new account reads back as it was set (accounts-drive/js/src/drive.ts, `setAccount` and
-- `getAccount`), and the others as before.
use op_cartesi.Bytes.Equal.{eq_of_bytes_equal}
use op_cartesi.Drive.Accounts.Codec.{record_size, nonce_bytes, balance_bytes}
use op_cartesi.Base.{
  pure, ◌>>=◌, ℕ, ◌^◌, ◌≤◌, ◌<◌, ◌≡◌, refl, sym, ap, ◌∙◌, inl, inr, false, Option, none, some,
  if◌then◌else◌, lt→leb_false, Bool-cases, length, replicate, continue_with, Result, ok, err,
}
use op_cartesi.Bytes.{Bytes, splice, is_zero, bytes_equal, get_le}
use op_cartesi.Store.{Store}
use op_cartesi.Store.Laws.{IsByteStore}
use op_cartesi.Drive.Types.{off_live_count, raw, Account, NormalizedConfig, Drive}
use op_cartesi.Drive.Table.{accounts_table, live, counter, lookup, insert}
use op_cartesi.Drive.Table.Search.{lookup_state}
use op_cartesi.Drive.Table.Placed.{IsInserted}
use op_cartesi.Drive.Table.Contents.{
  record_of, lookup-IsInserted, insert_absent-IsInserted, IsTable,
}
use op_cartesi.Drive.Accounts.{
  decode_account, encode_account, set_bytes, get_account, insert_new, set_account,
}
use op_cartesi.Drive.Accounts.Made.{made, IsRecord}
use op_cartesi.Drive.Accounts.ReadBack.{account_of, nonzero_raw, get_account_steps}

-- The account of a record.
unfoldable pub account_in :
    NormalizedConfig → Bytes → Result (Option Bytes) → Result (Option Account)
account_in cfg address (err e) = err e
account_in cfg address (ok none) = ok none
account_in cfg address (ok (some slot)) =
    let (nonce, balance) = decode_account cfg slot in
    ok (some (record { address = address; nonce = nonce; balance = balance }))

module _ {S : Type 0} {io : Store S} (laws : IsByteStore io) (keccak256 : Bytes → Bytes) where
  account_found :
      (cfg : NormalizedConfig) (address : Bytes) (p : Result (Option (ℕ × Bytes)) × Drive S)
      → (continue_with p (λ found. pure (account_of laws keccak256 cfg address found))).0
        ≡ account_in cfg address (record_of p.0)
  unfolding account_in record_of pure
  account_found cfg address (ok none, d) = refl
  account_found cfg address (ok (some (i, slot)), d) = refl
  account_found cfg address (err e, d) = refl

  pub get_account-account_in :
      (address : Bytes) (d : Drive S)
      → length address ≡ 20
      → is_zero address ≡ false
      → (get_account io keccak256 (raw address) d).0
        ≡ account_in d.cfg address
            (record_of (lookup io keccak256 (accounts_table d.cfg) address d).0)
  get_account-account_in address d len nonzero =
      ap (λ (p : Result (Option Account) × Drive S). p.0)
        (get_account_steps laws keccak256 address d len nonzero)
      ∙ account_found d.cfg address (lookup io keccak256 (accounts_table d.cfg) address d)

  -- Only a search that finds nothing gives no account.
  not_found_of :
      (cfg : NormalizedConfig) (address : Bytes) (r : Result (Option (ℕ × Bytes)))
      → account_in cfg address (record_of r) ≡ ok none
      → r ≡ ok none
  unfolding account_in record_of
  not_found_of cfg address (ok none) e = refl
  not_found_of cfg address (ok (some (i, slot))) e = absurd cc
  not_found_of cfg address (err x) e = absurd cc

  read_state :
      (r : Result Bytes) (d : Drive S) → (continue_with (r, d) (λ b. pure (get_le b))).1 ≡ d
  unfolding pure
  read_state (ok b) d = refl
  read_state (err e) d = refl

  counter_state : (off : ℕ) (d : Drive S) → (counter io off d).1 ≡ d
  unfolding counter ◌>>=◌
  counter_state off d = read_state (io.read_at off 8 d.store) d

  -- The record of a new account is inserted.
  set_account_new :
      (address : Bytes) (nonce balance n : ℕ) (rec : Bytes) (d : Drive S)
      → length address ≡ 20
      → is_zero address ≡ false
      → encode_account d.cfg address nonce balance ≡ ok rec
      → set_bytes 0 rec (replicate d.cfg.slot_size 0)
        ≡ ok (splice 0 rec (replicate d.cfg.slot_size 0))
      → (lookup io keccak256 (accounts_table d.cfg) address d).0 ≡ ok none
      → (counter io off_live_count d).0 ≡ ok n
      → n < d.cfg.load_limit
      → set_account io keccak256 (raw address) nonce balance d
        ≡ insert io keccak256 (accounts_table d.cfg) (splice 0 rec (replicate d.cfg.slot_size 0)) d
  unfolding set_account insert_new accounts_table ◌>>=◌
  set_account_new address nonce balance n rec d len nonzero enc set absent count below =
      let looked : lookup io keccak256 (accounts_table d.cfg) address d ≡ (ok none, d) =
        λ j. (absent j, lookup_state io keccak256 (accounts_table d.cfg) address d j) in
      let counts : counter io off_live_count d ≡ (ok n, d) =
        λ j. (count j, counter_state off_live_count d j) in
      rw
        (
          nonzero_raw laws keccak256 address d len nonzero,
          enc,
          looked,
          counts,
          lt→leb_false n d.cfg.load_limit below,
          set,
        )
        refl

  -- The insertion of the record of a new account.
  created :
      (address : Bytes) (nonce balance q : ℕ) (f : ℕ → Bytes) (full : Bytes) (d : Drive S)
      → IsTable laws keccak256 (accounts_table d.cfg) f d
      → q < d.cfg.capacity
      → live (accounts_table d.cfg) (f q) ≡ false
      → (lookup io keccak256 (accounts_table d.cfg) address d).0 ≡ ok none
      → IsRecord d.cfg address nonce balance full
      → ((insert io keccak256 (accounts_table d.cfg) full d).0 ≡ ok tt)
        × IsInserted laws keccak256
            (accounts_table d.cfg)
            f
            full
            d
            (insert io keccak256 (accounts_table d.cfg) full d).1
  unfolding accounts_table
  created address nonce balance q f full d table inside free absent made_so =
      let t = accounts_table d.cfg in
      insert_absent-IsInserted laws keccak256 t f full q d table inside free
        (ap (λ (k : Bytes). (lookup io keccak256 t k d).0) made_so.full_key ∙ absent)
        made_so.full_live made_so.full_length

  -- What `get_account` gives after it.
  get_account-created :
      (address other : Bytes) (nonce balance : ℕ) (f : ℕ → Bytes) (full : Bytes)
      (d d_after : Drive S)
      → IsTable laws keccak256 (accounts_table d.cfg) f d
      → IsInserted laws keccak256 (accounts_table d.cfg) f full d d_after
      → IsRecord d.cfg address nonce balance full
      → length other ≡ 20
      → is_zero other ≡ false
      → (get_account io keccak256 (raw other) d_after).0 ≡ (
          if bytes_equal address other
          then ok (some (record { address = address; nonce = nonce; balance = balance }))
          else (get_account io keccak256 (raw other) d).0)
  unfolding account_in
  get_account-created address other nonce balance f full d d_after table i made_so len nonzero =
      let t = accounts_table d.cfg in
      let after : record_of (lookup io keccak256 t other d_after).0 ≡ (
          if bytes_equal address other
          then ok (some full)
          else record_of (lookup io keccak256 t other d).0) =
        lookup-IsInserted laws keccak256 t f full other d d_after table i
        ∙ ap
            (λ (k : Bytes).
              if bytes_equal k other
              then ok (some full)
              else record_of (lookup io keccak256 t other d).0)
            made_so.full_key in
      let read_after =
        get_account-account_in other d_after len nonzero
        ∙ ap
            (λ (c : NormalizedConfig).
              account_in c other
                (record_of (lookup io keccak256 (accounts_table c) other d_after).0))
            i.same_cfg
        ∙ ap (account_in d.cfg other) after in
      elim (Bool-cases (bytes_equal address other)) [
        | inl same ↦
            let one = sym (eq_of_bytes_equal address other same) in
            read_after
            ∙ rw same (λ j. ok (
                some (record {
                  address = one j;
                  nonce = (made_so.full_numbers j).0;
                  balance = (made_so.full_numbers j).1;
                })))
        | inr differs ↦ read_after ∙ rw differs (sym (get_account-account_in other d len nonzero))
      ]

  -- In a drive whose account table is in Robin Hood order with no key twice and has a free
  -- slot, whose live count is below the load limit and whose slots hold a record, an address of
  -- 20 bytes, not zero, that has no account is set to a nonce and a balance that fit their
  -- fields without a throw; then it reads with that nonce and balance, and every other nonzero
  -- address of 20 bytes reads as before.
  pub set_account-created :
      (address other : Bytes) (nonce balance n q : ℕ) (f : ℕ → Bytes) (d : Drive S)
      → IsTable laws keccak256 (accounts_table d.cfg) f d
      → q < d.cfg.capacity
      → live (accounts_table d.cfg) (f q) ≡ false
      → (counter io off_live_count d).0 ≡ ok n
      → n < d.cfg.load_limit
      → record_size d.cfg ≤ d.cfg.slot_size
      → length address ≡ 20
      → is_zero address ≡ false
      → length other ≡ 20
      → is_zero other ≡ false
      → nonce < 256 ^ nonce_bytes d.cfg
      → balance < 256 ^ balance_bytes d.cfg
      → (get_account io keccak256 (raw address) d).0 ≡ ok none
      → let after = set_account io keccak256 (raw address) nonce balance d in
        (after.0 ≡ ok tt)
        × ((get_account io keccak256 (raw other) after.1).0 ≡ (
            if bytes_equal address other
            then ok (some (record { address = address; nonce = nonce; balance = balance }))
            else (get_account io keccak256 (raw other) d).0))
  set_account-created address other nonce balance n q f d table inside free count below room len
        nonzero other_len other_nonzero small_nonce small_balance absent =
      let nothing =
        not_found_of d.cfg address (lookup io keccak256 (accounts_table d.cfg) address d).0
          (sym (get_account-account_in address d len nonzero) ∙ absent) in
      let (rec, enc, set, made_so) =
        made d.cfg address nonce balance room len nonzero small_nonce small_balance in
      let full = splice 0 rec (replicate d.cfg.slot_size 0) in
      let (done, placed) =
        created address nonce balance q f full d table inside free nothing made_so in
      let step =
        set_account_new address nonce balance n rec d len nonzero enc set nothing count below in
      (
        ap (λ (p : Result (Unit {0}) × Drive S). p.0) step ∙ done,
        ap (λ (p : Result (Unit {0}) × Drive S). (get_account io keccak256 (raw other) p.1).0) step
            ∙ get_account-created address other nonce balance f full d _ table placed made_so
                other_len other_nonzero,
      )
