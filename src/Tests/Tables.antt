-- ===== src/Tests/Tables.antt =====
-- The probing tables and the ledger's accounts at the small world's drive: the first of its two slots is free.
use op_cartesi.Drive.Types.{raw, Account}
use op_cartesi.Base.{◌>>=◌, ◌≡◌, refl, ◌≢◌, true, some, [], ◌∷◌, ◌++◌, arith, replicate, ok}
use op_cartesi.Bytes.{Bytes, is_zero, bytes_equal, read_be, get_le, put_le}
use op_cartesi.Drive.Table.{
  account_key, accounts_table, live, home, displacement, read_slot, lookup, insert, remove,
}
use op_cartesi.Drive.Table.Slots.{FitsIn, IsFree}
use op_cartesi.Drive.Table.Insert.{insert-ends}
use op_cartesi.Drive.Table.Remove.{remove-ends}
use op_cartesi.Ledger.Journal.{journaled_store}
use op_cartesi.Ledger.Journal.Laws.{journaled_store-IsByteStore, size-journaled_store}
use op_cartesi.Drive.Registry.{compact}
use op_cartesi.Drive.Config.{to_address}
use op_cartesi.Drive.Accounts.{decode_account, nonzero_address, get_account, set_account}
use op_cartesi.Drive.Accounts.ReadBack.{set_account-get_account}
use op_cartesi.Drive.Accounts.Apart.{get_account-set_account_other}
use op_cartesi.Bytes.Equal.{bytes_equal_iff}
use op_cartesi.Ledger.Operations.{account, credit_ether, debit_ether, bump_nonce_and_charge}
use op_cartesi.Ledger.Operations.Balances.{
  credit_ether-account, debit_ether-account, bump_nonce_and_charge-account, IsHolding,
}
use op_cartesi.Ledger.Operations.Transfers.{debit_ether-credit_ether}
use op_cartesi.Ledger.Types.{Ledger}
use op_cartesi.Tests.World.{alice, bob, toy_keccak, small_config, start_ledger}

small_table-FitsIn :
    FitsIn journaled_store-IsByteStore (accounts_table small_config) start_ledger.drive.store
unfolding accounts_table
small_table-FitsIn =
    let e : journaled_store-IsByteStore.size start_ledger.drive.store ≡ 256 =
      size-journaled_store start_ledger.drive.store in
    record { slots_inside = omega (arith, e); count_inside = omega (arith, e) }

first_slot-IsFree :
    IsFree journaled_store-IsByteStore (accounts_table small_config) 0 start_ledger.drive.store
unfolding accounts_table read_slot journaled_store live is_zero
first_slot-IsFree = record { slot = replicate 32 0; reads_as = refl; has_none = refl }

insert-ends_example :
    (insert journaled_store toy_keccak
      (accounts_table small_config)
      (replicate 32 9)
      start_ledger.drive).0
    ≡ ok tt
unfolding accounts_table
insert-ends_example =
    insert-ends journaled_store-IsByteStore toy_keccak (accounts_table small_config)
      (replicate 32 9) 0 start_ledger.drive small_table-FitsIn refl (omega arith) first_slot-IsFree

remove-ends_example :
    (remove journaled_store toy_keccak (accounts_table small_config) 1 start_ledger.drive).0 ≡ ok tt
unfolding accounts_table
remove-ends_example =
    remove-ends journaled_store-IsByteStore toy_keccak (accounts_table small_config) 1 0
      start_ledger.drive small_table-FitsIn (omega arith) (omega arith) (λ e. omega (arith, e))
      first_slot-IsFree

abbrev pub alice_before : Account
alice_before = record { address = alice; nonce = 0; balance = 100 }

alice_is_read :
    (get_account journaled_store toy_keccak (raw alice) start_ledger.drive).0
    ≡ ok (some alice_before)
unfolding ◌>>=◌ get_account lookup decode_account compact to_address nonzero_address is_zero
    bytes_equal get_le read_be accounts_table account_key read_slot journaled_store home live
    displacement put_le
alice_is_read = refl

set_account-get_account_example :
    ((set_account journaled_store toy_keccak (raw alice) 1 77 start_ledger.drive).0 ≡ ok tt)
    × ((get_account journaled_store toy_keccak
          (raw alice)
          (set_account journaled_store toy_keccak (raw alice) 1 77 start_ledger.drive).1).0
        ≡ ok (some (record { address = alice; nonce = 1; balance = 77 })))
unfolding is_zero compact
set_account-get_account_example =
    set_account-get_account journaled_store-IsByteStore toy_keccak alice 1 77 alice_before
      start_ledger.drive small_table-FitsIn (omega arith) refl refl (omega arith) (omega arith)
      alice_is_read

pub alice-IsHolding : IsHolding toy_keccak alice start_ledger alice_before
unfolding is_zero compact
alice-IsHolding = record {
  table_fits = small_table-FitsIn;
  slot_room = omega arith;
  address_length = refl;
  address_nonzero = refl;
  account_there = alice_is_read;
}

credit_ether-account_example :
    ((credit_ether toy_keccak alice 11 start_ledger).0 ≡ ok tt)
    × ((account toy_keccak alice (credit_ether toy_keccak alice 11 start_ledger).1).0 ≡ ok (0, 111))
unfolding compact
credit_ether-account_example =
    credit_ether-account toy_keccak alice 11 alice_before start_ledger alice-IsHolding (omega arith)
      (omega arith)

debit_ether-account_example :
    ((debit_ether toy_keccak alice 30 start_ledger).0 ≡ ok tt)
    × ((account toy_keccak alice (debit_ether toy_keccak alice 30 start_ledger).1).0 ≡ ok (0, 70))
unfolding compact
debit_ether-account_example =
    debit_ether-account toy_keccak alice 30 alice_before start_ledger alice-IsHolding (omega arith)
      (omega arith) (omega arith)

bump_nonce_and_charge-account_example :
    ((bump_nonce_and_charge toy_keccak alice 7 start_ledger).0 ≡ ok tt)
    × ((account toy_keccak alice (bump_nonce_and_charge toy_keccak alice 7 start_ledger).1).0
        ≡ ok (1, 93))
unfolding compact
bump_nonce_and_charge-account_example =
    bump_nonce_and_charge-account toy_keccak alice 7 alice_before start_ledger alice-IsHolding
      (omega arith) (omega arith) (omega arith)

alice_is_not_bob : alice ≢ bob
unfolding bytes_equal
alice_is_not_bob =
    λ e. let same : bytes_equal alice bob ≡ true = (bytes_equal_iff alice bob).1 e in cc

get_account-set_account_other_example :
    (get_account journaled_store toy_keccak
      (raw bob)
      (set_account journaled_store toy_keccak (raw alice) 1 77 start_ledger.drive).1).0
    ≡ (get_account journaled_store toy_keccak (raw bob) start_ledger.drive).0
unfolding is_zero compact
get_account-set_account_other_example =
    get_account-set_account_other journaled_store-IsByteStore toy_keccak alice bob 1 77 alice_before
      start_ledger.drive small_table-FitsIn (omega arith) refl refl (omega arith) (omega arith)
      alice_is_read alice_is_not_bob refl refl

-- Beside Alice, Bob has the nonce 0 and a balance of 5 in the other slot.
abbrev two_bytes : Bytes
two_bytes =
    replicate 179 0
    ++ 2 ∷ (replicate 11 0 ++ 5 ∷ (replicate 19 0 ++ 1 ∷ (replicate 11 0 ++ 100 ∷ replicate 32 0)))

abbrev two_ledger : Ledger
two_ledger = record start_ledger {
  drive = record {
    store = record { inner = two_bytes; entries = [] };
    cfg = small_config;
    tokens = [];
    col_off = [];
  };
}

abbrev bob_before : Account
bob_before = record { address = bob; nonce = 0; balance = 5 }

two_table-FitsIn :
    FitsIn journaled_store-IsByteStore (accounts_table small_config) two_ledger.drive.store
unfolding accounts_table
two_table-FitsIn =
    let e : journaled_store-IsByteStore.size two_ledger.drive.store ≡ 256 =
      size-journaled_store two_ledger.drive.store in
    record { slots_inside = omega (arith, e); count_inside = omega (arith, e) }

both_are_read :
    ((get_account journaled_store toy_keccak (raw alice) two_ledger.drive).0
      ≡ ok (some alice_before))
    × ((get_account journaled_store toy_keccak (raw bob) two_ledger.drive).0 ≡ ok (some bob_before))
unfolding ◌>>=◌ get_account lookup decode_account compact to_address nonzero_address is_zero
    bytes_equal get_le read_be accounts_table account_key read_slot journaled_store home live
    displacement put_le
both_are_read = (refl, refl)

alice-IsHolding_two : IsHolding toy_keccak alice two_ledger alice_before
unfolding is_zero compact
alice-IsHolding_two = record {
  table_fits = two_table-FitsIn;
  slot_room = omega arith;
  address_length = refl;
  address_nonzero = refl;
  account_there = both_are_read.0;
}

bob-IsHolding_two : IsHolding toy_keccak bob two_ledger bob_before
unfolding is_zero compact
bob-IsHolding_two = record {
  table_fits = two_table-FitsIn;
  slot_room = omega arith;
  address_length = refl;
  address_nonzero = refl;
  account_there = both_are_read.1;
}

debit_ether-credit_ether_example :
    let after_debit = debit_ether toy_keccak alice 30 two_ledger in
    let after = credit_ether toy_keccak bob 30 after_debit.1 in
    (after_debit.0 ≡ ok tt)
    × (after.0 ≡ ok tt)
    × ((account toy_keccak alice after.1).0 ≡ ok (0, 70))
    × ((account toy_keccak bob after.1).0 ≡ ok (0, 35))
unfolding compact
debit_ether-credit_ether_example =
    debit_ether-credit_ether toy_keccak alice bob 30 alice_before bob_before two_ledger
      alice-IsHolding_two bob-IsHolding_two alice_is_not_bob (omega arith) (omega arith)
      (omega arith) (omega arith) (omega arith) (omega arith)
