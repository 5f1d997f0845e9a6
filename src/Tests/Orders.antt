-- ===== src/Tests/Orders.antt =====
-- The order of the small world's account table, whose second slot has Alice's record at home: Bob's goes
-- to the first.
use op_cartesi.Base.{
  ◌>>=◌, ℕ, zero, suc, ◌<◌, ◌≡◌, refl, sym, ap, ◌∙◌, true, false, none, some, [], ◌∷◌, ◌++◌, arith,
  if◌then◌else◌, length, replicate, ok,
}
use op_cartesi.Bytes.{Bytes, is_zero, bytes_equal, read_be, get_le, put_le}
use op_cartesi.Drive.Types.{off_live_count, raw}
use op_cartesi.Drive.Table.{
  account_key, accounts_table, live, home, displacement, counter, read_slot, lookup, insert, Table,
}
use op_cartesi.Drive.Table.Slots.{FitsIn}
use op_cartesi.Drive.Table.Order.{distance, Ordered, Distinct}
use op_cartesi.Drive.Table.Finds.{Shows}
use op_cartesi.Drive.Table.Contents.{record_of, lookup-insert, IsTable}
use op_cartesi.Drive.Config.{to_address}
use op_cartesi.Drive.Registry.{compact}
use op_cartesi.Drive.Accounts.{decode_account, nonzero_address, get_account, set_account}
use op_cartesi.Drive.Accounts.Created.{set_account-created}
use op_cartesi.Ledger.Journal.{journaled_store}
use op_cartesi.Ledger.Journal.Laws.{journaled_store-IsByteStore, size-journaled_store}
use op_cartesi.Tests.World.{alice, bob, toy_keccak, small_config, start_ledger}

abbrev alice_record : Bytes
alice_record = alice ++ (replicate 11 0 ++ 100 ∷ [])

abbrev bob_record : Bytes
bob_record = bob ++ (replicate 11 0 ++ 7 ∷ [])

abbrev small_slots : ℕ → Bytes
small_slots zero = replicate 32 0
small_slots (suc k) = alice_record

abbrev small_table : Table
small_table = accounts_table small_config

both_slots : (P : ℕ → Type 0) → P 0 → P 1 → (i : ℕ) → i < 2 → P i
both_slots P a b zero h = a
both_slots P a b (suc zero) h = b
both_slots P a b (suc (suc i)) h = absurd (omega (arith, h))

slots-FitsIn : FitsIn journaled_store-IsByteStore small_table start_ledger.drive.store
unfolding accounts_table
slots-FitsIn =
    let e : journaled_store-IsByteStore.size start_ledger.drive.store ≡ 256 =
      size-journaled_store start_ledger.drive.store in
    record { slots_inside = omega (arith, e); count_inside = omega (arith, e) }

slots-Shows : Shows journaled_store toy_keccak small_table start_ledger.drive.store small_slots
unfolding accounts_table read_slot journaled_store
slots-Shows = record {
  shown =
      both_slots
        (λ i. read_slot journaled_store small_table i start_ledger.drive.store ≡ ok (small_slots i))
        refl refl;
  sized = both_slots (λ i. length (small_slots i) ≡ small_table.slot_size) refl refl;
}

only_alice : (i : ℕ) → i < 2 → live small_table (small_slots i) ≡ true → i ≡ 1
unfolding accounts_table live is_zero
only_alice =
    both_slots (λ i. live small_table (small_slots i) ≡ true → i ≡ 1) (λ e. absurd cc) (λ e. refl)

alice_at_home : distance toy_keccak [] small_table small_slots 1 ≡ 0
unfolding accounts_table account_key home displacement get_le read_be put_le
alice_at_home = refl

slots-Ordered : Ordered toy_keccak [] small_table small_slots
unfolding accounts_table
slots-Ordered = record {
  stands = λ i h l. record {
    before = λ k p e hp np.
        let here = only_alice i h l in
        let at_home =
          ap (λ (j : ℕ). distance toy_keccak [] small_table small_slots j) here ∙ alice_at_home in
        absurd (omega (arith, e, at_home));
  };
}

slots-Distinct : Distinct toy_keccak [] small_table small_slots
unfolding accounts_table
slots-Distinct = record {
  once = λ i j hi hj li lj e. only_alice i hi li ∙ sym (only_alice j hj lj);
}

small-IsTable :
    IsTable journaled_store-IsByteStore toy_keccak small_table small_slots start_ledger.drive
unfolding accounts_table
small-IsTable = record {
  two = omega arith;
  before = omega arith;
  fits = slots-FitsIn;
  shows = slots-Shows;
  ordered = slots-Ordered;
  distinct = slots-Distinct;
}

first_is_free : live small_table (small_slots 0) ≡ false
unfolding accounts_table live is_zero
first_is_free = refl

bob_is_absent :
    ((lookup journaled_store toy_keccak small_table bob start_ledger.drive).0 ≡ ok none)
    × ((get_account journaled_store toy_keccak (raw bob) start_ledger.drive).0 ≡ ok none)
unfolding ◌>>=◌ get_account lookup decode_account compact to_address nonzero_address is_zero
    bytes_equal get_le read_be accounts_table account_key read_slot journaled_store home live
    displacement put_le
bob_is_absent = (refl, refl)

bob_record_there :
    (small_table.key_of bob_record ≡ bob)
    × (live small_table bob_record ≡ true)
    × (length bob_record ≡ small_table.slot_size)
unfolding accounts_table account_key live is_zero
bob_record_there = (refl, refl, refl)

none_live : (counter journaled_store off_live_count start_ledger.drive).0 ≡ ok 0
unfolding ◌>>=◌ counter journaled_store get_le
none_live = refl

lookup-insert_example :
    let after = insert journaled_store toy_keccak small_table bob_record start_ledger.drive in
    (after.0 ≡ ok tt)
    × ((g : ℕ → Bytes) × IsTable journaled_store-IsByteStore toy_keccak small_table g after.1)
    × (record_of (lookup journaled_store toy_keccak small_table alice after.1).0 ≡ (
        if bytes_equal (small_table.key_of bob_record) alice
        then ok (some bob_record)
        else record_of (lookup journaled_store toy_keccak small_table alice start_ledger.drive).0))
unfolding accounts_table
lookup-insert_example =
    lookup-insert journaled_store-IsByteStore toy_keccak small_table small_slots bob_record alice 0
      start_ledger.drive small-IsTable (omega arith) first_is_free
      (ap (λ (k : Bytes). (lookup journaled_store toy_keccak small_table k start_ledger.drive).0)
          bob_record_there.0
        ∙ bob_is_absent.0)
      bob_record_there.1 bob_record_there.2

set_account-created_example :
    let after = set_account journaled_store toy_keccak (raw bob) 0 7 start_ledger.drive in
    (after.0 ≡ ok tt)
    × ((get_account journaled_store toy_keccak (raw bob) after.1).0 ≡ (
        if bytes_equal bob bob
        then ok (some (record { address = bob; nonce = 0; balance = 7 }))
        else (get_account journaled_store toy_keccak (raw bob) start_ledger.drive).0))
unfolding accounts_table compact is_zero
set_account-created_example =
    set_account-created journaled_store-IsByteStore toy_keccak bob bob 0 7 0 0 small_slots
      start_ledger.drive small-IsTable (omega arith) first_is_free none_live (omega arith)
      (omega arith) refl refl refl refl (omega arith) (omega arith) bob_is_absent.1
