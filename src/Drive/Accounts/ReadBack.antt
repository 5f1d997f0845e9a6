-- ===== src/Drive/Accounts/ReadBack.antt =====
-- An account reads back as it was set (accounts-drive/js/src/drive.ts, `getAccount` and `setAccount`),
-- in a drive over any store of bytes.
use op_cartesi.Bytes.Equal.{bytes_equal_refl}
use op_cartesi.Drive.Table.Slots.{
  written, read_slot_inside, write_slot_inside, written_slot, written_others, FitsIn,
}
use op_cartesi.Drive.Table.Search.{lookup_state, lookup_search, lookup-some}
use op_cartesi.Drive.Accounts.InPlace.{set_bytes_lem, splice-Holds}
use op_cartesi.Drive.Table.Located.{lookup_from-Located, Located}
use op_cartesi.Drive.Table.Found.{lookup_from-again}
use op_cartesi.Drive.Config.{bytes_of, to_address}
use op_cartesi.Base.{
  pure, ◌>>=◌, ℕ, ◌+◌, ◌^◌, ◌≤◌, ◌<◌, ◌≡◌, refl, sym, ap, ◌∙◌, false, Option, none, some, [], arith,
  length, continue_with, Result, ok, err,
}
use op_cartesi.Bytes.{Bytes, slice, splice, is_zero, bytes_equal}
use op_cartesi.Bytes.Splice.{length-splice}
use op_cartesi.Store.{Store}
use op_cartesi.Store.Laws.{IsByteStore}
use op_cartesi.Drive.Types.{raw, Account, NormalizedConfig, Drive}
use op_cartesi.Drive.Table.{account_key, accounts_table, live, write_slot, lookup, Table}
use op_cartesi.Drive.Accounts.{
  decode_account, encode_account, nonzero_address, get_account, set_account,
}
use op_cartesi.Drive.Accounts.Codec.{record_size, nonce_bytes, balance_bytes, decode-encode_account}

abbrev ok_or_empty : Result Bytes → Bytes
ok_or_empty (ok b) = b
ok_or_empty (err e) = []

ok_bytes_same : {r : Result Bytes} {a b : Bytes} → r ≡ ok a → r ≡ ok b → a ≡ b
ok_bytes_same e f = ap ok_or_empty (sym e ∙ f)

module _ {S : Type 0} {io : Store S} (laws : IsByteStore io) (keccak256 : Bytes → Bytes) where
  abbrev pub account_of : NormalizedConfig → Bytes → Option (ℕ × Bytes) → Option Account
  account_of cfg address found = elim found [
    | none ↦ none
    | some (i, slot) ↦
        let (nonce, balance) = decode_account cfg slot in
        some (record { address = address; nonce = nonce; balance = balance })
  ]

  pub nonzero_raw :
      (address : Bytes) (d : Drive S)
      → length address ≡ 20
      → is_zero address ≡ false
      → nonzero_address (raw address) d ≡ (ok address, d)
  unfolding nonzero_address to_address bytes_of ◌>>=◌
  nonzero_raw address d len nonzero = rw (len, nonzero) refl

  pub get_account_steps :
      (address : Bytes) (d : Drive S)
      → length address ≡ 20
      → is_zero address ≡ false
      → get_account io keccak256 (raw address) d
        ≡ continue_with
            (lookup io keccak256 (accounts_table d.cfg) address d)
            (λ found. pure (account_of d.cfg address found))
  unfolding get_account ◌>>=◌
  get_account_steps address d len nonzero = rw (nonzero_raw address d len nonzero) refl

  found_of :
      (cfg : NormalizedConfig) (address : Bytes) (a : Account)
      (p : Result (Option (ℕ × Bytes)) × Drive S)
      → (continue_with p (λ found. pure (account_of cfg address found))).0 ≡ ok (some a)
      → (i : ℕ) × (slot : Bytes) × (p.0 ≡ ok (some (i, slot)))
  unfolding pure
  found_of cfg address a (ok none, d) e = absurd cc
  found_of cfg address a (ok (some (i, slot)), d) e = (i, slot, refl)
  found_of cfg address a (err x, d) e = absurd cc

  -- The record of an existing account, written in its place.
  set_account_found :
      (address : Bytes) (nonce balance i : ℕ) (old rec : Bytes) (d : Drive S)
      → length address ≡ 20
      → is_zero address ≡ false
      → encode_account d.cfg address nonce balance ≡ ok rec
      → 0 + length rec ≤ length old
      → (lookup io keccak256 (accounts_table d.cfg) address d).0 ≡ ok (some (i, old))
      → set_account io keccak256 (raw address) nonce balance d
        ≡ write_slot io (accounts_table d.cfg) i (splice 0 rec old) d
  unfolding set_account ◌>>=◌
  set_account_found address nonce balance i old rec d len nonzero enc fits found =
      let looked : lookup io keccak256 (accounts_table d.cfg) address d ≡ (ok (some (i, old)), d) =
        λ j. (found j, lookup_state io keccak256 (accounts_table d.cfg) address d j) in
      rw (nonzero_raw address d len nonzero, enc, looked, set_bytes_lem 0 rec old fits) refl

  -- After the write, the same search ends at the new record.
  lookup-written :
      (address : Bytes) (i : ℕ) (old new : Bytes) (d : Drive S)
      → FitsIn laws (accounts_table d.cfg) d.store
      → i < d.cfg.capacity
      → length new ≡ d.cfg.slot_size
      → slice 0 20 new ≡ address
      → is_zero address ≡ false
      → (lookup io keccak256 (accounts_table d.cfg) address d).0 ≡ ok (some (i, old))
      → (lookup io keccak256
          (accounts_table d.cfg)
          address
          (written laws (accounts_table d.cfg) i new d)).0
        ≡ ok (some (i, new))
  unfolding accounts_table live account_key bytes_equal
  lookup-written address i old new d fits inside len field nonzero found =
      let t = accounts_table d.cfg in
      let z = lookup-some io keccak256 t address i old d found in
      lookup_search io keccak256 t address (written laws t i new d) z
      ∙ lookup_from-again io keccak256 d.cfg.seed t address _ t.capacity 0 i old new d.store
          (written laws t i new d).store (sym (lookup_search io keccak256 t address d z) ∙ found)
          (written_slot laws t i new d fits inside len) (rw (live, field, nonzero) refl)
          (rw (account_key, field) (bytes_equal_refl address))
          λ j differs. written_others laws t i j new d len differs

  -- The length of a slot that a search ends at.
  Located-length :
      (t : Table) (key : Bytes) (i : ℕ) (slot : Bytes) (s : S)
      → FitsIn laws t s
      → Located io keccak256 t key s i slot
      → length slot ≡ t.slot_size
  Located-length t key i slot s fits at =
      let (b, e, size) = read_slot_inside laws t i s fits at.located_inside in
      ap (λ (x : Bytes). length x) (ok_bytes_same at.located_slot e) ∙ size

  located :
      (address : Bytes) (i : ℕ) (old : Bytes) (d : Drive S)
      → (lookup io keccak256 (accounts_table d.cfg) address d).0 ≡ ok (some (i, old))
      → Located io keccak256 (accounts_table d.cfg) address d.store i old
  located address i old d e =
      let t = accounts_table d.cfg in
      let z = lookup-some io keccak256 t address i old d e in
      lookup_from-Located io keccak256 d.cfg.seed t address _ t.capacity 0 i old d.store
        (ground arith) (sym (lookup_search io keccak256 t address d z) ∙ e)

  -- An account is read from the record that its search ends at.
  get_account_read :
      (address : Bytes) (nonce balance i : ℕ) (slot : Bytes) (d : Drive S)
      → length address ≡ 20
      → is_zero address ≡ false
      → (lookup io keccak256 (accounts_table d.cfg) address d).0 ≡ ok (some (i, slot))
      → decode_account d.cfg slot ≡ (nonce, balance)
      → (get_account io keccak256 (raw address) d).0
        ≡ ok (some (record { address = address; nonce = nonce; balance = balance }))
  unfolding pure
  get_account_read address nonce balance i slot d len nonzero e numbers =
      ap (λ (p : Result (Option Account) × Drive S). p.0) (get_account_steps address d len nonzero)
      ∙ ap
          (λ (r : Result (Option (ℕ × Bytes))).
            (continue_with (r, (lookup io keccak256 (accounts_table d.cfg) address d).1)
              (λ found. pure (account_of d.cfg address found))).0)
          e
      ∙ λ j.
          ok (some (record { address = address; nonce = (numbers j).0; balance = (numbers j).1 }))

  -- An existing account, set: its record is rewritten in its slot.
  pub record Rewritten (address : Bytes) (nonce balance : ℕ) (d : Drive S) : Type 0 where
    pub index : ℕ
    pub before : Bytes
    pub after : Bytes
    pub found_before :
        (lookup io keccak256 (accounts_table d.cfg) address d).0 ≡ ok (some (index, before))
    pub place : Located io keccak256 (accounts_table d.cfg) address d.store index before
    pub after_length : length after ≡ d.cfg.slot_size
    pub after_address : slice 0 20 after ≡ address
    pub after_numbers : decode_account d.cfg after ≡ (nonce, balance)
    pub wrote :
        set_account io keccak256 (raw address) nonce balance d
        ≡ (ok tt, written laws (accounts_table d.cfg) index after d)

  Rewritten-at :
      (address : Bytes) (nonce balance i : ℕ) (old : Bytes) (d : Drive S)
      → FitsIn laws (accounts_table d.cfg) d.store
      → record_size d.cfg ≤ d.cfg.slot_size
      → length address ≡ 20
      → is_zero address ≡ false
      → nonce < 256 ^ nonce_bytes d.cfg
      → balance < 256 ^ balance_bytes d.cfg
      → (lookup io keccak256 (accounts_table d.cfg) address d).0 ≡ ok (some (i, old))
      → Rewritten address nonce balance d
  unfolding accounts_table
  Rewritten-at address nonce balance i old d fits room len nonzero small_nonce small_balance e =
      let t = accounts_table d.cfg in
      let at = located address i old d e in
      let old_len = Located-length t address i old d.store fits at in
      let (rec, enc, holds) =
        decode-encode_account d.cfg address nonce balance len small_nonce small_balance in
      let (field, numbers) =
        splice-Holds d.cfg address nonce balance rec old holds (omega (arith, room, old_len)) in
      let new_len = length-splice 0 rec old ∙ old_len in
      record {
        index = i;
        before = old;
        after = splice 0 rec old;
        found_before = e;
        place = at;
        after_length = new_len;
        after_address = field;
        after_numbers = numbers;
        wrote =
            set_account_found address nonce balance i old rec d len nonzero enc
              (omega (arith, room, old_len, holds.whole)) e
            ∙ write_slot_inside laws t i (splice 0 rec old) d fits at.located_inside new_len;
      }

  pub set_account-Rewritten :
      (address : Bytes) (nonce balance : ℕ) (a : Account) (d : Drive S)
      → FitsIn laws (accounts_table d.cfg) d.store
      → record_size d.cfg ≤ d.cfg.slot_size
      → length address ≡ 20
      → is_zero address ≡ false
      → nonce < 256 ^ nonce_bytes d.cfg
      → balance < 256 ^ balance_bytes d.cfg
      → (get_account io keccak256 (raw address) d).0 ≡ ok (some a)
      → Rewritten address nonce balance d
  set_account-Rewritten address nonce balance a d fits room len nonzero small_nonce small_balance
        found =
      let read =
        ap (λ (p : Result (Option Account) × Drive S). p.0)
          (get_account_steps address d len nonzero) in
      let (i, old, e) =
        found_of d.cfg address a (lookup io keccak256 (accounts_table d.cfg) address d)
          (sym read ∙ found) in
      Rewritten-at address nonce balance i old d fits room len nonzero small_nonce small_balance e

  -- In a drive whose account table lies inside its store, with slots that hold a record, an
  -- account that exists, set to a nonce and a balance that fit their fields, is set without a
  -- throw and reads back with that nonce and balance.
  pub set_account-get_account :
      (address : Bytes) (nonce balance : ℕ) (a : Account) (d : Drive S)
      → FitsIn laws (accounts_table d.cfg) d.store
      → record_size d.cfg ≤ d.cfg.slot_size
      → length address ≡ 20
      → is_zero address ≡ false
      → nonce < 256 ^ nonce_bytes d.cfg
      → balance < 256 ^ balance_bytes d.cfg
      → (get_account io keccak256 (raw address) d).0 ≡ ok (some a)
      → ((set_account io keccak256 (raw address) nonce balance d).0 ≡ ok tt)
        × ((get_account io keccak256
              (raw address)
              (set_account io keccak256 (raw address) nonce balance d).1).0
            ≡ ok (some (record { address = address; nonce = nonce; balance = balance })))
  unfolding accounts_table
  set_account-get_account address nonce balance a d fits room len nonzero small_nonce small_balance
        found =
      let r =
        set_account-Rewritten address nonce balance a d fits room len nonzero small_nonce
          small_balance found in
      let again =
        lookup-written address r.index r.before r.after d fits r.place.located_inside r.after_length
          r.after_address nonzero r.found_before in
      (
        ap (λ (p : Result (Unit {0}) × Drive S). p.0) r.wrote,
        ap (λ (p : Result (Unit {0}) × Drive S). (get_account io keccak256 (raw address) p.1).0)
              r.wrote
            ∙ get_account_read address nonce balance r.index r.after
                (written laws (accounts_table d.cfg) r.index r.after d) len nonzero again
                r.after_numbers,
      )
