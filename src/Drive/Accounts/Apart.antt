-- ===== src/Drive/Accounts/Apart.antt =====
-- Setting one account leaves the others (accounts-drive/js/src/drive.ts, `getAccount` and
-- `setAccount`).
use op_cartesi.Base.{
  pure, ℕ, ◌^◌, ◌≤◌, ◌<◌, ◌≡◌, refl, sym, ap, ◌∙◌, ◌≢◌, false, Option, some, length, continue_with,
  Result, ok, err,
}
use op_cartesi.Bytes.{Bytes, slice, is_zero}
use op_cartesi.Bytes.Equal.{eq_of_bytes_equal, bytes_equal_other}
use op_cartesi.Store.{Store}
use op_cartesi.Store.Laws.{IsByteStore}
use op_cartesi.Drive.Types.{raw, Account, NormalizedConfig, Drive}
use op_cartesi.Drive.Table.{account_key, accounts_table, live, lookup}
use op_cartesi.Drive.Table.Slots.{written, written_slot, written_others, FitsIn}
use op_cartesi.Drive.Table.Search.{lookup_search, lookup-some}
use op_cartesi.Drive.Table.Others.{lookup_from-other}
use op_cartesi.Drive.Accounts.{get_account, set_account}
use op_cartesi.Drive.Accounts.Codec.{record_size, nonce_bytes, balance_bytes}
use op_cartesi.Drive.Accounts.ReadBack.{
  account_of, get_account_steps, set_account-Rewritten, Rewritten,
}
use mathlib.Core.Path.{subst}

module _ {S : Type 0} {io : Store S} (laws : IsByteStore io) (keccak256 : Bytes → Bytes) where
  lookup-Rewritten :
      (address other : Bytes) (nonce balance : ℕ) (d : Drive S)
      (r : Rewritten laws keccak256 address nonce balance d)
      → FitsIn laws (accounts_table d.cfg) d.store
      → is_zero address ≡ false
      → address ≢ other
      → (lookup io keccak256
          (accounts_table d.cfg)
          other
          (written laws (accounts_table d.cfg) r.index r.after d)).0
        ≡ (lookup io keccak256 (accounts_table d.cfg) other d).0
  unfolding accounts_table live account_key
  lookup-Rewritten address other nonce balance d r fits nonzero differs =
      let t = accounts_table d.cfg in
      let z = lookup-some io keccak256 t address r.index r.before d r.found_before in
      let key_before : slice 0 20 r.before ≡ address =
        eq_of_bytes_equal _ address r.place.located_key in
      lookup_search io keccak256 t other (written laws t r.index r.after d) z
      ∙ lookup_from-other io keccak256 d.cfg.seed t other _ t.capacity 0 r.index r.before r.after
          d.store (written laws t r.index r.after d).store r.place.located_slot
          (written_slot laws t r.index r.after d fits r.place.located_inside r.after_length)
          r.place.located_live (rw (live, r.after_address, nonzero) refl)
          (r.after_address ∙ sym key_before)
          (bytes_equal_other (slice 0 20 r.before) other
            (subst (λ (b : Bytes). b ≢ other) (sym key_before) differs))
          (λ j apart. written_others laws t r.index j r.after d r.after_length apart)
      ∙ sym (lookup_search io keccak256 t other d z)

  answer_same :
      (cfg : NormalizedConfig) (other : Bytes) (r : Result (Option (ℕ × Bytes))) (d e : Drive S)
      → (continue_with (r, d) (λ found. pure (account_of laws keccak256 cfg other found))).0
        ≡ (continue_with (r, e) (λ found. pure (account_of laws keccak256 cfg other found))).0
  unfolding pure
  answer_same cfg other (ok found) d e = refl
  answer_same cfg other (err x) d e = refl

  -- In a drive whose account table lies inside its store, with slots that hold a record, an
  -- account that exists, set to a nonce and a balance that fit their fields, leaves what is
  -- read at every other nonzero address of 20 bytes as it was.
  pub get_account-set_account_other :
      (address other : Bytes) (nonce balance : ℕ) (a : Account) (d : Drive S)
      → FitsIn laws (accounts_table d.cfg) d.store
      → record_size d.cfg ≤ d.cfg.slot_size
      → length address ≡ 20
      → is_zero address ≡ false
      → nonce < 256 ^ nonce_bytes d.cfg
      → balance < 256 ^ balance_bytes d.cfg
      → (get_account io keccak256 (raw address) d).0 ≡ ok (some a)
      → address ≢ other
      → length other ≡ 20
      → is_zero other ≡ false
      → (get_account io keccak256
          (raw other)
          (set_account io keccak256 (raw address) nonce balance d).1).0
        ≡ (get_account io keccak256 (raw other) d).0
  get_account-set_account_other address other nonce balance a d fits room len nonzero small_nonce
        small_balance found differs other_len other_nonzero =
      let t = accounts_table d.cfg in
      let r =
        set_account-Rewritten laws keccak256 address nonce balance a d fits room len nonzero
          small_nonce small_balance found in
      let e = written laws t r.index r.after d in
      let first = λ (p : Result (Option Account) × Drive S). p.0 in
      ap (λ (p : Result (Unit {0}) × Drive S). (get_account io keccak256 (raw other) p.1).0) r.wrote
      ∙ ap first (get_account_steps laws keccak256 other e other_len other_nonzero)
      ∙ answer_same d.cfg other (lookup io keccak256 t other e).0 _
          (lookup io keccak256 t other d).1
      ∙ ap
          (λ (x : Result (Option (ℕ × Bytes))).
            (continue_with (x, (lookup io keccak256 t other d).1)
              (λ found. pure (account_of laws keccak256 d.cfg other found))).0)
          (lookup-Rewritten address other nonce balance d r fits nonzero differs)
      ∙ sym (ap first (get_account_steps laws keccak256 other d other_len other_nonzero))
