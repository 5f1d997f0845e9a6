-- ===== src/Drive/Balances.antt =====
-- Token balances (accounts-drive/js/src/drive.ts, `getTokenBalance`, `setTokenBalance` and
-- `#putSparseBalance`).
use op_cartesi.Base.{
  pure, throw, gets, reads, throw_if, if_some, ◌>>=◌, ℕ, zero, suc, ◌/◌, ◌%◌, ◌^◌, none, some, List,
  [], ◌∷◌, leb, ◌==◌, if◌then◌else◌, get_or, replicate, Act, ◌>>◌, table_full, overflow,
  unknown_token, profile, drive, Result, ok, err,
}
use op_cartesi.Bytes.{Bytes, slice, splice, read_be, put_be}
use op_cartesi.Store.{Store}
use op_cartesi.Drive.Types.{
  profile_wide, profile_sparse, AddressLike, Token, NormalizedConfig, Drive,
}
use op_cartesi.Drive.Table.{
  accounts_table, sparse_table, sparse_key, counter, write_slot, lookup, insert, remove,
}
use op_cartesi.Drive.Accounts.{set_bytes, nonzero_address, insert_new}

-- `putBE(slot.subarray(off, off + n), v)`: the slot with the value written into it.
unfoldable pub put_field : ℕ → ℕ → Bytes → ℕ → Result Bytes
put_field off n slot v = elim (put_be n v) [ err e ↦ err e | ok b ↦ ok (splice off b slot) ]

unfoldable pub put_sparse_balance : NormalizedConfig → Bytes → ℕ → Result Bytes
unfolding put_field
put_sparse_balance cfg slot v =
    if cfg.sparse_slot_size == 32 then put_field 24 8 slot v else put_field 32 32 slot v

unfoldable pub sparse_balance : NormalizedConfig → Bytes → ℕ
sparse_balance cfg slot =
    if cfg.sparse_slot_size == 32 then read_be (slice 24 8 slot) else read_be (slice 32 32 slot)

-- A new sparse record before its balance is written.
unfoldable pub sparse_record : ℕ → ℕ → Bytes → Result Bytes
sparse_record slot_size id address =
    set_bytes 4 address (splice 0 ((id % 256) ∷ (id / 256 % 256) ∷ []) (replicate slot_size 0))

-- The width of a registered token: the tests for an unknown id come first.
unfoldable pub token_width : ℕ → List Token → Result ℕ
token_width id [] = err (drive unknown_token)
token_width zero (t ∷ ts) = ok t.width
token_width (suc id) (t ∷ ts) = token_width id ts

module _ {S : Type 0} (io : Store S) (keccak256 : Bytes → Bytes) where
  unfoldable pub wide_balance : Bytes → ℕ → ℕ → Act (Drive S) ℕ
  wide_balance address id width = do
    cfg ← gets (λ d. d.cfg)
    found ← lookup io keccak256 (accounts_table cfg) address
    off ← gets (λ d. get_or d.col_off id 0)
    pure (elim found [ none ↦ 0 | some (i, slot) ↦ read_be (slice off width slot) ])

  unfoldable pub read_sparse_balance : Bytes → ℕ → Act (Drive S) ℕ
  unfolding sparse_balance
  read_sparse_balance address id = do
    cfg ← gets (λ d. d.cfg)
    found ← lookup io keccak256 (sparse_table cfg) (sparse_key id address)
    pure (elim found [ none ↦ 0 | some (i, slot) ↦ sparse_balance cfg slot ])

  unfoldable pub get_token_balance : AddressLike → ℕ → Act (Drive S) ℕ
  unfolding nonzero_address token_width wide_balance read_sparse_balance
  get_token_balance addr id = do
    address ← nonzero_address addr
    width ← reads (λ d. token_width id d.tokens)
    profile_of ← gets (λ d. d.cfg.profile)
    if profile_of == profile_wide
        then wide_balance address id width
        else if profile_of == profile_sparse
        then read_sparse_balance address id
        else throw (drive profile)

  unfoldable pub set_wide_balance : Bytes → ℕ → ℕ → ℕ → Act (Drive S) (Unit {0})
  unfolding put_field insert_new
  set_wide_balance address id width v = do
    cfg ← gets (λ d. d.cfg)
    let t = accounts_table cfg
    found ← lookup io keccak256 t address
    off ← gets (λ d. get_or d.col_off id 0)
    if_some found
        (λ (i, slot). do slot' ← reads (λ d. put_field off width slot v); write_slot io t i slot')
        (if v == 0 then pure tt else (do
          n ← counter io t.count_off
          throw_if (leb t.limit n) (drive table_full)
          blank ← reads (λ d. set_bytes 0 address (replicate t.slot_size 0))
          full ← reads (λ d. put_field off width blank v)
          insert io keccak256 t full))

  unfoldable pub set_sparse_balance : Bytes → ℕ → ℕ → Act (Drive S) (Unit {0})
  unfolding put_sparse_balance sparse_record
  set_sparse_balance address id v = do
    cfg ← gets (λ d. d.cfg)
    let t = sparse_table cfg
    found ← lookup io keccak256 t (sparse_key id address)
    if_some found
        (λ (i, slot).
          if v == 0
          then remove io keccak256 t i
          else (do slot' ← reads (λ d. put_sparse_balance cfg slot v); write_slot io t i slot'))
        (if v == 0 then pure tt else (do
          n ← counter io t.count_off
          throw_if (leb t.limit n) (drive table_full)
          blank ← reads (λ d. sparse_record t.slot_size id address)
          rec ← reads (λ d. put_sparse_balance cfg blank v)
          insert io keccak256 t rec))

  unfoldable pub set_token_balance : AddressLike → ℕ → ℕ → Act (Drive S) (Unit {0})
  unfolding nonzero_address token_width set_wide_balance set_sparse_balance
  set_token_balance addr id v = do
    address ← nonzero_address addr
    width ← reads (λ d. token_width id d.tokens)
    throw_if (leb (256 ^ width) v) (drive overflow)
    profile_of ← gets (λ d. d.cfg.profile)
    if profile_of == profile_wide
        then set_wide_balance address id width v
        else if profile_of == profile_sparse
        then set_sparse_balance address id v
        else throw (drive profile)
