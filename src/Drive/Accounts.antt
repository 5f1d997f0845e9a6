-- ===== src/Drive/Accounts.antt =====
-- Account records (accounts-drive/js/src/drive.ts, `#decodeAccount`, `#encodeAccount`, `getAccount`,
-- `setAccount` and `deleteAccount`).
pub mod Codec
pub mod InPlace
pub mod ReadBack
pub mod Apart
pub mod Made
pub mod Created
use op_cartesi.Base.{
  pure, gets, reads, throw_if, if_some, ◌>>=◌, ℕ, ◌+◌, Bool, true, false, not, ◌&&◌, Option, none,
  some, ltb, leb, ◌==◌, if◌then◌else◌, length, replicate, Act, ◌>>◌, table_full, overflow,
  nonce_protected, zero_address, out_of_range, drive, error, Result, ok, err,
}
use op_cartesi.Bytes.{Bytes, slice, splice, is_zero, read_be, put_be, get_le, put_le}
use op_cartesi.Store.{Store}
use op_cartesi.Drive.Types.{AddressLike, Account, NormalizedConfig, Drive}
use op_cartesi.Drive.Config.{to_address}
use op_cartesi.Drive.Table.{accounts_table, counter, write_slot, lookup, insert, remove, Table}
use op_cartesi.Drive.Registry.{compact}

-- The nonce and the balance of a live slot.
unfoldable pub decode_account : NormalizedConfig → Bytes → ℕ × ℕ
decode_account cfg slot =
    if compact cfg
    then (get_le (slice 20 4 slot), read_be (slice 24 8 slot))
    else (get_le (slice 24 8 slot), read_be (slice 32 32 slot))

-- A record of 32 or of 64 bytes. The standard record keeps the nonce's low 64 bits.
unfoldable pub encode_account : NormalizedConfig → Bytes → ℕ → ℕ → Result Bytes
encode_account cfg addr nonce balance =
    if compact cfg
    then (if ltb 0xffff_ffff nonce then err (drive overflow) else elim (put_be 8 balance) [
      | err e ↦ err e
      | ok b ↦ ok (splice 24 b (splice 20 (put_le 4 nonce) (splice 0 addr (replicate 32 0))))
    ])
    else elim (put_be 32 balance) [
      | err e ↦ err e
      | ok b ↦ ok (splice 32 b (splice 24 (put_le 8 nonce) (splice 0 addr (replicate 64 0))))
    ]

-- `Uint8Array.set`, which throws on what does not fit.
unfoldable pub set_bytes : ℕ → Bytes → Bytes → Result Bytes
set_bytes off b slot =
    if ltb (length slot) (off + length b) then err (error out_of_range) else ok (splice off b slot)

module _ {S : Type 0} where
  -- The bytes of an address argument; the zero address is refused.
  unfoldable pub nonzero_address : AddressLike → Act (Drive S) Bytes
  nonzero_address addr = do
    address ← reads (λ d. to_address addr)
    throw_if (is_zero address) (drive zero_address)
    pure address

module _ {S : Type 0} (io : Store S) (keccak256 : Bytes → Bytes) where
  unfoldable pub get_account : AddressLike → Act (Drive S) (Option Account)
  unfolding nonzero_address decode_account
  get_account addr = do
    address ← nonzero_address addr
    cfg ← gets (λ d. d.cfg)
    found ← lookup io keccak256 (accounts_table cfg) address
    pure (elim found [
      | none ↦ none
      | some (i, slot) ↦
          let (nonce, balance) = decode_account cfg slot in
          some (record { address = address; nonce = nonce; balance = balance })
    ])

  -- `#insert` of a new record, which is made behind the load limit.
  unfoldable pub insert_new : Table → Result Bytes → Act (Drive S) (Unit {0})
  insert_new t record_made = do
    n ← counter io t.count_off
    throw_if (leb t.limit n) (drive table_full)
    full ← reads (λ d. record_made)
    insert io keccak256 t full

  unfoldable pub set_account : AddressLike → ℕ → ℕ → Act (Drive S) (Unit {0})
  unfolding nonzero_address encode_account set_bytes insert_new
  set_account addr nonce balance = do
    address ← nonzero_address addr
    cfg ← gets (λ d. d.cfg)
    rec ← reads (λ d. encode_account cfg address nonce balance)
    let t = accounts_table cfg
    found ← lookup io keccak256 t address
    if_some found
        (λ (i, slot). do slot' ← reads (λ d. set_bytes 0 rec slot); write_slot io t i slot')
        (insert_new t (set_bytes 0 rec (replicate t.slot_size 0)))

  unfoldable pub delete_account : AddressLike → Bool → Act (Drive S) Bool
  unfolding nonzero_address decode_account
  delete_account addr force = do
    address ← nonzero_address addr
    cfg ← gets (λ d. d.cfg)
    let t = accounts_table cfg
    found ← lookup io keccak256 t address
    if_some found
        (λ (i, slot). do
          throw_if (not force && not ((decode_account cfg slot).0 == 0)) (drive nonce_protected)
          remove io keccak256 t i
          pure true)
        (pure false)
