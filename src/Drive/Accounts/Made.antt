-- ===== src/Drive/Accounts/Made.antt =====
-- The record of a new account (accounts-drive/js/src/drive.ts, `setAccount`).
use op_cartesi.Base.{
  ℕ, ◌^◌, ◌≤◌, ◌<◌, ◌≡◌, refl, ◌∙◌, true, false, arith, length, replicate, length-replicate, ok,
}
use op_cartesi.Bytes.{Bytes, splice, is_zero}
use op_cartesi.Bytes.Splice.{length-splice}
use op_cartesi.Drive.Types.{NormalizedConfig}
use op_cartesi.Drive.Table.{account_key, accounts_table, live}
use op_cartesi.Drive.Accounts.{decode_account, encode_account, set_bytes}
use op_cartesi.Drive.Accounts.Codec.{record_size, nonce_bytes, balance_bytes, decode-encode_account}
use op_cartesi.Drive.Accounts.InPlace.{set_bytes_lem, splice-Holds}

-- A record as the program makes it: as long as a slot, under the account's key, and not free.
pub record IsRecord (cfg : NormalizedConfig) (address : Bytes) (nonce balance : ℕ) (full : Bytes)
    : Type 0 where
  pub full_length : length full ≡ (accounts_table cfg).slot_size
  pub full_key : (accounts_table cfg).key_of full ≡ address
  pub full_live : live (accounts_table cfg) full ≡ true
  pub full_numbers : decode_account cfg full ≡ (nonce, balance)

pub made :
    (cfg : NormalizedConfig) (address : Bytes) (nonce balance : ℕ)
    → record_size cfg ≤ cfg.slot_size
    → length address ≡ 20
    → is_zero address ≡ false
    → nonce < 256 ^ nonce_bytes cfg
    → balance < 256 ^ balance_bytes cfg
    → (rec : Bytes) × (encode_account cfg address nonce balance ≡ ok rec)
      × (set_bytes 0 rec (replicate cfg.slot_size 0)
          ≡ ok (splice 0 rec (replicate cfg.slot_size 0)))
      × IsRecord cfg address nonce balance (splice 0 rec (replicate cfg.slot_size 0))
unfolding accounts_table account_key live
made cfg address nonce balance room len nonzero small_nonce small_balance =
    let (rec, enc, holds) =
      decode-encode_account cfg address nonce balance len small_nonce small_balance in
    let blank = replicate cfg.slot_size 0 in
    let blank_len : length blank ≡ cfg.slot_size = length-replicate cfg.slot_size 0 in
    let (field, numbers) =
      splice-Holds cfg address nonce balance rec blank holds (omega (arith, room, blank_len)) in
    (
      rec,
      enc,
      set_bytes_lem 0 rec blank (omega (arith, room, blank_len, holds.whole)),
      record {
        full_length = length-splice 0 rec blank ∙ blank_len;
        full_key = field;
        full_live = rw (field, nonzero) refl;
        full_numbers = numbers;
      },
    )
