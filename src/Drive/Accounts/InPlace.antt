-- ===== src/Drive/Accounts/InPlace.antt =====
-- A record written over the beginning of its slot (accounts-drive/js/src/drive.ts, `setAccount` and
-- `#decodeAccount`).
use op_cartesi.Base.{
  ℕ, ◌+◌, ◌≤◌, ◌≡◌, refl, ap, ◌∙◌, inl, inr, Bool, true, false, arith, if◌then◌else◌, le→ltb_false,
  Bool-cases, length, ok,
}
use op_cartesi.Bytes.{Bytes, slice, splice, read_be, get_le}
use op_cartesi.Bytes.Splice.{slice-splice_inside}
use op_cartesi.Drive.Types.{NormalizedConfig}
use op_cartesi.Drive.Registry.{compact}
use op_cartesi.Drive.Accounts.{set_bytes, decode_account, set_bytes}
use op_cartesi.Drive.Accounts.Codec.{record_size, Holds}
use mathlib.Core.Path.{subst}

compact_numbers :
    (cfg : NormalizedConfig) (rec : Bytes) (nonce balance : ℕ)
    → compact cfg ≡ true
    → decode_account cfg rec ≡ (nonce, balance)
    → ◌≡◌ {A = ℕ × ℕ} (get_le (slice 20 4 rec), read_be (slice 24 8 rec)) (nonce, balance)
unfolding decode_account
compact_numbers cfg rec nonce balance c e =
    subst
      (λ (b : Bool).
        ◌≡◌ {A = ℕ × ℕ}
          (if b
            then (get_le (slice 20 4 rec), read_be (slice 24 8 rec))
            else (get_le (slice 24 8 rec), read_be (slice 32 32 rec)))
          (nonce, balance))
      c e

standard_numbers :
    (cfg : NormalizedConfig) (rec : Bytes) (nonce balance : ℕ)
    → compact cfg ≡ false
    → decode_account cfg rec ≡ (nonce, balance)
    → ◌≡◌ {A = ℕ × ℕ} (get_le (slice 24 8 rec), read_be (slice 32 32 rec)) (nonce, balance)
unfolding decode_account
standard_numbers cfg rec nonce balance c e =
    subst
      (λ (b : Bool).
        ◌≡◌ {A = ℕ × ℕ}
          (if b
            then (get_le (slice 20 4 rec), read_be (slice 24 8 rec))
            else (get_le (slice 24 8 rec), read_be (slice 32 32 rec)))
          (nonce, balance))
      c e

-- A record written over the beginning of its slot keeps its fields.
pub set_bytes_lem :
    (off : ℕ) (b slot : Bytes)
    → off + length b ≤ length slot
    → set_bytes off b slot ≡ ok (splice off b slot)
unfolding set_bytes
set_bytes_lem off b slot fits = rw (le→ltb_false (off + length b) (length slot) fits) refl

pub splice-Holds :
    (cfg : NormalizedConfig) (addr : Bytes) (nonce balance : ℕ) (rec slot : Bytes)
    → Holds cfg addr nonce balance rec
    → record_size cfg ≤ length slot
    → (slice 0 20 (splice 0 rec slot) ≡ addr)
      × (decode_account cfg (splice 0 rec slot) ≡ (nonce, balance))
unfolding decode_account
splice-Holds cfg addr nonce balance rec slot holds room = elim (Bool-cases (compact cfg)) [
  | inl c ↦
      let size : length rec ≡ 32 = holds.whole ∙ ap (λ (b : Bool). if b then 32 else 64) c in
      let fits : length rec ≤ length slot = omega (arith, holds.whole, room) in
      (
        slice-splice_inside 0 20 rec slot (omega (arith, size)) fits ∙ holds.address_field,
        rw
            (
              c,
              slice-splice_inside 20 4 rec slot (omega (arith, size)) fits,
              slice-splice_inside 24 8 rec slot (omega (arith, size)) fits,
            )
            (compact_numbers cfg rec nonce balance c holds.numbers),
      )
  | inr c ↦
      let size : length rec ≡ 64 = holds.whole ∙ ap (λ (b : Bool). if b then 32 else 64) c in
      let fits : length rec ≤ length slot = omega (arith, holds.whole, room) in
      (
        slice-splice_inside 0 20 rec slot (omega (arith, size)) fits ∙ holds.address_field,
        rw
            (
              c,
              slice-splice_inside 24 8 rec slot (omega (arith, size)) fits,
              slice-splice_inside 32 32 rec slot (omega (arith, size)) fits,
            )
            (standard_numbers cfg rec nonce balance c holds.numbers),
      )
]
