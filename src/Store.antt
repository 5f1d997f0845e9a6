-- ===== src/Store.antt =====
-- The byte store of the accounts drive (accounts-drive/js/src/store.ts): the interface `Store`, and
-- `MemStore` with its bounds. Offsets are natural, and an offset past 2 ^ 53 is past the end of
-- any array, so that the test for a safe integer adds nothing here.
pub mod Laws
use op_cartesi.Base.{ℕ, ◌+◌, leb, if◌then◌else◌, length, Act, out_of_bounds, error, Result, ok, err}
use op_cartesi.Bytes.{Bytes, slice, splice}

pub record Store (S : Type 0) : Type 0 where
  pub read_at : ℕ → ℕ → S → Result Bytes
  pub write_at : ℕ → Bytes → Act S (Unit {0})

abbrev pub mem_read : ℕ → ℕ → Bytes → Result Bytes
mem_read off len bytes =
    if leb (off + len) (length bytes) then ok (slice off len bytes) else err (error out_of_bounds)

abbrev pub mem_write : ℕ → Bytes → Act Bytes (Unit {0})
mem_write off vs bytes =
    if leb (off + length vs) (length bytes)
    then (ok tt, splice off vs bytes)
    else (err (error out_of_bounds), bytes)

abbrev pub mem_store : Store Bytes
mem_store = record { read_at = mem_read; write_at = mem_write }
