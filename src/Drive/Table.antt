-- ===== src/Drive/Table.antt =====
-- The probing tables (accounts-drive/js/src/drive.ts, the counters, `Table`, `#lookup`, `#insert`
-- and `#remove`): Robin Hood hashing over the bytes of a store. The hash is a parameter.
pub mod Walk
pub mod Slots
pub mod Insert
pub mod Remove
pub mod Found
pub mod Search
pub mod Located
pub mod Others
pub mod Order
pub mod Finds
pub mod Shift
pub mod Turn
pub mod Held
pub mod Placed
pub mod Inserted
pub mod Contents
use op_cartesi.Base.{
  pure, throw, gets, reads, throw_if, ◌>>=◌, ℕ, zero, suc, ◌+◌, ◌-◌, ◌*◌, ◌/◌, ◌%◌, ◌^◌, Bool, not,
  ◌||◌, Option, none, some, ◌∷◌, ◌++◌, ltb, ◌==◌, if◌then◌else◌, replicate, Act, ◌>>◌,
  division_by_zero, error, never_ends, Result, ok, err,
}
use op_cartesi.Bytes.{Bytes, slice, is_zero, bytes_equal, get_le, put_le}
use op_cartesi.Store.{Store}
use op_cartesi.Drive.Types.{
  off_live_count, off_token_count, off_sparse_live_count, NormalizedConfig, Drive,
}

-- A table's place, limits and key: `key_of` reads a record's key, and a slot is live if the twenty
-- bytes from `live_off` on are not all zero.
pub record Table : Type 0 where
  pub base : ℕ
  pub capacity : ℕ
  pub slot_size : ℕ
  pub count_off : ℕ
  pub limit : ℕ
  pub key_of : Bytes → Bytes
  pub live_off : ℕ

unfoldable pub account_key : Bytes → Bytes
account_key slot = slice 0 20 slot

unfoldable pub accounts_table : NormalizedConfig → Table
accounts_table cfg = record {
  base = cfg.table_offset;
  capacity = cfg.capacity;
  slot_size = cfg.slot_size;
  count_off = off_live_count;
  limit = cfg.load_limit;
  key_of = account_key;
  live_off = 0;
}

unfoldable pub sparse_slot_key : Bytes → Bytes
sparse_slot_key slot = slice 0 2 slot ++ slice 4 20 slot

unfoldable pub sparse_table : NormalizedConfig → Table
sparse_table cfg = record {
  base = cfg.sparse_offset;
  capacity = cfg.sparse_capacity;
  slot_size = cfg.sparse_slot_size;
  count_off = off_sparse_live_count;
  limit = cfg.sparse_load_limit;
  key_of = sparse_slot_key;
  live_off = 4;
}

-- `sparseKey`: the id in two little-endian bytes, then the address.
unfoldable pub sparse_key : ℕ → Bytes → Bytes
sparse_key id addr = (id % 256) ∷ (id / 256 % 256) ∷ addr

unfoldable pub live : Table → Bytes → Bool
live t slot = not (is_zero (slice t.live_off 20 slot))

module _ (keccak256 : Bytes → Bytes) where
  -- With a capacity of 0 the program throws, which `lookup` and `insert` test first.
  unfoldable pub home : Bytes → Bytes → ℕ → ℕ
  home seed key capacity = get_le (slice 0 8 (keccak256 (seed ++ key))) % capacity

  unfoldable pub displacement : Bytes → Table → Bytes → ℕ → ℕ
  displacement seed t slot at =
      (at + t.capacity - home seed (t.key_of slot) t.capacity) % t.capacity

module _ {S : Type 0} (io : Store S) where
  unfoldable pub counter : ℕ → Act (Drive S) ℕ
  counter off = do b ← reads (λ d. io.read_at off 8 d.store); pure (get_le b)

  unfoldable pub write_store : ℕ → Bytes → Act (Drive S) (Unit {0})
  write_store off b d = let (r, s) = io.write_at off b d.store in (r, record d { store = s })

  unfoldable pub set_counter : ℕ → ℕ → Act (Drive S) (Unit {0})
  unfolding write_store
  set_counter off v = write_store off (put_le 8 v)

  unfoldable pub live_count : Act (Drive S) ℕ
  live_count = counter off_live_count

  unfoldable pub sparse_live_count : Act (Drive S) ℕ
  sparse_live_count = counter off_sparse_live_count

  unfoldable pub token_count : Act (Drive S) ℕ
  token_count = counter off_token_count

  unfoldable pub read_slot : Table → ℕ → S → Result Bytes
  read_slot t i s = io.read_at (t.base + t.slot_size * i) t.slot_size s

  unfoldable pub write_slot : Table → ℕ → Bytes → Act (Drive S) (Unit {0})
  unfolding write_store
  write_slot t i slot = write_store (t.base + t.slot_size * i) slot

  module _ (keccak256 : Bytes → Bytes) where
    -- `rounds` iterations of the loop are left.
    unfoldable pub lookup_from : Bytes → Table → Bytes → ℕ → ℕ → ℕ → S → Result (Option (ℕ × Bytes))
    lookup_from seed t key h zero dist s = ok none
    lookup_from seed t key h (suc rounds) dist s =
        let i = (h + dist) % t.capacity in
        let rest = lookup_from seed t key h rounds (dist + 1) s in
        elim (read_slot t i s) [
          | err e ↦ err e
          | ok slot ↦
              if not (live t slot)
              then ok none
              else if bytes_equal (t.key_of slot) key
              then ok (some (i, slot))
              else if ltb (displacement keccak256 seed t slot i) dist
              then ok none
              else rest
        ]

    unfoldable pub lookup : Table → Bytes → Act (Drive S) (Option (ℕ × Bytes))
    unfolding lookup_from
    lookup t key = do
      throw_if (t.capacity == 0) (error division_by_zero)
      reads (λ d.
          lookup_from d.cfg.seed t key (home keccak256 d.cfg.seed key t.capacity) t.capacity 0
            d.store)

    -- The loop of `#insert` on fuel.
    unfoldable pub insert_from : Table → ℕ → Bytes → ℕ → ℕ → Act (Drive S) (Unit {0})
    unfolding write_slot counter set_counter
    insert_from t zero carry h dist = throw never_ends
    insert_from t (suc fuel) carry h dist = do
      let i = (h + dist) % t.capacity
      slot ← reads (λ d. read_slot t i d.store)
      seed ← gets (λ d. d.cfg.seed)
      let disp = displacement keccak256 seed t slot i
      if not (live t slot)
          then (do write_slot t i carry; n ← counter t.count_off; set_counter t.count_off (n + 1))
          else if ltb disp dist
          then (do
            write_slot t i carry
            insert_from t fuel slot (home keccak256 seed (t.key_of slot) t.capacity) (disp + 1))
          else insert_from t fuel carry h (dist + 1)

    -- One round for each slot is enough while a slot is free.
    unfoldable pub insert : Table → Bytes → Act (Drive S) (Unit {0})
    unfolding insert_from
    insert t rec = do
      throw_if (t.capacity == 0) (error division_by_zero)
      seed ← gets (λ d. d.cfg.seed)
      insert_from t t.capacity rec (home keccak256 seed (t.key_of rec) t.capacity) 0

    -- The loop of `#remove` on fuel. The count goes down by one modulo 2 ^ 64.
    unfoldable pub remove_from : Table → ℕ → ℕ → Act (Drive S) (Unit {0})
    unfolding write_slot counter set_counter
    remove_from t zero i = throw never_ends
    remove_from t (suc fuel) i = do
      let j = (i + 1) % t.capacity
      next ← reads (λ d. read_slot t j d.store)
      seed ← gets (λ d. d.cfg.seed)
      if not (live t next) || (displacement keccak256 seed t next j == 0)
          then (do
            write_slot t i (replicate t.slot_size 0)
            n ← counter t.count_off
            set_counter t.count_off (n + 2 ^ 64 - 1))
          else (do write_slot t i next; remove_from t fuel j)

    unfoldable pub remove : Table → ℕ → Act (Drive S) (Unit {0})
    unfolding remove_from
    remove t i = remove_from t t.capacity i
