-- ===== src/Drive/Registry.antt =====
-- The token registry (accounts-drive/js/src/drive.ts, `reloadRegistry`, `tokens`, `tokenByAddress`
-- and `registerToken`).
use op_cartesi.Base.{
  pure, gets, reads, throw_if, ◌>>=◌, ℕ, zero, suc, ◌+◌, ◌*◌, Bool, not, ◌&&◌, ◌||◌, Option, none,
  some, List, [], ◌∷◌, ◌++◌, ltb, leb, ◌==◌, if◌then◌else◌, length, get_or, replicate, Act, ◌>>◌,
  table_full, registry_full, duplicate_token, bad_width, profile, bad_token_count, drive, error,
  Result, ok, err,
}
use op_cartesi.Bytes.{Bytes, slice, splice, bytes_equal}
use op_cartesi.Store.{Store}
use op_cartesi.Drive.Types.{
  profile_single_asset, profile_wide, profile_sparse, off_token_count, AddressLike, Token,
  ResolvedToken, NormalizedConfig, Drive,
}
use op_cartesi.Drive.Config.{to_address}
use op_cartesi.Drive.Table.{write_store, set_counter, token_count}

unfoldable pub is_width : ℕ → Bool
is_width w = (w == 8) || (w == 16) || (w == 32)

-- `#compact`
unfoldable pub compact : NormalizedConfig → Bool
compact cfg = (cfg.profile == profile_single_asset) && (cfg.slot_size == 32)

-- The search of `tokenByAddress`, from id `i` on.
unfoldable pub find_token : Bytes → ℕ → List Token → Option ResolvedToken
find_token address i [] = none
find_token address i (t ∷ ts) =
    if bytes_equal t.address address
    then some (record { id = i; address = t.address; width = t.width })
    else find_token address (i + 1) ts

-- The sum of `registerToken`'s loop.
unfoldable pub sum_widths : ℕ → List Token → ℕ
sum_widths acc [] = acc
sum_widths acc (t ∷ ts) = sum_widths (acc + t.width) ts

unfoldable pub last_or : ℕ → List ℕ → ℕ
last_or d [] = d
last_or d (x ∷ xs) = last_or x xs

unfoldable pub last_width : ℕ → List Token → ℕ
last_width d [] = d
last_width d (t ∷ ts) = last_width t.width ts

-- The column of the next token: 64, or the end of the last column.
unfoldable pub next_column : List ℕ → List Token → ℕ
unfolding last_or last_width
next_column [] tokens = 64
next_column (c ∷ cs) tokens = last_or c cs + last_width 0 tokens

-- A registry entry's 32 bytes.
unfoldable pub entry_bytes : Bytes → ℕ → Bytes
entry_bytes address width = splice 20 (width ∷ []) (splice 0 address (replicate 32 0))

module _ {S : Type 0} where
  -- `this.tokens_.push(t)` and `this.colOff.push(col)`
  unfoldable pub push_token : Token → ℕ → Act (Drive S) (Unit {0})
  push_token t col d =
      (ok tt, record d { tokens = d.tokens ++ t ∷ []; col_off = d.col_off ++ col ∷ [] })

  unfoldable pub clear_tokens : Act (Drive S) (Unit {0})
  clear_tokens d = (ok tt, record d { tokens = []; col_off = [] })

module _ {S : Type 0} (io : Store S) where
  -- `tokenByAddress`
  unfoldable pub token_by_address : AddressLike → Act (Drive S) (Option ResolvedToken)
  unfolding find_token
  token_by_address addr = do
    address ← reads (λ d. to_address addr)
    gets (λ d. find_token address 0 d.tokens)

  -- The loop of `reloadRegistry`: `rounds` entries are left, the next has id `i` and column `col`.
  unfoldable pub load_entries : ℕ → ℕ → ℕ → Act (Drive S) (Unit {0})
  unfolding is_width push_token
  load_entries zero i col = pure tt
  load_entries (suc rounds) i col = do
    e ← reads (λ d. io.read_at (d.cfg.registry_offset + 32 * i) 32 d.store)
    let width = get_or e 20 0
    throw_if (not (is_width width)) (drive bad_width)
    push_token (record { address = slice 0 20 e; width = width }) col
    load_entries rounds (i + 1) (col + width)

  unfoldable pub reload_registry : Act (Drive S) (Unit {0})
  unfolding load_entries token_count clear_tokens
  reload_registry = do
    clear_tokens
    offset ← gets (λ d. d.cfg.registry_offset)
    if offset == 0 then pure tt else (do
      n ← token_count io
      capacity ← gets (λ d. d.cfg.registry_capacity)
      throw_if (ltb capacity n) (error bad_token_count)
      load_entries n 0 64)

  -- The refusals of `registerToken`, in its order.
  unfoldable pub check_token : Bytes → ℕ → Drive S → Result (Unit {0})
  unfolding is_width find_token sum_widths compact
  check_token address width d =
      if d.cfg.registry_offset == 0
      then err (drive profile)
      else if not (is_width width)
      then err (drive bad_width)
      else elim (find_token address 0 d.tokens) [
        | some t ↦ err (drive duplicate_token)
        | none ↦
            if leb d.cfg.registry_capacity (length d.tokens)
            then err (drive registry_full)
            else if (d.cfg.profile == profile_wide)
                && ltb d.cfg.slot_size (sum_widths 64 d.tokens + width)
            then err (drive table_full)
            else if (d.cfg.profile == profile_sparse)
                && (d.cfg.sparse_slot_size == 32)
                && not (width == 8)
            then err (drive bad_width)
            else if compact d.cfg && not (width == 8)
            then err (drive bad_width)
            else ok tt
      ]

  unfoldable pub register_token : AddressLike → ℕ → Act (Drive S) ℕ
  unfolding check_token write_store set_counter next_column entry_bytes push_token
  register_token addr width = do
    address ← reads (λ d. to_address addr)
    reads (check_token address width)
    n ← gets (λ d. length d.tokens)
    off ← gets (λ d. d.cfg.registry_offset + 32 * n)
    write_store io off (entry_bytes address width)
    set_counter io off_token_count (n + 1)
    col ← gets (λ d. next_column d.col_off d.tokens)
    push_token (record { address = address; width = width }) col
    pure n
