-- ===== src/Drive/Frame/Operations.antt =====
-- The public operations of the drive, under the rules of its frame.
use op_cartesi.Base.{ℕ, zero, suc, refl, Bool, Result}
use op_cartesi.Base.Frame.{Keeps}
use op_cartesi.Bytes.{Bytes}
use op_cartesi.Store.{Store}
use op_cartesi.Drive.Types.{AddressLike, Token}
use op_cartesi.Drive.Table.{token_count, Table}
use op_cartesi.Drive.Registry.{
  push_token, clear_tokens, token_by_address, load_entries, reload_registry, register_token,
}
use op_cartesi.Drive.Accounts.{
  nonzero_address, get_account, insert_new, set_account, delete_account,
}
use op_cartesi.Drive.Balances.{
  wide_balance, read_sparse_balance, get_token_balance, set_wide_balance, set_sparse_balance,
  set_token_balance,
}
use op_cartesi.Drive.Frame.{
  drive_rules, lookup-Keeps, insert-Keeps, remove-Keeps, IsStoreOrder, OnDrive,
}

module _ {S : Type 0} {io : Store S} {R : S → S → Type 0} (order : IsStoreOrder io R) where
  nonzero_address-Keeps : (addr : AddressLike) → Keeps (OnDrive R) (nonzero_address {S = S} addr)
  unfolding nonzero_address
  nonzero_address-Keeps addr = search drive_rules

  pub token_by_address-Keeps : (addr : AddressLike) → Keeps (OnDrive R) (token_by_address io addr)
  unfolding token_by_address
  token_by_address-Keeps addr = search drive_rules

  push_token-Keeps : (t : Token) (col : ℕ) → Keeps (OnDrive R) (push_token t col)
  unfolding push_token
  push_token-Keeps t col = record {
    related = λ d. record { stores = order.preorder.here d.store; same_cfg = refl };
  }

  clear_tokens-Keeps : Keeps (OnDrive R) clear_tokens
  unfolding clear_tokens
  clear_tokens-Keeps = record {
    related = λ d. record { stores = order.preorder.here d.store; same_cfg = refl };
  }

  pub register_token-Keeps :
      (addr : AddressLike) (width : ℕ) → Keeps (OnDrive R) (register_token io addr width)
  unfolding register_token
  register_token-Keeps addr width = search (drive_rules, push_token-Keeps) depth 9

  load_entries-Keeps : (rounds i col : ℕ) → Keeps (OnDrive R) (load_entries io rounds i col)
  unfolding load_entries
  load_entries-Keeps zero i col = search drive_rules
  load_entries-Keeps (suc rounds) i col =
      let again = load_entries-Keeps rounds in search (drive_rules, push_token-Keeps, again) depth 9

  pub reload_registry-Keeps : Keeps (OnDrive R) (reload_registry io)
  unfolding reload_registry token_count
  reload_registry-Keeps = search (drive_rules, clear_tokens-Keeps, load_entries-Keeps) depth 9

  module _ (keccak256 : Bytes → Bytes) where
    pub get_account-Keeps : (addr : AddressLike) → Keeps (OnDrive R) (get_account io keccak256 addr)
    unfolding get_account
    get_account-Keeps addr = search (drive_rules, nonzero_address-Keeps, lookup-Keeps) depth 9

    insert_new-Keeps :
        (t : Table) (made : Result Bytes) → Keeps (OnDrive R) (insert_new io keccak256 t made)
    unfolding insert_new
    insert_new-Keeps t made = search (drive_rules, insert-Keeps)

    -- Writing an account.
    pub set_account-Keeps :
        (addr : AddressLike) (nonce balance : ℕ)
        → Keeps (OnDrive R) (set_account io keccak256 addr nonce balance)
    unfolding set_account
    set_account-Keeps addr nonce balance =
        search (drive_rules, nonzero_address-Keeps, lookup-Keeps, insert_new-Keeps) depth 9

    pub delete_account-Keeps :
        (addr : AddressLike) (force : Bool)
        → Keeps (OnDrive R) (delete_account io keccak256 addr force)
    unfolding delete_account
    delete_account-Keeps addr force =
        search (drive_rules, nonzero_address-Keeps, lookup-Keeps, remove-Keeps) depth 9

    wide_balance-Keeps :
        (address : Bytes) (id width : ℕ)
        → Keeps (OnDrive R) (wide_balance io keccak256 address id width)
    unfolding wide_balance
    wide_balance-Keeps address id width = search (drive_rules, lookup-Keeps) depth 9

    read_sparse_balance-Keeps :
        (address : Bytes) (id : ℕ) → Keeps (OnDrive R) (read_sparse_balance io keccak256 address id)
    unfolding read_sparse_balance
    read_sparse_balance-Keeps address id = search (drive_rules, lookup-Keeps) depth 9

    pub get_token_balance-Keeps :
        (addr : AddressLike) (id : ℕ) → Keeps (OnDrive R) (get_token_balance io keccak256 addr id)
    unfolding get_token_balance
    get_token_balance-Keeps addr id =
        search (drive_rules, nonzero_address-Keeps, wide_balance-Keeps, read_sparse_balance-Keeps)
          depth 9

    set_wide_balance-Keeps :
        (address : Bytes) (id width v : ℕ)
        → Keeps (OnDrive R) (set_wide_balance io keccak256 address id width v)
    unfolding set_wide_balance
    set_wide_balance-Keeps address id width v =
        search (drive_rules, lookup-Keeps, insert-Keeps) depth 12

    set_sparse_balance-Keeps :
        (address : Bytes) (id v : ℕ)
        → Keeps (OnDrive R) (set_sparse_balance io keccak256 address id v)
    unfolding set_sparse_balance
    set_sparse_balance-Keeps address id v =
        search (drive_rules, lookup-Keeps, insert-Keeps, remove-Keeps) depth 12

    pub set_token_balance-Keeps :
        (addr : AddressLike) (id v : ℕ)
        → Keeps (OnDrive R) (set_token_balance io keccak256 addr id v)
    unfolding set_token_balance
    set_token_balance-Keeps addr id v =
        search
          (drive_rules, nonzero_address-Keeps, set_wide_balance-Keeps, set_sparse_balance-Keeps)
          depth 12
