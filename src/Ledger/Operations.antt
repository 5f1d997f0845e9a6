-- ===== src/Ledger/Operations.antt =====
-- The ledger's operations (app/src/ledger.ts, class `Ledger`). The backing store is a `MemStore`.
pub mod Frame
pub mod Rollback
pub mod Statuses
pub mod Reads
pub mod Funds
pub mod Committed
pub mod Balances
pub mod Transfers
use op_cartesi.Base.{
  pure, gets, throw_if, if_some, ◌>>=◌, ℕ, zero, suc, ◌+◌, ◌-◌, Bool, false, ◌||◌, Option, none,
  some, List, [], ◌∷◌, ltb, ◌==◌, if◌then◌else◌, Act, ◌>>◌, profile, ether_funds, fee_funds,
  token_funds, drive, insufficient, Result, ok, err,
}
use op_cartesi.Base.Int.{◌+ℤ◌, neg, ℤ, pos}
use op_cartesi.Bytes.{Bytes, bytes_equal}
use op_cartesi.Store.{mem_read}
use op_cartesi.Evm.Addresses.{l2_token_address}
use op_cartesi.Drive.Types.{profile_sparse, magic, raw, Token, Config, Drive}
use op_cartesi.Drive.Registry.{token_by_address, reload_registry, register_token}
use op_cartesi.Drive.Accounts.{get_account, set_account}
use op_cartesi.Drive.Balances.{get_token_balance, set_token_balance}
use op_cartesi.Drive.Format.{open_drive, format}
use op_cartesi.Ledger.Types.{
  Address, Status, CrossDomainConfig, TokenMetadata, ResolvedFacade, Entry, forget_facade,
  old_total, old_metadata, old_portal, old_fee, old_cross_domain, old_nonce, old_message, Journaled,
  Ram, Ledger,
}
use op_cartesi.Ledger.Journal.{journaled_store, note, commit}
use op_cartesi.Ledger.Journal.Maps.{update_id, update, lookup, insert}

-- A drive operation on the ledger's drive.
unfoldable pub on_drive : {A : Type 0} → Act (Drive Journaled) A → Act Ledger A
on_drive m l = let (r, d) = m l.drive in (r, record l { drive = d })

-- A change of the RAM state, behind the entry that undoes it.
unfoldable pub journal : (Ledger → Entry) → (Ram → Ram) → Act Ledger (Unit {0})
unfolding note
journal e f l = (ok tt, record (note (e l) l) { ram = f l.ram })

unfoldable pub add_total : ℕ → ℤ → Act Ledger (Unit {0})
unfolding journal
add_total id delta =
    journal (λ l. old_total id (l.ram.totals id))
      (λ ram. record ram { totals = update_id ram.totals id (ram.totals id +ℤ delta) })

unfoldable pub total_supply : ℕ → Ledger → ℤ
total_supply id l = l.ram.totals id

unfoldable pub set_metadata : ℕ → TokenMetadata → Act Ledger (Unit {0})
unfolding journal
set_metadata id m =
    journal (λ l. old_metadata id (l.ram.metadata id))
      (λ ram. record ram { metadata = update_id ram.metadata id (some m) })

unfoldable pub register_portal : Address → ℕ → Act Ledger (Unit {0})
unfolding journal
register_portal key kind =
    journal (λ l. old_portal key (lookup key l.ram.portals))
      (λ ram. record ram { portals = insert key kind ram.portals })

unfoldable pub portal_kind : Address → Ledger → Option ℕ
portal_kind key l = lookup key l.ram.portals

unfoldable pub set_fee : ℕ → Act Ledger (Unit {0})
unfolding journal
set_fee fee = journal (λ l. old_fee l.ram.fee) (λ ram. record ram { fee = fee })

unfoldable pub register_cross_domain : CrossDomainConfig → Act Ledger (Unit {0})
unfolding journal
register_cross_domain cfg =
    journal (λ l. old_cross_domain l.ram.cross_domain_config)
      (λ ram. record ram { cross_domain_config = some cfg })

abbrev pub portal_ether : ℕ
portal_ether = 0

abbrev pub portal_erc20 : ℕ
portal_erc20 = 1

unfoldable pub has_kind : ℕ → List (Address × ℕ) → Bool
has_kind kind [] = false
has_kind kind ((k, v) ∷ m) = (v == kind) || has_kind kind m

unfoldable pub has_erc20_portal : Ledger → Bool
unfolding has_kind
has_erc20_portal l = has_kind portal_erc20 l.ram.portals

unfoldable pub next_message_nonce : Act Ledger ℕ
unfolding journal
next_message_nonce = do
  nonce ← gets (λ l. l.ram.msg_nonce)
  journal (λ l. old_nonce nonce) (λ ram. record ram { msg_nonce = nonce + 1 })
  pure nonce

unfoldable pub peek_message_nonce : Ledger → ℕ
peek_message_nonce l = l.ram.msg_nonce

unfoldable pub message_status : Bytes → Ledger → Option Status
message_status hash l = l.ram.messages hash

unfoldable pub set_message_status : Bytes → Status → Act Ledger (Unit {0})
unfolding journal
set_message_status key status =
    journal (λ l. old_message key (l.ram.messages key))
      (λ ram. record ram { messages = update ram.messages key (some status) })

module _ (keccak256 : Bytes → Bytes) where
  -- The nonce and the balance; a missing account has none.
  unfoldable pub account : Address → Act Ledger (ℕ × ℕ)
  unfolding on_drive
  account addr = do
    a ← on_drive (get_account journaled_store keccak256 (raw addr))
    pure (elim a [ none ↦ (0, 0) | some r ↦ (r.nonce, r.balance) ])

  unfoldable pub put_account : Address → ℕ → ℕ → Act Ledger (Unit {0})
  unfolding on_drive
  put_account addr nonce balance =
      on_drive (set_account journaled_store keccak256 (raw addr) nonce balance)

  unfoldable pub credit_ether : Address → ℕ → Act Ledger (Unit {0})
  unfolding account put_account
  credit_ether addr amount =
      if amount == 0
      then pure tt
      else (do (nonce, balance) ← account addr; put_account addr nonce (balance + amount))

  unfoldable pub debit_ether : Address → ℕ → Act Ledger (Unit {0})
  unfolding account put_account
  debit_ether addr amount = if amount == 0 then pure tt else (do
    (nonce, balance) ← account addr
    throw_if (ltb balance amount) (insufficient ether_funds)
    put_account addr nonce (balance - amount))

  unfoldable pub bump_nonce_and_charge : Address → ℕ → Act Ledger (Unit {0})
  unfolding account put_account
  bump_nonce_and_charge addr charge = do
    (nonce, balance) ← account addr
    throw_if (ltb balance charge) (insufficient fee_funds)
    put_account addr (nonce + 1) (balance - charge)

  -- `this.facades.set(addrKey(l2Token), id)`, journaled by the key alone.
  unfoldable pub set_facade : Address → ℕ → Act Ledger (Unit {0})
  unfolding note
  set_facade l2_token id l = (
    ok tt,
    note (forget_facade l2_token) (record l { facades = update l.facades l2_token (some id) }),
  )

  unfoldable pub register_l1_token : Address → Option TokenMetadata → Act Ledger (ℕ × Address)
  unfolding on_drive set_facade set_metadata
  register_l1_token l1_token metadata = do
    id ← on_drive (register_token journaled_store (raw l1_token) 32)
    let l2_token = l2_token_address keccak256 l1_token
    set_facade l2_token id
    if_some metadata (λ m. set_metadata id m) (pure tt)
    pure (id, l2_token)

  unfoldable pub token_balance : Address → ℕ → Act Ledger ℕ
  unfolding on_drive
  token_balance addr id = on_drive (get_token_balance journaled_store keccak256 (raw addr) id)

  unfoldable pub put_token_balance : Address → ℕ → ℕ → Act Ledger (Unit {0})
  unfolding on_drive
  put_token_balance addr id v =
      on_drive (set_token_balance journaled_store keccak256 (raw addr) id v)

  unfoldable pub credit_token : Address → ℕ → ℕ → Act Ledger (Unit {0})
  unfolding token_balance put_token_balance add_total
  credit_token addr id amount = if amount == 0 then pure tt else (do
    b ← token_balance addr id
    put_token_balance addr id (b + amount)
    add_total id (pos amount))

  unfoldable pub debit_token : Address → ℕ → ℕ → Act Ledger (Unit {0})
  unfolding token_balance put_token_balance add_total
  debit_token addr id amount = if amount == 0 then pure tt else (do
    b ← token_balance addr id
    throw_if (ltb b amount) (insufficient token_funds)
    put_token_balance addr id (b - amount)
    add_total id (neg (pos amount)))

  -- The loop of `rebuildFacades` over the tokens from id `i` on.
  unfoldable pub facades_from : ℕ → List Token → (Address → Option ℕ) → Address → Option ℕ
  facades_from i [] facades = facades
  facades_from i (t ∷ ts) facades =
      facades_from (i + 1) ts (update facades (l2_token_address keccak256 t.address) (some i))

  unfoldable pub rebuild_facades : Act Ledger (Unit {0})
  unfolding facades_from
  rebuild_facades l = (ok tt, record l { facades = facades_from 0 l.drive.tokens (λ k. none) })

  unfoldable pub after_rollback : Act Ledger (Unit {0})
  unfolding on_drive rebuild_facades
  after_rollback = do on_drive (reload_registry journaled_store); rebuild_facades

  unfoldable pub token_at : ℕ → List Token → Option Token
  token_at i [] = none
  token_at zero (t ∷ ts) = some t
  token_at (suc i) (t ∷ ts) = token_at i ts

  unfoldable pub token_by_l2_address : Address → Ledger → Option ResolvedFacade
  unfolding token_at
  token_by_l2_address addr l = elim (l.facades addr) [
    | none ↦ none
    | some id ↦ elim (token_at id l.drive.tokens) [
      | none ↦ none
      | some t ↦ some (record { id = id; l1_token = t.address; width = t.width })
    ]
  ]

  unfoldable pub token_by_l1_address : Address → Act Ledger (Option ResolvedFacade)
  unfolding on_drive
  token_by_l1_address l1_token = do
    r ← on_drive (token_by_address journaled_store (raw l1_token))
    pure (elim r [
      | none ↦ none
      | some t ↦ some (record { id = t.id; l1_token = l1_token; width = t.width })
    ])

-- `DEVNET_DRIVE_CONFIG`
abbrev pub devnet_drive_config : Config
devnet_drive_config = record {
  drive_length = some 1048576;
  capacity = some 4096;
  load_limit = none;
  seed = none;
  profile = some profile_sparse;
  slot_size = none;
  table_offset = none;
  registry_offset = some 0x100;
  registry_capacity = some 8;
  sparse_offset = some 266240;
  sparse_capacity = some 4096;
  sparse_load_limit = none;
  sparse_slot_size = none;
}

abbrev pub new_ram : Ram
new_ram = record {
  totals = λ id. pos 0;
  metadata = λ id. none;
  portals = [];
  fee = 0;
  cross_domain_config = none;
  msg_nonce = 0;
  messages = λ k. none;
}

-- `create` over a backing store with the given bytes, for the geometry of a new drive.
unfoldable pub create : (Bytes → Bytes) → Config → Bytes → Result Ledger
create keccak256 config backing = elim (mem_read 0 8 backing) [
  | err e ↦ err e
  | ok found ↦
      let store : Journaled = record { inner = backing; entries = [] } in
      let (r, s) =
        if bytes_equal found magic
        then open_drive journaled_store store
        else format journaled_store config store in
      elim r [
        | err e ↦ err e
        | ok d ↦
            let l = commit (record { drive = d; ram = new_ram; facades = λ k. none }) in
            elim (rebuild_facades keccak256 l).0 [
              | err e ↦ err e
              | ok _ ↦ ok (rebuild_facades keccak256 l).1
            ]
      ]
]
