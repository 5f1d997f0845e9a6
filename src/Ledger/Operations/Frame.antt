-- ===== src/Ledger/Operations/Frame.antt =====
-- The operations of the ledger and its journal (app/src/ledger.ts).
use op_cartesi.Base.{◌>>=◌, ℕ, ◌≡◌, refl, ◌∙◌, inl, inr, Option, some, List, Option-cases, Act, ok}
use op_cartesi.Base.Frame.{keeps_rules, IsPreorder, Keeps}
use op_cartesi.Base.Int.{◌+ℤ◌, ℤ}
use op_cartesi.Bytes.{Bytes}
use op_cartesi.Drive.Types.{Drive}
use op_cartesi.Drive.Frame.{OnDrive}
use op_cartesi.Drive.Frame.Operations.{
  token_by_address-Keeps, register_token-Keeps, reload_registry-Keeps, get_account-Keeps,
  set_account-Keeps, get_token_balance-Keeps, set_token_balance-Keeps,
}
use op_cartesi.Ledger.Types.{
  Address, Status, CrossDomainConfig, TokenMetadata, Entry, Journaled, Ram, Ledger,
}
use op_cartesi.Ledger.Operations.Statuses.{
  StatusOrder-trans, update-StatusOrder, StatusOrder, unchanged,
}
use op_cartesi.Ledger.Journal.{core, restore_portal, restore, undo_from, note}
use op_cartesi.Ledger.Journal.Maps.{
  update_id_undo, update_undo, lookup, insert, insert_undo_none, insert_undo_some,
}
use op_cartesi.Ledger.Journal.Rewind.{Rewinds-trans, StoreRewinds, journaled_store-order, Rewinds}
use op_cartesi.Ledger.Operations.{
  on_drive, journal, add_total, set_metadata, register_portal, set_fee, register_cross_domain,
  next_message_nonce, set_message_status, account, put_account, credit_ether, debit_ether,
  bump_nonce_and_charge, set_facade, register_l1_token, token_balance, put_token_balance,
  credit_token, debit_token, rebuild_facades, after_rollback, token_by_l1_address,
}

-- The journal leads from `m` back to `l`, the geometry is the same, and the statuses of the
-- cross-domain messages have only moved on.
pub record OnLedger (l m : Ledger) : Type 0 where
  pub rewinds : Rewinds (core l) (core m)
  pub same_cfg : m.drive.cfg ≡ l.drive.cfg
  pub progress : (k : Bytes) → StatusOrder (l.ram.messages k) (m.ram.messages k)

pub OnLedger-preorder : IsPreorder OnLedger
OnLedger-preorder = record {
  here = λ l. record { rewinds = Rewinds.here; same_cfg = refl; progress = λ k. unchanged };
  chain = λ l m n h k. record {
    rewinds = Rewinds-trans h.rewinds k.rewinds;
    same_cfg = k.same_cfg ∙ h.same_cfg;
    progress = λ key. StatusOrder-trans (h.progress key) (k.progress key);
  };
}

-- What the frame says of a drive operation holds on the ledger.
pub on_drive-Keeps :
    {A : Type 0} (m : Act (Drive Journaled) A)
    → Keeps (OnDrive StoreRewinds) m
    → Keeps OnLedger (on_drive m)
unfolding on_drive
on_drive-Keeps m h = record {
  related = λ l.
      let step = h.related l.drive in
      record { rewinds = step.stores l.ram; same_cfg = step.same_cfg; progress = λ k. unchanged };
}

-- One entry, whose restore closure undoes the change beside it.
journal-Keeps :
    (e : Ledger → Entry) (f : Ram → Ram)
    → ((l : Ledger) → restore (e l) (l.drive.store, f l.ram) ≡ (ok tt, core l))
    → ((ram : Ram) (k : Bytes) → StatusOrder (ram.messages k) ((f ram).messages k))
    → Keeps OnLedger (journal e f)
unfolding journal note undo_from
journal-Keeps e f undoes moves = record {
  related = λ l. record {
    rewinds = Rewinds.back (undoes l) refl Rewinds.here;
    same_cfg = refl;
    progress = moves l.ram;
  };
}

pub add_total-Keeps : (id : ℕ) (delta : ℤ) → Keeps OnLedger (add_total id delta)
unfolding add_total restore
add_total-Keeps id delta =
    journal-Keeps _ _ (λ l. rw (update_id_undo l.ram.totals id (l.ram.totals id +ℤ delta)))
      λ ram k. unchanged

pub set_metadata-Keeps : (id : ℕ) (m : TokenMetadata) → Keeps OnLedger (set_metadata id m)
unfolding set_metadata restore
set_metadata-Keeps id m =
    journal-Keeps _ _ (λ l. rw (update_id_undo l.ram.metadata id (some m))) λ ram k. unchanged

restore_portal_undo :
    (key : Address) (kind : ℕ) (m : List (Address × ℕ))
    → restore_portal key (lookup key m) (insert key kind m) ≡ m
unfolding restore_portal
restore_portal_undo key kind m = elim (Option-cases (lookup key m)) [
  | inl e ↦ rw e (insert_undo_none key kind m e)
  | inr (v, e) ↦ rw e (insert_undo_some key kind v m e)
]

pub register_portal-Keeps : (key : Address) (kind : ℕ) → Keeps OnLedger (register_portal key kind)
unfolding register_portal restore
register_portal-Keeps key kind =
    journal-Keeps _ _ (λ l. rw (restore_portal_undo key kind l.ram.portals)) λ ram k. unchanged

pub set_fee-Keeps : (fee : ℕ) → Keeps OnLedger (set_fee fee)
unfolding set_fee restore
set_fee-Keeps fee = journal-Keeps _ _ (λ l. refl) λ ram k. unchanged

pub register_cross_domain-Keeps :
    (cfg : CrossDomainConfig) → Keeps OnLedger (register_cross_domain cfg)
unfolding register_cross_domain restore
register_cross_domain-Keeps cfg = journal-Keeps _ _ (λ l. refl) λ ram k. unchanged

-- A status that moves on.
pub set_message_status-OnLedger :
    (key : Bytes) (status : Status) (l : Ledger)
    → StatusOrder (l.ram.messages key) (some status)
    → OnLedger l (set_message_status key status l).1
unfolding set_message_status journal note undo_from restore
set_message_status-OnLedger key status l moves = record {
  rewinds = Rewinds.back (rw (update_undo l.ram.messages key (some status))) refl Rewinds.here;
  same_cfg = refl;
  progress = update-StatusOrder l.ram.messages key (some status) moves;
}

pub next_message_nonce-Keeps : Keeps OnLedger next_message_nonce
unfolding next_message_nonce journal note undo_from restore ◌>>=◌
next_message_nonce-Keeps = record {
  related = λ l. record {
    rewinds = Rewinds.back refl refl Rewinds.here;
    same_cfg = refl;
    progress = λ k. unchanged;
  };
}

pub rebuild_facades-Keeps : (keccak256 : Bytes → Bytes) → Keeps OnLedger (rebuild_facades keccak256)
unfolding rebuild_facades
rebuild_facades-Keeps keccak256 = record {
  related = λ l. record { rewinds = Rewinds.here; same_cfg = refl; progress = λ k. unchanged };
}

ruleset ledger_rules = (
  keeps_rules, OnLedger-preorder, on_drive-Keeps, journaled_store-order, add_total-Keeps,
  set_metadata-Keeps,
)

module _ (keccak256 : Bytes → Bytes) where
  pub set_facade-Keeps : (k : Address) (id : ℕ) → Keeps OnLedger (set_facade keccak256 k id)
  unfolding set_facade note undo_from restore
  set_facade-Keeps k id = record {
    related = λ l. record {
      rewinds = Rewinds.back refl refl Rewinds.here;
      same_cfg = refl;
      progress = λ k. unchanged;
    };
  }

  pub after_rollback-Keeps : Keeps OnLedger (after_rollback keccak256)
  unfolding after_rollback
  after_rollback-Keeps = search (ledger_rules, reload_registry-Keeps, rebuild_facades-Keeps) depth 9

  account-Keeps : (addr : Address) → Keeps OnLedger (account keccak256 addr)
  unfolding account
  account-Keeps addr = search (ledger_rules, get_account-Keeps)

  put_account-Keeps :
      (addr : Address) (nonce balance : ℕ)
      → Keeps OnLedger (put_account keccak256 addr nonce balance)
  unfolding put_account
  put_account-Keeps addr nonce balance = search (ledger_rules, set_account-Keeps)

  pub credit_ether-Keeps :
      (addr : Address) (amount : ℕ) → Keeps OnLedger (credit_ether keccak256 addr amount)
  unfolding credit_ether
  credit_ether-Keeps addr amount = search (ledger_rules, account-Keeps, put_account-Keeps)

  pub debit_ether-Keeps :
      (addr : Address) (amount : ℕ) → Keeps OnLedger (debit_ether keccak256 addr amount)
  unfolding debit_ether
  debit_ether-Keeps addr amount = search (ledger_rules, account-Keeps, put_account-Keeps) depth 9

  pub bump_nonce_and_charge-Keeps :
      (addr : Address) (charge : ℕ) → Keeps OnLedger (bump_nonce_and_charge keccak256 addr charge)
  unfolding bump_nonce_and_charge
  bump_nonce_and_charge-Keeps addr charge =
      search (ledger_rules, account-Keeps, put_account-Keeps) depth 9

  pub register_l1_token-Keeps :
      (l1_token : Address) (metadata : Option TokenMetadata)
      → Keeps OnLedger (register_l1_token keccak256 l1_token metadata)
  unfolding register_l1_token
  register_l1_token-Keeps l1_token metadata =
      search (ledger_rules, register_token-Keeps, set_facade-Keeps) depth 12

  token_balance-Keeps : (addr : Address) (id : ℕ) → Keeps OnLedger (token_balance keccak256 addr id)
  unfolding token_balance
  token_balance-Keeps addr id = search (ledger_rules, get_token_balance-Keeps)

  put_token_balance-Keeps :
      (addr : Address) (id v : ℕ) → Keeps OnLedger (put_token_balance keccak256 addr id v)
  unfolding put_token_balance
  put_token_balance-Keeps addr id v = search (ledger_rules, set_token_balance-Keeps)

  pub credit_token-Keeps :
      (addr : Address) (id amount : ℕ) → Keeps OnLedger (credit_token keccak256 addr id amount)
  unfolding credit_token
  credit_token-Keeps addr id amount =
      search (ledger_rules, token_balance-Keeps, put_token_balance-Keeps) depth 9

  pub debit_token-Keeps :
      (addr : Address) (id amount : ℕ) → Keeps OnLedger (debit_token keccak256 addr id amount)
  unfolding debit_token
  debit_token-Keeps addr id amount =
      search (ledger_rules, token_balance-Keeps, put_token_balance-Keeps) depth 9

  pub token_by_l1_address-Keeps :
      (l1_token : Address) → Keeps OnLedger (token_by_l1_address keccak256 l1_token)
  unfolding token_by_l1_address
  token_by_l1_address-Keeps l1_token = search (ledger_rules, token_by_address-Keeps)
