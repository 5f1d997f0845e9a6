-- ===== src/Ledger/Journal.antt =====
-- The journal (app/src/ledger.ts, `Journal` and `JournaledStore`). A restore closure runs on the
-- bytes and the RAM state; that of a registration also on the façade map.
pub mod Maps
pub mod Rewind
pub mod Laws
use op_cartesi.Base.{
  pure, ◌>>=◌, ℕ, zero, suc, ◌-◌, Option, none, some, List, [], ◌∷◌, length, Act, ◌>>◌, drive, ok,
  err,
}
use op_cartesi.Store.{mem_read, mem_write, Store}
use op_cartesi.Ledger.Types.{
  Address, Entry, write_back, forget_facade, old_total, old_metadata, old_portal, old_fee,
  old_cross_domain, old_nonce, old_message, Journaled, Ram, Ledger,
}
use op_cartesi.Ledger.Journal.Maps.{update_id, update, insert, erase}

-- Reads pass through; a write notes the bytes that it replaces.
unfoldable pub journaled_store : Store Journaled
journaled_store = record {
  read_at = λ off n s. mem_read off n s.inner;
  write_at = λ off b s. elim (mem_read off (length b) s.inner) [
    | err e ↦ (err e, s)
    | ok before ↦
        let (r, inner') = mem_write off b s.inner in
        (r, record { inner = inner'; entries = write_back off before ∷ s.entries })
  ];
}

-- What the journal restores exactly: the bytes, the entries and the RAM state.
abbrev pub Core : Type 0
Core = Journaled × Ram

abbrev pub core : Ledger → Core
core l = (l.drive.store, l.ram)

unfoldable pub restore_portal : Address → Option ℕ → List (Address × ℕ) → List (Address × ℕ)
restore_portal k none m = erase k m
restore_portal k (some v) m = insert k v m

-- One restore closure.
unfoldable pub restore : Entry → Act Core (Unit {0})
unfolding restore_portal
restore (write_back off before) (s, ram) =
    let (r, inner') = mem_write off before s.inner in (r, (record s { inner = inner' }, ram))
restore (forget_facade k) (s, ram) = (ok tt, (s, ram))
restore (old_total id v) (s, ram) = (ok tt, (s, record ram { totals = update_id ram.totals id v }))
restore (old_metadata id v) (s, ram) =
    (ok tt, (s, record ram { metadata = update_id ram.metadata id v }))
restore (old_portal k v) (s, ram) =
    (ok tt, (s, record ram { portals = restore_portal k v ram.portals }))
restore (old_fee v) (s, ram) = (ok tt, (s, record ram { fee = v }))
restore (old_cross_domain v) (s, ram) = (ok tt, (s, record ram { cross_domain_config = v }))
restore (old_nonce v) (s, ram) = (ok tt, (s, record ram { msg_nonce = v }))
restore (old_message k v) (s, ram) = (ok tt, (s, record ram { messages = update ram.messages k v }))

-- `entries.pop()!()`
unfoldable pub undo_from : List Entry → Act Core (Unit {0})
unfolding restore
undo_from [] c = (ok tt, c)
undo_from (e ∷ es) (s, ram) = restore e (record s { entries = es }, ram)

-- The loop of `rollbackTo`, which runs once for each entry above the mark.
unfoldable pub unwind : ℕ → Act Core (Unit {0})
unfolding undo_from
unwind zero = pure tt
unwind (suc rounds) = do (λ c. undo_from c.0.entries c); unwind rounds

-- The façade keys that the undone entries forget.
unfoldable pub forget_facades : ℕ → List Entry → (Address → Option ℕ) → Address → Option ℕ
forget_facades zero es facades = facades
forget_facades (suc n) [] facades = facades
forget_facades (suc n) (forget_facade k ∷ es) facades = forget_facades n es (update facades k none)
forget_facades (suc n) (e ∷ es) facades = forget_facades n es facades

-- `mark`
unfoldable pub mark : Ledger → ℕ
mark l = length l.drive.store.entries

-- `rollbackTo`
unfoldable pub rollback_to : ℕ → Act Ledger (Unit {0})
unfolding unwind forget_facades mark
rollback_to m l =
    let rounds = mark l - m in
    let (r, c) = unwind rounds (core l) in
    (
      r,
      record l {
        drive = record (l.drive) { store = c.0 };
        ram = c.1;
        facades = forget_facades rounds l.drive.store.entries l.facades;
      },
    )

-- `rollbackAll` of the journal
unfoldable pub rollback_entries : Act Ledger (Unit {0})
unfolding rollback_to
rollback_entries = rollback_to 0

-- `note`
unfoldable pub note : Entry → Ledger → Ledger
note e l = record l {
  drive = record (l.drive) {
    store = record (l.drive.store) { entries = e ∷ l.drive.store.entries };
  };
}

-- `commit`
unfoldable pub commit : Ledger → Ledger
commit l = record l { drive = record (l.drive) { store = record (l.drive.store) { entries = [] } } }
