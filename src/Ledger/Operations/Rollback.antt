-- ===== src/Ledger/Operations/Rollback.antt =====
-- Rollback on the whole ledger (app/src/ledger.ts, `Journal.rollbackTo` and `afterRollback`).
use op_cartesi.Drive.Types.{Drive}
use op_cartesi.Base.{
  ◌>>=◌, ◌-◌, ◌≡◌, refl, sym, ap, ◌∙◌, [], arith, continue_with, ◌>>◌, Result, ok, err,
}
use op_cartesi.Bytes.{Bytes}
use op_cartesi.Drive.Registry.{clear_tokens, reload_registry}
use op_cartesi.Ledger.Types.{Journaled, Ram, Ledger}
use op_cartesi.Ledger.Journal.{journaled_store, Core, core, unwind, mark, rollback_to}
use op_cartesi.Ledger.Journal.Rewind.{Rewinds-le, unwind-Rewinds, Rewinds}
use op_cartesi.Ledger.Operations.{on_drive, rebuild_facades, after_rollback}
use op_cartesi.Ledger.Operations.Statuses.{StatusOrder, unchanged}
use op_cartesi.Ledger.Operations.Frame.{OnLedger-preorder, after_rollback-Keeps, OnLedger}
use mathlib.Core.Path.{subst}

-- The caches are what the bytes say: to read them again changes nothing.
abbrev pub IsCached : (Bytes → Bytes) → Ledger → Type 0
IsCached keccak256 l = after_rollback keccak256 l ≡ (ok tt, l)

abbrev fresh : Drive Journaled → Drive Journaled
fresh d = record d { tokens = []; col_off = [] }

reload_fresh :
    (d : Drive Journaled)
    → reload_registry journaled_store d ≡ reload_registry journaled_store (fresh d)
unfolding reload_registry clear_tokens ◌>>=◌
reload_fresh d = refl

-- The registry that is read depends on the store and the geometry alone.
reload_same :
    (d e : Drive Journaled)
    → d.store ≡ e.store
    → d.cfg ≡ e.cfg
    → reload_registry journaled_store d ≡ reload_registry journaled_store e
reload_same d e p q =
    reload_fresh d
    ∙ ap (reload_registry journaled_store)
        (λ i. record { store = p i; cfg = q i; tokens = []; col_off = [] })
    ∙ sym (reload_fresh e)

caches_again :
    (keccak256 : Bytes → Bytes) (l m : Ledger) (p : Result (Unit {0}) × Drive Journaled)
    → m.ram ≡ l.ram
    → continue_with (p.0, record l { drive = p.1 }) (λ _. rebuild_facades keccak256) ≡ (ok tt, l)
    → continue_with (p.0, record m { drive = p.1 }) (λ _. rebuild_facades keccak256) ≡ (ok tt, l)
unfolding rebuild_facades
caches_again keccak256 l m (ok u, d) e h =
    ap
      (λ (ram : Ram).
        continue_with (ok u, record m { drive = d; ram = ram }) (λ _. rebuild_facades keccak256))
      e
    ∙ h
caches_again keccak256 l m (err x, d) e h = cc

-- A ledger with the core and the geometry of a cached one becomes that ledger.
pub after_rollback-core :
    (keccak256 : Bytes → Bytes) (l m : Ledger)
    → IsCached keccak256 l
    → core m ≡ core l
    → m.drive.cfg ≡ l.drive.cfg
    → after_rollback keccak256 m ≡ (ok tt, l)
unfolding after_rollback on_drive ◌>>=◌
after_rollback-core keccak256 l m cached same cfg =
    let e : reload_registry journaled_store m.drive ≡ reload_registry journaled_store l.drive =
      reload_same m.drive l.drive (ap (λ (c : Core). c.0) same) cfg in
    ap
      (λ (p : Result (Unit {0}) × Drive Journaled).
        continue_with (p.0, record m { drive = p.1 }) (λ _. rebuild_facades keccak256))
      e
    ∙ caches_again keccak256 l m (reload_registry journaled_store l.drive)
        (ap (λ (c : Core). c.1) same) cached

-- A rollback to the mark of an earlier state throws nothing and restores the core.
pub rollback_to-core :
    (l m : Ledger)
    → OnLedger l m
    → ((rollback_to (mark l) m).0 ≡ ok tt)
      × (core (rollback_to (mark l) m).1 ≡ core l)
      × ((rollback_to (mark l) m).1.drive.cfg ≡ l.drive.cfg)
unfolding rollback_to mark
rollback_to-core l m h =
    let e : unwind (mark m - mark l) (core m) ≡ (ok tt, core l) =
      unwind-Rewinds h.rewinds (mark m - mark l) (omega (arith, Rewinds-le h.rewinds)) in
    (
      ap (λ (p : Result (Unit {0}) × Core). p.0) e,
      ap (λ (p : Result (Unit {0}) × Core). p.1) e,
      h.same_cfg,
    )

-- From a ledger with right caches, whatever journaled work has led to, a rollback to its mark
-- followed by `after_rollback` throws nothing and gives back that very ledger.
pub rollback_restores :
    (keccak256 : Bytes → Bytes) (l m : Ledger)
    → IsCached keccak256 l
    → OnLedger l m
    → (do rollback_to (mark l); after_rollback keccak256) m ≡ (ok tt, l)
unfolding ◌>>=◌
rollback_restores keccak256 l m cached h =
    let (fine, same, cfg) = rollback_to-core l m h in
    ap
      (λ (r : Result (Unit {0})).
        continue_with (r, (rollback_to (mark l) m).1) (λ _. after_rollback keccak256))
      fine
    ∙ after_rollback-core keccak256 l (rollback_to (mark l) m).1 cached same cfg

rebuilt_ram :
    (keccak256 : Bytes → Bytes) (l : Ledger) (p : Result (Unit {0}) × Drive Journaled)
    → (continue_with (p.0, record l { drive = p.1 }) (λ _. rebuild_facades keccak256)).1.ram ≡ l.ram
unfolding rebuild_facades
rebuilt_ram keccak256 l (ok u, d) = refl
rebuilt_ram keccak256 l (err e, d) = refl

-- To read the caches again leaves the RAM state as it is.
after_rollback_ram :
    (keccak256 : Bytes → Bytes) (l : Ledger) → (after_rollback keccak256 l).1.ram ≡ l.ram
unfolding after_rollback on_drive ◌>>=◌
after_rollback_ram keccak256 l = rebuilt_ram keccak256 l (reload_registry journaled_store l.drive)

-- The RAM state after a rollback and the read of the caches.
pub rolled_back-ram :
    (keccak256 : Bytes → Bytes) (l m : Ledger)
    → OnLedger l m
    → ((do rollback_to (mark l); after_rollback keccak256) m).1.ram ≡ l.ram
unfolding ◌>>=◌
rolled_back-ram keccak256 l m h =
    let (fine, same, cfg) = rollback_to-core l m h in
    ap
      (λ (r : Result (Unit {0})).
        (continue_with (r, (rollback_to (mark l) m).1) (λ _. after_rollback keccak256)).1.ram)
      fine
    ∙ after_rollback_ram keccak256 (rollback_to (mark l) m).1
    ∙ ap (λ (c : Core). c.1) same

-- The same for any ledger: the work that is taken back leaves nothing behind it in the journal.
pub rolled_back-OnLedger :
    (keccak256 : Bytes → Bytes) (l m : Ledger)
    → OnLedger l m
    → OnLedger l ((do rollback_to (mark l); after_rollback keccak256) m).1
unfolding ◌>>=◌
rolled_back-OnLedger keccak256 l m h =
    let (fine, same, cfg) = rollback_to-core l m h in
    let here : OnLedger l (rollback_to (mark l) m).1 = record {
      rewinds = subst (λ c. Rewinds (core l) c) (sym same) Rewinds.here;
      same_cfg = cfg;
      progress = λ k.
          subst (λ (ram : Ram). StatusOrder (l.ram.messages k) (ram.messages k))
            (sym (ap (λ (c : Core). c.1) same)) unchanged;
    } in
    subst
      (λ (r : Result (Unit {0})).
        OnLedger l
          (continue_with (r, (rollback_to (mark l) m).1) (λ _. after_rollback keccak256)).1)
      (sym fine) (OnLedger-preorder.chain l _ _ here ((after_rollback-Keeps keccak256).related _))
