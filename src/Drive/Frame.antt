-- ===== src/Drive/Frame.antt =====
-- Relations on stores that each write respects, across the drive's operations
-- (accounts-drive/js/src/drive.ts).
pub mod Operations
pub mod Reads
use op_cartesi.Base.{ℕ, zero, suc, ◌+◌, ◌*◌, ◌≡◌, refl, ◌∙◌}
use op_cartesi.Base.Frame.{keeps_rules, IsPreorder, Keeps}
use op_cartesi.Bytes.{Bytes, put_le}
use op_cartesi.Store.{Store}
use op_cartesi.Drive.Types.{Drive}
use op_cartesi.Drive.Table.{
  counter, write_store, set_counter, write_slot, lookup, insert_from, insert, remove_from, remove,
  Table,
}

-- A preorder on the states of a store that each write respects.
pub record IsStoreOrder {S : Type 0} (io : Store S) (R : S → S → Type 0) : Type 0 where
  pub preorder : IsPreorder R
  pub write : (off : ℕ) (b : Bytes) (s : S) → R s (io.write_at off b s).1

-- The stores of two drives are related, and the geometry is the same.
pub record OnDrive {S : Type 0} (R : S → S → Type 0) (d e : Drive S) : Type 0 where
  pub stores : R d.store e.store
  pub same_cfg : e.cfg ≡ d.cfg

module _ {S : Type 0} {io : Store S} {R : S → S → Type 0} (order : IsStoreOrder io R) where
  pub OnDrive-preorder : IsPreorder (OnDrive R)
  OnDrive-preorder = record {
    here = λ d. record { stores = order.preorder.here d.store; same_cfg = refl };
    chain = λ d e f h k. record {
      stores = order.preorder.chain d.store e.store f.store h.stores k.stores;
      same_cfg = k.same_cfg ∙ h.same_cfg;
    };
  }

  pub write_store-Keeps : (off : ℕ) (b : Bytes) → Keeps (OnDrive R) (write_store io off b)
  unfolding write_store
  write_store-Keeps off b = record {
    related = λ d. record { stores = order.write off b d.store; same_cfg = refl };
  }

  pub set_counter-Keeps : (off v : ℕ) → Keeps (OnDrive R) (set_counter io off v)
  unfolding set_counter
  set_counter-Keeps off v = write_store-Keeps off (put_le 8 v)

  pub counter-Keeps : (off : ℕ) → Keeps (OnDrive R) (counter io off)
  unfolding counter
  counter-Keeps off = search (keeps_rules, OnDrive-preorder)

  pub write_slot-Keeps : (t : Table) (i : ℕ) (b : Bytes) → Keeps (OnDrive R) (write_slot io t i b)
  unfolding write_slot
  write_slot-Keeps t i b = write_store-Keeps (t.base + t.slot_size * i) b

  pub ruleset drive_rules = (
    keeps_rules, OnDrive-preorder, write_store-Keeps, set_counter-Keeps, counter-Keeps,
    write_slot-Keeps,
  )

  module _ (keccak256 : Bytes → Bytes) where
    pub lookup-Keeps : (t : Table) (key : Bytes) → Keeps (OnDrive R) (lookup io keccak256 t key)
    unfolding lookup
    lookup-Keeps t key = search drive_rules

    pub insert_from-Keeps :
        (t : Table) (fuel : ℕ) (carry : Bytes) (h dist : ℕ)
        → Keeps (OnDrive R) (insert_from io keccak256 t fuel carry h dist)
    unfolding insert_from
    insert_from-Keeps t zero carry h dist = search drive_rules
    insert_from-Keeps t (suc fuel) carry h dist =
        let again = insert_from-Keeps t fuel in search (drive_rules, again) depth 9

    pub insert-Keeps : (t : Table) (rec : Bytes) → Keeps (OnDrive R) (insert io keccak256 t rec)
    unfolding insert
    insert-Keeps t rec = search (drive_rules, insert_from-Keeps)

    pub remove_from-Keeps :
        (t : Table) (fuel : ℕ) (i : ℕ) → Keeps (OnDrive R) (remove_from io keccak256 t fuel i)
    unfolding remove_from
    remove_from-Keeps t zero i = search drive_rules
    remove_from-Keeps t (suc fuel) i =
        let again = remove_from-Keeps t fuel in search (drive_rules, again) depth 9

    pub remove-Keeps : (t : Table) (i : ℕ) → Keeps (OnDrive R) (remove io keccak256 t i)
    unfolding remove
    remove-Keeps t i = search (drive_rules, remove_from-Keeps)
