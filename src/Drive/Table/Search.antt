-- ===== src/Drive/Table/Search.antt =====
-- What a search gives (accounts-drive/js/src/drive.ts, `#lookup`).
use op_cartesi.Base.{
  ◌>>=◌, ℕ, ◌≡◌, refl, inl, inr, true, false, some, ◌==◌, Bool-cases, division_by_zero, error, ok,
  err,
}
use op_cartesi.Bytes.{Bytes}
use op_cartesi.Store.{Store}
use op_cartesi.Drive.Types.{Drive}
use op_cartesi.Drive.Table.{home, lookup_from, lookup, Table}

module _ {S : Type 0} (io : Store S) (keccak256 : Bytes → Bytes) where
  pub lookup_state : (t : Table) (key : Bytes) (d : Drive S) → (lookup io keccak256 t key d).1 ≡ d
  unfolding lookup ◌>>=◌
  lookup_state t key d = elim (Bool-cases (t.capacity == 0)) [
    | inl e ↦ rw e refl
    | inr e ↦ rw e refl
  ]

  pub lookup_search :
      (t : Table) (key : Bytes) (d : Drive S)
      → (t.capacity == 0) ≡ false
      → (lookup io keccak256 t key d).0
        ≡ lookup_from io keccak256 d.cfg.seed t key
            (home keccak256 d.cfg.seed key t.capacity)
            t.capacity
            0
            d.store
  unfolding lookup ◌>>=◌
  lookup_search t key d e = rw e refl

  lookup_refused :
      (t : Table) (key : Bytes) (d : Drive S)
      → (t.capacity == 0) ≡ true
      → (lookup io keccak256 t key d).0 ≡ err (error division_by_zero)
  unfolding lookup ◌>>=◌
  lookup_refused t key d e = rw e refl

  pub lookup-some :
      (t : Table) (key : Bytes) (i : ℕ) (slot : Bytes) (d : Drive S)
      → (lookup io keccak256 t key d).0 ≡ ok (some (i, slot))
      → (t.capacity == 0) ≡ false
  lookup-some t key i slot d e = elim (Bool-cases (t.capacity == 0)) [
    | inl none_there ↦ let refusal = lookup_refused t key d none_there in absurd cc
    | inr z ↦ z
  ]
