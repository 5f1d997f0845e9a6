-- ===== src/Drive/Table/Located.antt =====
-- Where a search ends (accounts-drive/js/src/drive.ts, `#lookup`).
use op_cartesi.Base.{
  ℕ, zero, suc, ◌+◌, ◌%◌, ◌<◌, ◌≡◌, refl, ap, ◌∙◌, Bool, true, false, Option, some, ltb, Result, ok,
  err,
}
use op_cartesi.Bytes.{Bytes, bytes_equal}
use op_cartesi.Store.{Store}
use op_cartesi.Drive.Table.{live, displacement, read_slot, lookup_from, Table}
use op_cartesi.Drive.Table.Found.{index_of, slot_of, round, read_round}
use mathlib.Core.Path.{subst}
use native.Mathlib.Nat.{mod-lt}

module _ {S : Type 0} (io : Store S) (keccak256 : Bytes → Bytes) where
  -- What is found stands in the table, at a slot that reads so.
  pub record Located (t : Table) (key : Bytes) (s : S) (i : ℕ) (slot : Bytes) : Type 0 where
    pub located_inside : i < t.capacity
    pub located_slot : read_slot io t i s ≡ ok slot
    pub located_live : live t slot ≡ true
    pub located_key : bytes_equal (t.key_of slot) key ≡ true

  Located-there :
      (t : Table) (key : Bytes) (s : S) (p i : ℕ) (slot old : Bytes)
      → p < t.capacity
      → read_slot io t p s ≡ ok slot
      → live t slot ≡ true
      → bytes_equal (t.key_of slot) key ≡ true
      → p ≡ i
      → slot ≡ old
      → Located t key s i old
  Located-there t key s p i slot old inside e lives keyed here same = record {
    located_inside = subst (λ (j : ℕ). j < t.capacity) here inside;
    located_slot =
        subst (λ (j : ℕ). read_slot io t j s ≡ ok old) here (e ∙ ap (λ (b : Bytes). ok b) same);
    located_live = subst (λ (b : Bytes). live t b ≡ true) same lives;
    located_key = subst (λ (b : Bytes). bytes_equal (t.key_of b) key ≡ true) same keyed;
  }

  round-Located :
      (t : Table) (key : Bytes) (s : S) (lives same short : Bool) (p i : ℕ) (slot old : Bytes)
      (rest : Result (Option (ℕ × Bytes)))
      → p < t.capacity
      → read_slot io t p s ≡ ok slot
      → live t slot ≡ lives
      → bytes_equal (t.key_of slot) key ≡ same
      → round lives same short p slot rest ≡ ok (some (i, old))
      → (rest ≡ ok (some (i, old)) → Located t key s i old)
      → Located t key s i old
  round-Located t key s false same short p i slot old rest inside e lives keyed h k = absurd cc
  round-Located t key s true true short p i slot old rest inside e lives keyed h k =
      Located-there t key s p i slot old inside e lives keyed (ap index_of h) (ap slot_of h)
  round-Located t key s true false true p i slot old rest inside e lives keyed h k = absurd cc
  round-Located t key s true false false p i slot old rest inside e lives keyed h k = k h

  read-Located :
      (seed : Bytes) (t : Table) (key : Bytes) (s : S) (p i dist : ℕ) (r : Result Bytes)
      (old : Bytes) (rest : Result (Option (ℕ × Bytes)))
      → p < t.capacity
      → read_slot io t p s ≡ r
      → read_round io keccak256 seed t key p dist r rest ≡ ok (some (i, old))
      → (rest ≡ ok (some (i, old)) → Located t key s i old)
      → Located t key s i old
  read-Located seed t key s p i dist (err x) old rest inside e h k = absurd cc
  read-Located seed t key s p i dist (ok slot) old rest inside e h k =
      round-Located t key s (live t slot) (bytes_equal (t.key_of slot) key)
        (ltb (displacement keccak256 seed t slot p) dist) p i slot old rest inside e refl refl h k

  pub lookup_from-Located :
      (seed : Bytes) (t : Table) (key : Bytes) (h rounds dist i : ℕ) (old : Bytes) (s : S)
      → 0 < t.capacity
      → lookup_from io keccak256 seed t key h rounds dist s ≡ ok (some (i, old))
      → Located t key s i old
  unfolding lookup_from
  lookup_from-Located seed t key h zero dist i old s pos found = absurd cc
  lookup_from-Located seed t key h (suc rounds) dist i old s pos found =
      read-Located seed t key s ((h + dist) % t.capacity) i dist
        (read_slot io t ((h + dist) % t.capacity) s) old _ (mod-lt (h + dist) pos) refl found
        λ rest. lookup_from-Located seed t key h rounds (dist + 1) i old s pos rest
