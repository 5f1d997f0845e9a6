-- ===== src/Drive/Table/Others.antt =====
-- The search for another key than the one of a rewritten record (accounts-drive/js/src/drive.ts,
-- `#lookup`).
use op_cartesi.Base.{
  ℕ, zero, suc, ◌+◌, ◌-◌, ◌%◌, ◌≡◌, refl, sym, ap, ◌∙◌, ◌≢◌, inl, inr, true, false, Option, ◌==◌,
  ==_iff, Bool-cases, Result, ok,
}
use op_cartesi.Bytes.{Bytes, bytes_equal}
use op_cartesi.Store.{Store}
use op_cartesi.Drive.Table.{live, home, displacement, read_slot, lookup_from, Table}
use op_cartesi.Drive.Table.Found.{not_same, read_round}

module _ {S : Type 0} (io : Store S) (keccak256 : Bytes → Bytes) where
  displacement_key :
      (seed : Bytes) (t : Table) (old new : Bytes) (p : ℕ)
      → t.key_of new ≡ t.key_of old
      → displacement keccak256 seed t new p ≡ displacement keccak256 seed t old p
  unfolding displacement
  displacement_key seed t old new p same =
      ap (λ (key : Bytes). (p + t.capacity - home keccak256 seed key t.capacity) % t.capacity) same

  round_other :
      (seed : Bytes) (t : Table) (key : Bytes) (p dist : ℕ) (old new : Bytes)
      (rest : Result (Option (ℕ × Bytes)))
      → live t old ≡ true
      → live t new ≡ true
      → t.key_of new ≡ t.key_of old
      → bytes_equal (t.key_of old) key ≡ false
      → read_round io keccak256 seed t key p dist (ok new) rest
        ≡ read_round io keccak256 seed t key p dist (ok old) rest
  round_other seed t key p dist old new rest lived lives same other =
      rw (lived, lives, same, other, displacement_key seed t old new p same) refl

  -- When one slot is rewritten with a live record of the same key, the search for another key
  -- ends as before.
  pub lookup_from-other :
      (seed : Bytes) (t : Table) (key : Bytes) (h rounds dist i : ℕ) (old new : Bytes) (s after : S)
      → read_slot io t i s ≡ ok old
      → read_slot io t i after ≡ ok new
      → live t old ≡ true
      → live t new ≡ true
      → t.key_of new ≡ t.key_of old
      → bytes_equal (t.key_of old) key ≡ false
      → ((j : ℕ) → j ≢ i → read_slot io t j after ≡ read_slot io t j s)
      → lookup_from io keccak256 seed t key h rounds dist after
        ≡ lookup_from io keccak256 seed t key h rounds dist s
  unfolding lookup_from
  lookup_from-other seed t key h zero dist i old new s after e f lived lives same other others =
      refl
  lookup_from-other seed t key h (suc rounds) dist i old new s after e f lived lives same other
        others =
      let p = (h + dist) % t.capacity in
      let before = lookup_from io keccak256 seed t key h rounds (dist + 1) s in
      let rest =
        lookup_from-other seed t key h rounds (dist + 1) i old new s after e f lived lives same
          other others in
      let later = lookup_from io keccak256 seed t key h rounds (dist + 1) after in
      let next : (r : Result Bytes)
          → read_round io keccak256 seed t key p dist r later
            ≡ read_round io keccak256 seed t key p dist r before =
        λ r.
          ap (λ (x : Result (Option (ℕ × Bytes))). read_round io keccak256 seed t key p dist r x)
            rest in
      elim (Bool-cases (p == i)) [
        | inl here ↦
            let p_is : p ≡ i = (==_iff p i).0 here in
            next (read_slot io t p after)
            ∙ ap (λ (r : Result Bytes). read_round io keccak256 seed t key p dist r before)
                (ap (λ (j : ℕ). read_slot io t j after) p_is ∙ f)
            ∙ round_other seed t key p dist old new before lived lives same other
            ∙ ap (λ (r : Result Bytes). read_round io keccak256 seed t key p dist r before)
                (sym (ap (λ (j : ℕ). read_slot io t j s) p_is ∙ e))
        | inr elsewhere ↦
            next (read_slot io t p after)
            ∙ ap (λ (r : Result Bytes). read_round io keccak256 seed t key p dist r before)
                (others p (not_same p i elsewhere))
      ]
