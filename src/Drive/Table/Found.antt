-- ===== src/Drive/Table/Found.antt =====
-- A record that is found is found again after it is written in its place
-- (accounts-drive/js/src/drive.ts, `#lookup`).
use op_cartesi.Base.{
  ℕ, zero, suc, ◌+◌, ◌%◌, ◌≡◌, refl, sym, ap, ◌∙◌, ◌≢◌, inl, inr, Bool, true, false, not, Option,
  none, some, [], arith, ltb, ◌==◌, if◌then◌else◌, ==_iff, Bool-cases, Result, ok, err,
}
use op_cartesi.Bytes.{Bytes, bytes_equal}
use op_cartesi.Store.{Store}
use op_cartesi.Drive.Table.{live, displacement, read_slot, lookup_from, Table}
use mathlib.Core.Path.{subst}

pub not_same : (p i : ℕ) → (p == i) ≡ false → p ≢ i
not_same p i h = λ e. absurd (ground arith)

-- The index of what was found.
abbrev pub index_of : Result (Option (ℕ × Bytes)) → ℕ
index_of (ok (some (i, slot))) = i
index_of (ok none) = 0
index_of (err e) = 0

abbrev pub slot_of : Result (Option (ℕ × Bytes)) → Bytes
slot_of (ok (some (i, slot))) = slot
slot_of (ok none) = []
slot_of (err e) = []

-- One round of the loop, by what it has read and tested.
abbrev pub round :
    Bool → Bool → Bool → ℕ → Bytes → Result (Option (ℕ × Bytes)) → Result (Option (ℕ × Bytes))
round lives same short p slot rest =
    if not lives
    then ok none
    else if same
    then ok (some (p, slot))
    else if short
    then ok none
    else rest

-- At another slot than the one to be found, the round goes on.
round_elsewhere :
    (lives same short : Bool) (p i : ℕ) (slot old : Bytes) (rest : Result (Option (ℕ × Bytes)))
    (after : Result (Option (ℕ × Bytes))) (new : Bytes)
    → p ≢ i
    → round lives same short p slot rest ≡ ok (some (i, old))
    → (rest ≡ ok (some (i, old)) → after ≡ ok (some (i, new)))
    → round lives same short p slot after ≡ ok (some (i, new))
round_elsewhere false same short p i slot old rest after new differs h k = absurd cc
round_elsewhere true true short p i slot old rest after new differs h k =
    absurd (differs (ap index_of h))
round_elsewhere true false true p i slot old rest after new differs h k = absurd cc
round_elsewhere true false false p i slot old rest after new differs h k = k h

module _ {S : Type 0} (io : Store S) (keccak256 : Bytes → Bytes) where
  -- What the round makes of the slot that it reads.
  abbrev pub read_round :
      Bytes
      → Table
      → Bytes
      → ℕ
      → ℕ
      → Result Bytes
      → Result (Option (ℕ × Bytes))
      → Result (Option (ℕ × Bytes))
  read_round seed t key p dist r rest = elim r [
    | err e ↦ err e
    | ok slot ↦
        round (live t slot) (bytes_equal (t.key_of slot) key)
          (ltb (displacement keccak256 seed t slot p) dist) p slot rest
  ]

  round_read :
      (seed : Bytes) (t : Table) (key : Bytes) (p i dist : ℕ) (r : Result Bytes) (old new : Bytes)
      (rest after : Result (Option (ℕ × Bytes)))
      → p ≢ i
      → read_round seed t key p dist r rest ≡ ok (some (i, old))
      → (rest ≡ ok (some (i, old)) → after ≡ ok (some (i, new)))
      → read_round seed t key p dist r after ≡ ok (some (i, new))
  round_read seed t key p i dist (err e) old new rest after differs h k = absurd cc
  round_read seed t key p i dist (ok slot) old new rest after differs h k =
      round_elsewhere (live t slot) (bytes_equal (t.key_of slot) key)
        (ltb (displacement keccak256 seed t slot p) dist) p i slot old rest after new differs h k

  round_here :
      (seed : Bytes) (t : Table) (key : Bytes) (p dist : ℕ) (new : Bytes)
      (rest : Result (Option (ℕ × Bytes)))
      → live t new ≡ true
      → bytes_equal (t.key_of new) key ≡ true
      → read_round seed t key p dist (ok new) rest ≡ ok (some (p, new))
  round_here seed t key p dist new rest lives same = rw (lives, same) refl

  -- In a store that reads as before but for the slot where the record was found, and there as a
  -- live one with the same key, the same search ends there.
  pub lookup_from-again :
      (seed : Bytes) (t : Table) (key : Bytes) (h rounds dist i : ℕ) (old new : Bytes) (s after : S)
      → lookup_from io keccak256 seed t key h rounds dist s ≡ ok (some (i, old))
      → read_slot io t i after ≡ ok new
      → live t new ≡ true
      → bytes_equal (t.key_of new) key ≡ true
      → ((j : ℕ) → j ≢ i → read_slot io t j after ≡ read_slot io t j s)
      → lookup_from io keccak256 seed t key h rounds dist after ≡ ok (some (i, new))
  unfolding lookup_from
  lookup_from-again seed t key h zero dist i old new s after found e lives same others = absurd cc
  lookup_from-again seed t key h (suc rounds) dist i old new s after found e lives same others =
      let p = (h + dist) % t.capacity in
      elim (Bool-cases (p == i)) [
        | inl here ↦
            let p_is : p ≡ i = (==_iff p i).0 here in
            let e' : read_slot io t p after ≡ ok new =
              subst (λ (j : ℕ). read_slot io t j after ≡ ok new) (sym p_is) e in
            subst
              (λ (r : Result Bytes).
                read_round seed t key p dist r
                  (lookup_from io keccak256 seed t key h rounds (dist + 1) after)
                ≡ ok (some (i, new)))
              (sym e')
              (round_here seed t key p dist new _ lives same
                ∙ ap (λ (j : ℕ). ok (some (j, new))) p_is)
        | inr elsewhere ↦
            let differs : p ≢ i = not_same p i elsewhere in
            subst
              (λ (r : Result Bytes).
                read_round seed t key p dist r
                  (lookup_from io keccak256 seed t key h rounds (dist + 1) after)
                ≡ ok (some (i, new)))
              (sym (others p differs))
              (round_read seed t key p i dist (read_slot io t p s) old new _ _ differs found λ rest.
                lookup_from-again seed t key h rounds (dist + 1) i old new s after rest e lives same
                  others)
      ]
