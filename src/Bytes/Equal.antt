-- ===== src/Bytes/Equal.antt =====
-- `bytesEqual` decides equality.
use op_cartesi.Base.{◌≡◌, refl, ◌≢◌, ◌↔◌, inl, inr, true, false, [], ◌∷◌, arith, Bool-cases}
use op_cartesi.Bytes.{Bytes, bytes_equal}

pub bytes_equal_refl : (a : Bytes) → bytes_equal a a ≡ true
unfolding bytes_equal
bytes_equal_refl [] = refl
bytes_equal_refl (x ∷ a) = ground (arith, bytes_equal_refl a)

pub eq_of_bytes_equal : (a b : Bytes) → bytes_equal a b ≡ true → a ≡ b
unfolding bytes_equal
eq_of_bytes_equal [] [] h = refl
eq_of_bytes_equal [] (y ∷ b) h = cc
eq_of_bytes_equal (x ∷ a) [] h = cc
eq_of_bytes_equal (x ∷ a) (y ∷ b) h = ground (arith, eq_of_bytes_equal a b)

pub bytes_equal_iff : (a b : Bytes) → (bytes_equal a b ≡ true) ↔ (a ≡ b)
bytes_equal_iff a b = (eq_of_bytes_equal a b, λ e. rw e (bytes_equal_refl b))

pub bytes_equal_other : (a b : Bytes) → a ≢ b → bytes_equal a b ≡ false
bytes_equal_other a b differs = elim (Bool-cases (bytes_equal a b)) [
  | inl e ↦ absurd (differs (eq_of_bytes_equal a b e))
  | inr e ↦ e
]
