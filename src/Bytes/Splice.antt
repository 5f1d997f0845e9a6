-- ===== src/Bytes/Splice.antt =====
-- Reads and writes of ranges: what a write leaves alone, and how it is undone.
use op_cartesi.Base.{
  ℕ, zero, suc, ◌+◌, ◌≤◌, ◌≡◌, refl, sym, ap, ◌∙◌, [], ◌∷◌, arith, length, take, drop, length-take,
  length-drop,
}
use op_cartesi.Bytes.{Bytes, slice, overlay, splice}

pub length-slice : (off n : ℕ) (b : Bytes) → off + n ≤ length b → length (slice off n b) ≡ n
length-slice off n b h = omega (arith, length-take n (drop off b), length-drop off b)

length-overlay : (vs b : Bytes) → length (overlay vs b) ≡ length b
length-overlay [] b = refl
length-overlay (v ∷ vs) [] = refl
length-overlay (v ∷ vs) (x ∷ b) = ap suc (length-overlay vs b)

pub length-splice : (off : ℕ) (vs b : Bytes) → length (splice off vs b) ≡ length b
length-splice zero vs b = length-overlay vs b
length-splice (suc off) vs [] = refl
length-splice (suc off) vs (x ∷ b) = ap suc (length-splice off vs b)

take-overlay : (vs b : Bytes) → length vs ≤ length b → take (length vs) (overlay vs b) ≡ vs
take-overlay [] b h = refl
take-overlay (v ∷ vs) [] h = absurd (omega arith)
take-overlay (v ∷ vs) (x ∷ b) h = ap (λ (r : Bytes). v ∷ r) (take-overlay vs b (omega arith))

-- What was written is read back.
pub slice-splice_self :
    (off : ℕ) (vs b : Bytes)
    → off + length vs ≤ length b
    → slice off (length vs) (splice off vs b) ≡ vs
slice-splice_self zero vs b h = take-overlay vs b (omega arith)
slice-splice_self (suc off) vs [] h = absurd (omega arith)
slice-splice_self (suc off) vs (x ∷ b) h = slice-splice_self off vs b (omega arith)

-- A range below the write.
pub slice-splice_below :
    (o n off : ℕ) (vs b : Bytes) → o + n ≤ off → slice o n (splice off vs b) ≡ slice o n b
slice-splice_below zero zero off vs b h = refl
slice-splice_below zero (suc n) zero vs b h = absurd (omega arith)
slice-splice_below zero (suc n) (suc off) vs [] h = refl
slice-splice_below zero (suc n) (suc off) vs (x ∷ b) h =
    ap (λ (r : Bytes). x ∷ r) (slice-splice_below zero n off vs b (omega arith))
slice-splice_below (suc o) n zero vs b h = absurd (omega arith)
slice-splice_below (suc o) n (suc off) vs [] h = refl
slice-splice_below (suc o) n (suc off) vs (x ∷ b) h = slice-splice_below o n off vs b (omega arith)

drop-overlay : (o : ℕ) (vs b : Bytes) → length vs ≤ o → drop o (overlay vs b) ≡ drop o b
drop-overlay o [] b h = refl
drop-overlay zero (v ∷ vs) b h = absurd (omega arith)
drop-overlay (suc o) (v ∷ vs) [] h = refl
drop-overlay (suc o) (v ∷ vs) (x ∷ b) h = drop-overlay o vs b (omega arith)

drop-splice : (o off : ℕ) (vs b : Bytes) → off + length vs ≤ o → drop o (splice off vs b) ≡ drop o b
drop-splice o zero vs b h = drop-overlay o vs b (omega arith)
drop-splice zero (suc off) vs b h = absurd (omega arith)
drop-splice (suc o) (suc off) vs [] h = refl
drop-splice (suc o) (suc off) vs (x ∷ b) h = drop-splice o off vs b (omega arith)

-- A range above the write.
pub slice-splice_above :
    (o n off : ℕ) (vs b : Bytes) → off + length vs ≤ o → slice o n (splice off vs b) ≡ slice o n b
slice-splice_above o n off vs b h = ap (take n) (drop-splice o off vs b h)

overlay_undo :
    (vs b : Bytes) → length vs ≤ length b → overlay (take (length vs) b) (overlay vs b) ≡ b
overlay_undo [] b h = refl
overlay_undo (v ∷ vs) [] h = absurd (omega arith)
overlay_undo (v ∷ vs) (x ∷ b) h = ap (λ (r : Bytes). x ∷ r) (overlay_undo vs b (omega arith))

-- Writing the old contents back restores the array.
pub splice_undo :
    (off : ℕ) (vs b : Bytes)
    → off + length vs ≤ length b
    → splice off (slice off (length vs) b) (splice off vs b) ≡ b
splice_undo zero vs b h = overlay_undo vs b (omega arith)
splice_undo (suc off) vs [] h = absurd (omega arith)
splice_undo (suc off) vs (x ∷ b) h = ap (λ (r : Bytes). x ∷ r) (splice_undo off vs b (omega arith))

-- A range within the write.
pub slice-splice_inside :
    (o n : ℕ) (vs b : Bytes)
    → o + n ≤ length vs
    → length vs ≤ length b
    → slice o n (splice 0 vs b) ≡ slice o n vs
slice-splice_inside o zero vs b h k = refl
slice-splice_inside o (suc n) [] b h k = absurd (omega (arith, h))
slice-splice_inside o (suc n) (v ∷ vs) [] h k = absurd (omega (arith, k))
slice-splice_inside zero (suc n) (v ∷ vs) (x ∷ b) h k =
    ap (λ (r : Bytes). v ∷ r)
      (slice-splice_inside zero n vs b (omega (arith, h)) (omega (arith, k)))
slice-splice_inside (suc o) (suc n) (v ∷ vs) (x ∷ b) h k =
    slice-splice_inside o (suc n) vs b (omega (arith, h)) (omega (arith, k))

drop-nil : (o : ℕ) → drop {A = ℕ} o [] ≡ []
drop-nil zero = refl
drop-nil (suc o) = refl

drop-drop : (off o : ℕ) (b : Bytes) → drop o (drop off b) ≡ drop (off + o) b
drop-drop zero o b = ap (λ (k : ℕ). drop k b) (omega arith)
drop-drop (suc off) o [] = drop-nil o ∙ sym (drop-nil (suc off + o))
drop-drop (suc off) o (x ∷ b) =
    let e : suc off + o ≡ suc (off + o) = omega arith in
    drop-drop off o b ∙ ap (λ (k : ℕ). drop k (x ∷ b)) (sym e)

take-take : (n m : ℕ) (b : Bytes) → m ≤ n → take m (take n b) ≡ take m b
take-take n zero b h = refl
take-take zero (suc m) b h = absurd (omega (arith, h))
take-take (suc n) (suc m) [] h = refl
take-take (suc n) (suc m) (x ∷ b) h = ap (λ (r : Bytes). x ∷ r) (take-take n m b (omega (arith, h)))

slice-take : (n o m : ℕ) (b : Bytes) → o + m ≤ n → slice o m (take n b) ≡ slice o m b
slice-take n zero m b h = take-take n m b (omega (arith, h))
slice-take zero (suc o) m b h = absurd (omega (arith, h))
slice-take (suc n) (suc o) m [] h = refl
slice-take (suc n) (suc o) m (x ∷ b) h = slice-take n o m b (omega (arith, h))

-- A part of a range.
pub slice-slice :
    (off n o m : ℕ) (b : Bytes) → o + m ≤ n → slice o m (slice off n b) ≡ slice (off + o) m b
slice-slice off n o m b h = slice-take n o m (drop off b) h ∙ ap (take m) (drop-drop off o b)
