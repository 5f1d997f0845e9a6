-- ===== src/AbiDrive/Slot.antt =====
-- The bytes of an index slot of the ABI drive (abi-drive/js/src/index.ts, `register` and `entryAt`).
use native.Mathlib.Nat.{mod-eq_of_lt}
use op_cartesi.Base.{
  ℕ, ◌+◌, ◌%◌, ◌^◌, ◌≤◌, ◌<◌, ◌≡◌, refl, sym, ap, ◌∙◌, ◌⊎◌, inl, inr, [], ◌∷◌, arith, length,
  replicate,
}
use op_cartesi.Bytes.{Bytes, slice, splice, get_le, put_le}
use op_cartesi.Bytes.Splice.{
  length-splice, slice-splice_self, slice-splice_below, slice-splice_above,
}
use op_cartesi.Bytes.Codec.{length-put_le, get_le-put_le}
use op_cartesi.AbiDrive.Records.{slot_bytes}

-- What a field of some bytes is after later writes beside it.
slice_kept :
    (o n off : ℕ) (vs b r : Bytes)
    → (o + n ≤ off) ⊎ (off + length vs ≤ o)
    → slice o n b ≡ r
    → slice o n (splice off vs b) ≡ r
slice_kept o n off vs b r (inl h) e = slice-splice_below o n off vs b h ∙ e
slice_kept o n off vs b r (inr h) e = slice-splice_above o n off vs b h ∙ e

-- What is written to a field of known width.
slice_put :
    (off n : ℕ) (vs b : Bytes)
    → length vs ≡ n
    → off + n ≤ length b
    → slice off n (splice off vs b) ≡ vs
slice_put off n vs b e h =
    ap (λ (k : ℕ). slice off k (splice off vs b)) (sym e)
    ∙ slice-splice_self off vs b (omega (arith, e, h))

pub get_le-word : (v : ℕ) → v < 256 ^ 4 → get_le (put_le 4 v) ≡ v
get_le-word v h = get_le-put_le 4 v ∙ mod-eq_of_lt h

pub get_le-byte : (k : ℕ) → get_le (k ∷ []) ≡ k
unfolding get_le
get_le-byte k = omega arith

-- The slot's fields.
pub record IsSlot (raw address : Bytes) (kind offset size : ℕ) : Type 0 where
  pub raw_length : length raw ≡ 32
  pub address_field : slice 0 20 raw ≡ address
  pub kind_field : get_le (slice 20 1 raw) ≡ kind
  pub offset_field : get_le (slice 22 4 raw) ≡ offset
  pub size_field : get_le (slice 26 4 raw) ≡ size

pub length-slot_bytes :
    (address : Bytes) (kind offset size : ℕ) → length (slot_bytes address kind offset size) ≡ 32
unfolding slot_bytes
length-slot_bytes address kind offset size =
    length-splice 26 (put_le 4 size) _
    ∙ length-splice 22 (put_le 4 offset) _
    ∙ length-splice 20 ((kind % 256) ∷ []) _
    ∙ length-splice 0 address (replicate 32 0)

pub slot_bytes-IsSlot :
    (address : Bytes) (kind offset size : ℕ)
    → length address ≡ 20
    → kind < 256
    → offset < 256 ^ 4
    → size < 256 ^ 4
    → IsSlot (slot_bytes address kind offset size) address kind offset size
unfolding slot_bytes
slot_bytes-IsSlot address kind offset size len small_kind small_offset small_size =
    let blank : Bytes = replicate 32 0 in
    let k : Bytes = (kind % 256) ∷ [] in
    let o = put_le 4 offset in
    let z = put_le 4 size in
    let b₁ = splice 0 address blank in
    let b₂ = splice 20 k b₁ in
    let b₃ = splice 22 o b₂ in
    let lo = length-put_le 4 offset in
    let lz = length-put_le 4 size in
    let l₁ : length b₁ ≡ 32 = length-splice 0 address blank in
    let l₂ : length b₂ ≡ 32 = length-splice 20 k b₁ ∙ l₁ in
    let l₃ : length b₃ ≡ 32 = length-splice 22 o b₂ ∙ l₂ in
    record {
      raw_length = length-splice 26 z b₃ ∙ l₃;
      address_field = slice_kept 0 20 26 z b₃ address (inl (omega arith)) (
          slice_kept 0 20 22 o b₂ address (inl (omega arith)) (
            slice_kept 0 20 20 k b₁ address (inl (omega arith))
              (slice_put 0 20 address blank len (omega arith))));
      kind_field =
          ap get_le (
            slice_kept 20 1 26 z b₃ k (inl (omega arith)) (
              slice_kept 20 1 22 o b₂ k (inl (omega arith))
                (slice_put 20 1 k b₁ refl (omega (arith, l₁)))))
          ∙ get_le-byte (kind % 256)
          ∙ mod-eq_of_lt small_kind;
      offset_field =
          ap get_le (
            slice_kept 22 4 26 z b₃ o (inl (omega arith))
              (slice_put 22 4 o b₂ lo (omega (arith, l₂))))
          ∙ get_le-word offset small_offset;
      size_field =
          ap get_le (slice_put 26 4 z b₃ lz (omega (arith, l₃))) ∙ get_le-word size small_size;
    }
