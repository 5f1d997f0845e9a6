-- ===== src/App/L1Block/Attributes.antt =====
-- The packed L1 attributes: what an independent packer writes, the predeploy stores and serves
-- (app/src/handlers/l1block.ts).
use op_cartesi.Bytes.Equal.{bytes_equal_refl}
use op_cartesi.Evm.Types.{TxContext, accept}
use op_cartesi.Evm.External.{External}
use op_cartesi.App.World.{World}
use mathlib.Core.Bool.{and-false}
use op_cartesi.Base.{
  ◌>>=◌, ℕ, zero, suc, ◌+◌, ◌^◌, ◌≤◌, ◌<◌, ◌≡◌, refl, sym, ap, ◌∙◌, ◌⊎◌, inl, inr, false, not, ◌&&◌,
  some, [], ◌∷◌, ◌++◌, arith, le→ltb_false, length, take, drop, length-append, ok,
}
use op_cartesi.Bytes.{Bytes, slice, bytes_equal, read_be, fill_be}
use op_cartesi.Bytes.Codec.{length-fill_be, read_be_from-fill_be}
use op_cartesi.App.L1Block.{
  unpack_attributes, set_ecotone, set_isthmus, set_attributes, l1block_body, l1block_advance,
  L1Attributes, Guest,
}

-- The packed layout, from its last field to its first.
abbrev packed_from_128 : L1Attributes → Bytes → Bytes
packed_from_128 a tail = a.batcher_hash ++ tail

abbrev packed_from_96 : L1Attributes → Bytes → Bytes
packed_from_96 a tail = a.hash ++ packed_from_128 a tail

abbrev packed_from_64 : L1Attributes → Bytes → Bytes
packed_from_64 a tail = fill_be 32 a.blob_base_fee [] ++ packed_from_96 a tail

abbrev packed_from_32 : L1Attributes → Bytes → Bytes
packed_from_32 a tail = fill_be 32 a.basefee [] ++ packed_from_64 a tail

abbrev packed_from_24 : L1Attributes → Bytes → Bytes
packed_from_24 a tail = fill_be 8 a.number [] ++ packed_from_32 a tail

abbrev packed_from_16 : L1Attributes → Bytes → Bytes
packed_from_16 a tail = fill_be 8 a.timestamp [] ++ packed_from_24 a tail

abbrev packed_from_8 : L1Attributes → Bytes → Bytes
packed_from_8 a tail = fill_be 8 a.sequence_number [] ++ packed_from_16 a tail

abbrev packed_from_4 : L1Attributes → Bytes → Bytes
packed_from_4 a tail = fill_be 4 a.blob_base_fee_scalar [] ++ packed_from_8 a tail

-- What an attributes transaction carries behind its selector.
abbrev pub packed : L1Attributes → Bytes → Bytes
packed a tail = fill_be 4 a.base_fee_scalar [] ++ packed_from_4 a tail

-- Every field fits its place.
pub record Fits (a : L1Attributes) : Type 0 where
  pub base_fee_scalar_fits : a.base_fee_scalar < 256 ^ 4
  pub blob_base_fee_scalar_fits : a.blob_base_fee_scalar < 256 ^ 4
  pub sequence_number_fits : a.sequence_number < 256 ^ 8
  pub timestamp_fits : a.timestamp < 256 ^ 8
  pub number_fits : a.number < 256 ^ 8
  pub basefee_fits : a.basefee < 256 ^ 32
  pub blob_base_fee_fits : a.blob_base_fee < 256 ^ 32
  pub hash_fits : length a.hash ≡ 32
  pub batcher_hash_fits : length a.batcher_hash ≡ 32

take-append : (n : ℕ) (xs ys : Bytes) → length xs ≡ n → take n (xs ++ ys) ≡ xs
take-append zero [] ys e = refl
take-append (suc n) [] ys e = absurd (omega (arith, e))
take-append zero (x ∷ xs) ys e = absurd (omega (arith, e))
take-append (suc n) (x ∷ xs) ys e =
    ap (λ (r : Bytes). x ∷ r) (take-append n xs ys (omega (arith, e)))

drop-append : (n : ℕ) (xs ys : Bytes) → length xs ≡ n → drop n (xs ++ ys) ≡ ys
drop-append zero [] ys e = refl
drop-append (suc n) [] ys e = absurd (omega (arith, e))
drop-append zero (x ∷ xs) ys e = absurd (omega (arith, e))
drop-append (suc n) (x ∷ xs) ys e = drop-append n xs ys (omega (arith, e))

drop_nothing : (n : ℕ) → drop {A = ℕ} n [] ≡ []
drop_nothing zero = refl
drop_nothing (suc n) = refl

drop-drop : (k n : ℕ) (b : Bytes) → drop (k + n) b ≡ drop n (drop k b)
drop-drop zero n b = let e : 0 + n ≡ n = omega arith in ap (λ (i : ℕ). drop i b) e
drop-drop (suc k) n [] = drop_nothing (suc k + n) ∙ sym (drop_nothing n)
drop-drop (suc k) n (x ∷ b) =
    let e : suc k + n ≡ suc (k + n) = omega arith in
    ap (λ (i : ℕ). drop i (x ∷ b)) e ∙ drop-drop k n b

-- The next field of a body, and what stands behind it.
past : (k n : ℕ) (b xs ys : Bytes) → drop k b ≡ xs ++ ys → length xs ≡ n → drop (k + n) b ≡ ys
past k n b xs ys e l = drop-drop k n b ∙ ap (drop n) e ∙ drop-append n xs ys l

field : (k n : ℕ) (b xs ys : Bytes) → drop k b ≡ xs ++ ys → length xs ≡ n → slice k n b ≡ xs
field k n b xs ys e l = ap (take n) e ∙ take-append n xs ys l

word : (n v : ℕ) → length (fill_be n v []) ≡ n
word n v = omega (arith, length-fill_be n v [])

number_field :
    (k n v : ℕ) (b ys : Bytes)
    → drop k b ≡ fill_be n v [] ++ ys
    → v < 256 ^ n
    → read_be (slice k n b) ≡ v
unfolding read_be
number_field k n v b ys e h =
    ap read_be (field k n b (fill_be n v []) ys e (word n v))
    ∙ read_be_from-fill_be n v 0 [] h
    ∙ omega arith

pub unpack-packed :
    (a : L1Attributes) (tail : Bytes) → Fits a → unpack_attributes (packed a tail) ≡ a
unfolding unpack_attributes
unpack-packed a tail fits =
    let b = packed a tail in
    let d4 =
      past 0 4 b (fill_be 4 a.base_fee_scalar []) (packed_from_4 a tail) refl
        (word 4 a.base_fee_scalar) in
    let d8 =
      past 4 4 b (fill_be 4 a.blob_base_fee_scalar []) (packed_from_8 a tail) d4
        (word 4 a.blob_base_fee_scalar) in
    let d16 =
      past 8 8 b (fill_be 8 a.sequence_number []) (packed_from_16 a tail) d8
        (word 8 a.sequence_number) in
    let d24 =
      past 16 8 b (fill_be 8 a.timestamp []) (packed_from_24 a tail) d16 (word 8 a.timestamp) in
    let d32 = past 24 8 b (fill_be 8 a.number []) (packed_from_32 a tail) d24 (word 8 a.number) in
    let d64 =
      past 32 32 b (fill_be 32 a.basefee []) (packed_from_64 a tail) d32 (word 32 a.basefee) in
    let d96 =
      past 64 32 b (fill_be 32 a.blob_base_fee []) (packed_from_96 a tail) d64
        (word 32 a.blob_base_fee) in
    let d128 = past 96 32 b a.hash (packed_from_128 a tail) d96 fits.hash_fits in
    let p1 =
      number_field 0 4 a.base_fee_scalar b (packed_from_4 a tail) refl fits.base_fee_scalar_fits in
    let p2 =
      number_field 4 4 a.blob_base_fee_scalar b (packed_from_8 a tail) d4
        fits.blob_base_fee_scalar_fits in
    let p3 =
      number_field 8 8 a.sequence_number b (packed_from_16 a tail) d8 fits.sequence_number_fits in
    let p4 = number_field 16 8 a.timestamp b (packed_from_24 a tail) d16 fits.timestamp_fits in
    let p5 = number_field 24 8 a.number b (packed_from_32 a tail) d24 fits.number_fits in
    let p6 = number_field 32 32 a.basefee b (packed_from_64 a tail) d32 fits.basefee_fits in
    let p7 =
      number_field 64 32 a.blob_base_fee b (packed_from_96 a tail) d64 fits.blob_base_fee_fits in
    let p8 = field 96 32 b a.hash (packed_from_128 a tail) d96 fits.hash_fits in
    let p9 = field 128 32 b a.batcher_hash tail d128 fits.batcher_hash_fits in
    λ i. record {
      base_fee_scalar = p1 i;
      blob_base_fee_scalar = p2 i;
      sequence_number = p3 i;
      timestamp = p4 i;
      number = p5 i;
      basefee = p6 i;
      blob_base_fee = p7 i;
      hash = p8 i;
      batcher_hash = p9 i;
    }

longer : (n m : ℕ) (xs ys : Bytes) → length xs ≡ n → m ≤ length ys → n + m ≤ length (xs ++ ys)
longer n m xs ys e h = omega (arith, length-append xs ys, e, h)

length-packed : (a : L1Attributes) (tail : Bytes) → Fits a → 160 ≤ length (packed a tail)
length-packed a tail fits =
    let l32 = longer 32 0 a.batcher_hash tail fits.batcher_hash_fits (omega arith) in
    let l64 = longer 32 32 a.hash (packed_from_128 a tail) fits.hash_fits l32 in
    let l96 =
      longer 32 64 (fill_be 32 a.blob_base_fee []) (packed_from_96 a tail) (word 32 a.blob_base_fee)
        l64 in
    let l128 =
      longer 32 96 (fill_be 32 a.basefee []) (packed_from_64 a tail) (word 32 a.basefee) l96 in
    let l136 =
      longer 8 128 (fill_be 8 a.number []) (packed_from_32 a tail) (word 8 a.number) l128 in
    let l144 =
      longer 8 136 (fill_be 8 a.timestamp []) (packed_from_24 a tail) (word 8 a.timestamp) l136 in
    let l152 =
      longer 8 144 (fill_be 8 a.sequence_number []) (packed_from_16 a tail)
        (word 8 a.sequence_number) l144 in
    let l156 =
      longer 4 152 (fill_be 4 a.blob_base_fee_scalar []) (packed_from_8 a tail)
        (word 4 a.blob_base_fee_scalar) l152 in
    longer 4 156 (fill_be 4 a.base_fee_scalar []) (packed_from_4 a tail) (word 4 a.base_fee_scalar)
      l156

known_selector :
    (ext : External) (selector : Bytes)
    → (selector ≡ set_ecotone ext) ⊎ (selector ≡ set_isthmus ext)
    → (not (bytes_equal selector (set_ecotone ext)) && not (bytes_equal selector (set_isthmus ext)))
      ≡ false
known_selector ext selector (inl e) = rw (e, bytes_equal_refl (set_ecotone ext)) refl
known_selector ext selector (inr e) =
    rw
      (
        e,
        bytes_equal_refl (set_isthmus ext),
        and-false (not (bytes_equal (set_isthmus ext) (set_ecotone ext))),
      )
      refl

module _ {A : Type 0} (ext : External) where
  -- The world in which the predeploy has these attributes.
  abbrev pub with_attributes : L1Attributes → World (Guest A) → World (Guest A)
  with_attributes a w = record w { app = record (w.app) { attributes = some a } }

  pub l1block_advance_stores :
      (ctx : TxContext) (selector tail : Bytes) (a : L1Attributes) (w : World (Guest A))
      → length selector ≡ 4
      → (selector ≡ set_ecotone ext) ⊎ (selector ≡ set_isthmus ext)
      → Fits a
      → ctx.payload ≡ selector ++ packed a tail
      → l1block_advance ext ctx w ≡ (ok accept, with_attributes a w)
  unfolding l1block_advance l1block_body set_attributes ◌>>=◌
  l1block_advance_stores ctx selector tail a w four known fits carries =
      rw
        (
          carries,
          le→ltb_false 4 (length (selector ++ packed a tail))
              (longer 4 0 selector (packed a tail) four (omega arith)),
          take-append 4 selector (packed a tail) four,
          drop-append 4 selector (packed a tail) four,
          known_selector ext selector known,
          le→ltb_false 160 (length (packed a tail)) (length-packed a tail fits),
          unpack-packed a tail fits,
        )
        refl
