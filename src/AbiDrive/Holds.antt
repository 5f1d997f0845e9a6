-- ===== src/AbiDrive/Holds.antt =====
-- Which entries an ABI drive holds (abi-drive/js/src/index.ts): where their slots and texts lie in
-- the store, and what writes elsewhere leave alone.
use native.Mathlib.Nat.{le_trans}
use mathlib.Core.Path.{subst}
use op_cartesi.AbiDrive.Slot.{IsSlot}
use op_cartesi.Base.{
  ℕ, suc, ◌+◌, ◌*◌, ◌≤◌, ◌<◌, ◌≡◌, ◌∙◌, ◌⊎◌, inl, inr, List, [], ◌∷◌, ◌++◌, arith, length, ok,
}
use op_cartesi.Bytes.{Bytes}
use op_cartesi.Store.{Store}
use op_cartesi.Store.Laws.{IsByteStore}
use op_cartesi.AbiDrive.Types.{TextCodec, AbiEntry}

-- A range inside another one is apart from what that one is apart from.
pub apart_within :
    (lo hi off m o n : ℕ)
    → (hi ≤ off) ⊎ (off + m ≤ lo)
    → lo ≤ o
    → o + n ≤ hi
    → (o + n ≤ off) ⊎ (off + m ≤ o)
apart_within lo hi off m o n (inl h) from to = inl (le_trans to h)
apart_within lo hi off m o n (inr h) from to = inr (le_trans h from)

module _ {S : Type 0} {io : Store S} (laws : IsByteStore io) (text : TextCodec) where
  -- The entry of the slot `i` of an index at `index`, with its text in the heap between `heap`
  -- and `top`.
  pub record Recorded (index heap top : ℕ) (s : S) (i : ℕ) (e : AbiEntry) : Type 0 where
    pub raw : Bytes
    pub blob : Bytes
    pub offset : ℕ
    pub size : ℕ
    pub raw_there : io.read_at (index + i * 32) 32 s ≡ ok raw
    pub slot : IsSlot raw e.address e.kind offset size
    pub blob_there : io.read_at offset size s ≡ ok blob
    pub text_is : text.decode blob ≡ e.abi
    pub above : heap ≤ offset
    pub below : offset + size ≤ top

  -- The entries of the slots from `i` on.
  abbrev pub AllRecorded : (index heap top : ℕ) → S → ℕ → List AbiEntry → Type 0
  AllRecorded index heap top s i [] = Unit {0}
  AllRecorded index heap top s i (e ∷ es) =
      Recorded index heap top s i e × AllRecorded index heap top s (i + 1) es

  module _ (index heap top : ℕ) (s : S) where
    Recorded-write :
        (i n : ℕ) (e : AbiEntry) (off : ℕ) (b : Bytes)
        → Recorded index heap top s i e
        → i < n
        → (index + n * 32 ≤ off) ⊎ (off + length b ≤ index)
        → (top ≤ off) ⊎ (off + length b ≤ heap)
        → Recorded index heap top (io.write_at off b s).1 i e
    Recorded-write i n e off b r inside index_apart heap_apart = record {
      raw = r.raw;
      blob = r.blob;
      offset = r.offset;
      size = r.size;
      raw_there =
          laws.read_apart (index + i * 32) 32 off b s (
            apart_within index (index + n * 32) off (length b) (index + i * 32) 32 index_apart
              (omega arith) (omega (arith, inside)))
          ∙ r.raw_there;
      slot = r.slot;
      blob_there =
          laws.read_apart r.offset r.size off b s
            (apart_within heap top off (length b) r.offset r.size heap_apart r.above r.below)
          ∙ r.blob_there;
      text_is = r.text_is;
      above = r.above;
      below = r.below;
    }

    pub AllRecorded-write :
        (i n : ℕ) (es : List AbiEntry) (off : ℕ) (b : Bytes)
        → AllRecorded index heap top s i es
        → i + length es ≤ n
        → (index + n * 32 ≤ off) ⊎ (off + length b ≤ index)
        → (top ≤ off) ⊎ (off + length b ≤ heap)
        → AllRecorded index heap top (io.write_at off b s).1 i es
    AllRecorded-write i n [] off b r inside index_apart heap_apart = tt
    AllRecorded-write i n (e ∷ es) off b (r, rs) inside index_apart heap_apart = (
      Recorded-write i n e off b r (omega (arith, inside)) index_apart heap_apart,
      AllRecorded-write (i + 1) n es off b rs (omega (arith, inside)) index_apart heap_apart,
    )

    -- The heap grows.
    Recorded-raise :
        (i : ℕ) (e : AbiEntry) (more : ℕ)
        → top ≤ more
        → Recorded index heap top s i e
        → Recorded index heap more s i e
    Recorded-raise i e more h r = record {
      raw = r.raw;
      blob = r.blob;
      offset = r.offset;
      size = r.size;
      raw_there = r.raw_there;
      slot = r.slot;
      blob_there = r.blob_there;
      text_is = r.text_is;
      above = r.above;
      below = le_trans r.below h;
    }

    pub AllRecorded-raise :
        (i : ℕ) (es : List AbiEntry) (more : ℕ)
        → top ≤ more
        → AllRecorded index heap top s i es
        → AllRecorded index heap more s i es
    AllRecorded-raise i [] more h r = tt
    AllRecorded-raise i (e ∷ es) more h (r, rs) =
        (Recorded-raise i e more h r, AllRecorded-raise (i + 1) es more h rs)

    pub AllRecorded-append :
        (i : ℕ) (es : List AbiEntry) (e : AbiEntry)
        → AllRecorded index heap top s i es
        → Recorded index heap top s (i + length es) e
        → AllRecorded index heap top s i (es ++ e ∷ [])
    AllRecorded-append i [] e rs r =
        let e₀ : i + 0 ≡ i = omega arith in
        (subst (λ (k : ℕ). Recorded index heap top s k e) e₀ r, tt)
    AllRecorded-append i (x ∷ es) e (r₀, rs) r =
        let e₁ : i + suc (length es) ≡ i + 1 + length es = omega arith in
        (
          r₀,
          AllRecorded-append (i + 1) es e rs
              (subst (λ (k : ℕ). Recorded index heap top s k e) e₁ r),
        )
