-- ===== src/AbiDrive/Header.antt =====
-- The fields of the ABI drive's header in the store (abi-drive/js/src/index.ts, `open` and the
-- counters of `register`).
use mathlib.Core.Path.{subst}
use op_cartesi.Bytes.Codec.{length-put_le, get_le-put_le}
use op_cartesi.Base.{
  ℕ, ◌+◌, ◌^◌, ◌≤◌, ◌<◌, ◌≡◌, refl, sym, ap, ◌∙◌, ◌⊎◌, inl, inr, List, [], ◌∷◌, arith, ok,
}
use op_cartesi.Bytes.{Bytes, slice, bytes_equal, get_le, put_le}
use op_cartesi.Store.{Store}
use op_cartesi.Store.Laws.{ok_bytes, IsByteStore}
use op_cartesi.AbiDrive.Types.{
  Text, abi_drive_magic, abi_drive_version, header_length, TextCodec, AbiDrive,
}
use op_cartesi.AbiDrive.Slot.{get_le-word}
use op_cartesi.AbiDrive.Format.{drive_of, opened, open_abi_drive}

abbrev AllBelow : ℕ → List ℕ → Type 0
AllBelow n [] = Unit {0}
AllBelow n (x ∷ xs) = (x < n) × AllBelow n xs

-- The platform's codec on ASCII, which is itself in UTF-8.
pub record IsAsciiCodec (text : TextCodec) : Type 0 where
  pub encode_ascii : (t : Text) → AllBelow 128 t → text.encode t ≡ t
  pub decode_ascii : (b : Bytes) → AllBelow 128 b → text.decode b ≡ b

module _ {S : Type 0} {io : Store S} (laws : IsByteStore io) where
  abbrev Word : S → ℕ → ℕ → Type 0
  Word s off v = io.read_at off 4 s ≡ ok (put_le 4 v)

  -- The store begins with the header of the drive.
  pub record HasHeader (d : AbiDrive S) (s : S) : Type 0 where
    pub magic_there : io.read_at 0 8 s ≡ ok abi_drive_magic
    pub version_there : io.read_at 8 2 s ≡ ok (put_le 2 abi_drive_version)
    pub capacity_there : Word s 12 d.capacity
    pub count_there : Word s 16 d.count
    pub index_there : Word s 20 d.index_offset
    pub heap_there : Word s 24 d.heap_offset
    pub length_there : Word s 28 d.heap_length
    pub used_there : Word s 32 d.heap_used

  -- A write behind the header.
  pub HasHeader-write :
      (d : AbiDrive S) (s : S) (off : ℕ) (b : Bytes)
      → header_length ≤ off
      → HasHeader d s
      → HasHeader d (io.write_at off b s).1
  HasHeader-write d s off b h k = record {
    magic_there = laws.read_apart 0 8 off b s (inl (omega (arith, h))) ∙ k.magic_there;
    version_there = laws.read_apart 8 2 off b s (inl (omega (arith, h))) ∙ k.version_there;
    capacity_there = laws.read_apart 12 4 off b s (inl (omega (arith, h))) ∙ k.capacity_there;
    count_there = laws.read_apart 16 4 off b s (inl (omega (arith, h))) ∙ k.count_there;
    index_there = laws.read_apart 20 4 off b s (inl (omega (arith, h))) ∙ k.index_there;
    heap_there = laws.read_apart 24 4 off b s (inl (omega (arith, h))) ∙ k.heap_there;
    length_there = laws.read_apart 28 4 off b s (inl (omega (arith, h))) ∙ k.length_there;
    used_there = laws.read_apart 32 4 off b s (inl (omega (arith, h))) ∙ k.used_there;
  }

  Word-written :
      (s : S) (off v : ℕ) → off + 4 ≤ laws.size s → Word (io.write_at off (put_le 4 v) s).1 off v
  Word-written s off v h =
      let four = length-put_le 4 v in
      subst (λ (n : ℕ). io.read_at off n (io.write_at off (put_le 4 v) s).1 ≡ ok (put_le 4 v)) four
        (laws.read_back off (put_le 4 v) s (omega (arith, four, h)))

  kept_beside :
      (s : S) (o n off v : ℕ) (b : Bytes)
      → (o + n ≤ off) ⊎ (off + 4 ≤ o)
      → io.read_at o n s ≡ ok b
      → io.read_at o n (io.write_at off (put_le 4 v) s).1 ≡ ok b
  kept_beside s o n off v b h e =
      laws.read_apart o n off (put_le 4 v) s
        (subst (λ (k : ℕ). (o + n ≤ off) ⊎ (off + k ≤ o)) (sym (length-put_le 4 v)) h)
      ∙ e

  -- The counters are written one after the other.
  pub HasHeader-count :
      (d : AbiDrive S) (s : S) (count : ℕ)
      → header_length ≤ laws.size s
      → HasHeader d s
      → HasHeader (record d { count = count }) (io.write_at 16 (put_le 4 count) s).1
  HasHeader-count d s count room k = record {
    magic_there = kept_beside s 0 8 16 count _ (inl (omega arith)) k.magic_there;
    version_there = kept_beside s 8 2 16 count _ (inl (omega arith)) k.version_there;
    capacity_there = kept_beside s 12 4 16 count _ (inl (omega arith)) k.capacity_there;
    count_there = Word-written s 16 count (omega (arith, room));
    index_there = kept_beside s 20 4 16 count _ (inr (omega arith)) k.index_there;
    heap_there = kept_beside s 24 4 16 count _ (inr (omega arith)) k.heap_there;
    length_there = kept_beside s 28 4 16 count _ (inr (omega arith)) k.length_there;
    used_there = kept_beside s 32 4 16 count _ (inr (omega arith)) k.used_there;
  }

  pub HasHeader-used :
      (d : AbiDrive S) (s : S) (used : ℕ)
      → header_length ≤ laws.size s
      → HasHeader d s
      → HasHeader (record d { heap_used = used }) (io.write_at 32 (put_le 4 used) s).1
  HasHeader-used d s used room k = record {
    magic_there = kept_beside s 0 8 32 used _ (inl (omega arith)) k.magic_there;
    version_there = kept_beside s 8 2 32 used _ (inl (omega arith)) k.version_there;
    capacity_there = kept_beside s 12 4 32 used _ (inl (omega arith)) k.capacity_there;
    count_there = kept_beside s 16 4 32 used _ (inl (omega arith)) k.count_there;
    index_there = kept_beside s 20 4 32 used _ (inl (omega arith)) k.index_there;
    heap_there = kept_beside s 24 4 32 used _ (inl (omega arith)) k.heap_there;
    length_there = kept_beside s 28 4 32 used _ (inl (omega arith)) k.length_there;
    used_there = Word-written s 32 used (omega (arith, room));
  }

  -- The numbers of the header fit their words.
  pub record FitsWords (d : AbiDrive S) : Type 0 where
    pub capacity_fits : d.capacity < 256 ^ 4
    pub count_fits : d.count < 256 ^ 4
    pub index_fits : d.index_offset < 256 ^ 4
    pub heap_fits : d.heap_offset < 256 ^ 4
    pub length_fits : d.heap_length < 256 ^ 4
    pub used_fits : d.heap_used < 256 ^ 4

  field_of :
      (s : S) (h : Bytes) (off v : ℕ)
      → io.read_at 0 header_length s ≡ ok h
      → off + 4 ≤ header_length
      → v < 256 ^ 4
      → Word s off v
      → get_le (slice off 4 h) ≡ v
  field_of s h off v e inside small there =
      let part : io.read_at off 4 s ≡ ok (slice off 4 h) =
        ap (λ (k : ℕ). io.read_at k 4 s) (omega arith)
        ∙ laws.read_part 0 header_length off 4 h s e inside in
      ap get_le (ok_bytes (slice off 4 h) (put_le 4 v) (sym part ∙ there)) ∙ get_le-word v small

  -- What `open` makes of the bytes that it reads.
  open_steps :
      (text : TextCodec) (h : Bytes) (s : S)
      → io.read_at 0 header_length s ≡ ok h
      → open_abi_drive io text s ≡ opened io text h s
  unfolding open_abi_drive
  open_steps text h s e = rw (e, open_abi_drive) refl

  opened_lem :
      (text : TextCodec) (h : Bytes) (s : S)
      → text.decode (slice 0 8 h) ≡ abi_drive_magic
      → get_le (slice 8 2 h) ≡ 1
      → opened io text h s ≡ ok (drive_of h s)
  unfolding bytes_equal
  opened_lem text h s magic version = rw (magic, version) refl

  -- A header reads as the drive that it was written for.
  pub open_abi_drive_lem :
      (text : TextCodec) (d : AbiDrive S)
      → IsAsciiCodec text
      → header_length ≤ laws.size d.store
      → FitsWords d
      → HasHeader d d.store
      → open_abi_drive io text d.store ≡ ok d
  unfolding drive_of
  open_abi_drive_lem text d ascii room fits k =
      let s = d.store in
      let (h, e, len) = laws.read_in 0 header_length s room in
      let magic =
        ok_bytes _ _ (sym (laws.read_part 0 64 0 8 h s e (omega arith)) ∙ k.magic_there) in
      let decoded = ap text.decode magic ∙ ascii.decode_ascii abi_drive_magic (omega arith) in
      let version =
        ap get_le
          (ok_bytes _ _ (sym (laws.read_part 0 64 8 2 h s e (omega arith)) ∙ k.version_there))
        ∙ get_le-put_le 2 1 in
      let f = λ (off v : ℕ). field_of s h off v e in
      open_steps text h s e ∙ opened_lem text h s decoded version ∙ λ i. ok (record {
        store = s;
        capacity = f 12 d.capacity (omega arith) fits.capacity_fits k.capacity_there i;
        count = f 16 d.count (omega arith) fits.count_fits k.count_there i;
        index_offset = f 20 d.index_offset (omega arith) fits.index_fits k.index_there i;
        heap_offset = f 24 d.heap_offset (omega arith) fits.heap_fits k.heap_there i;
        heap_length = f 28 d.heap_length (omega arith) fits.length_fits k.length_there i;
        heap_used = f 32 d.heap_used (omega arith) fits.used_fits k.used_there i;
      })
