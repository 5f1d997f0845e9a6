-- ===== src/Drive/Accounts/Codec.antt =====
-- Reading an account record after writing it (`#encodeAccount`, `#decodeAccount`).
use op_cartesi.Bytes.Codec.{length-put_le, get_le-put_le, read_be-put_be, put_be-overflow}
use op_cartesi.Base.{
  ℕ, ◌+◌, ◌^◌, ◌≤◌, ◌<◌, ◌≡◌, refl, ap, ◌∙◌, ◌⊎◌, inl, inr, Bool, true, false, arith, ltb,
  if◌then◌else◌, le→ltb_false, ltb_false→le, Bool-cases, length, replicate, length-replicate,
  overflow, drive, ok, err,
}
use op_cartesi.Bytes.{Bytes, slice, splice, read_be, put_le}
use op_cartesi.Bytes.Splice.{length-splice, slice-splice_self, slice-splice_below}
use op_cartesi.Drive.Types.{NormalizedConfig}
use op_cartesi.Drive.Registry.{compact}
use op_cartesi.Drive.Accounts.{decode_account, encode_account}
use native.Mathlib.Nat.{mod-eq_of_lt}
use mathlib.Core.Path.{subst}

abbrev blank_record : ℕ → ℕ → ℕ → Bytes → Bytes → Bytes → Bytes
blank_record size o p addr n b = splice p b (splice o n (splice 0 addr (replicate size 0)))

-- Three fields that do not overlap read back.
fields :
    (size o p : ℕ) (addr n b : Bytes)
    → length addr ≤ o
    → o + length n ≤ p
    → p + length b ≤ size
    → (slice 0 (length addr) (blank_record size o p addr n b) ≡ addr)
      × (slice o (length n) (blank_record size o p addr n b) ≡ n)
      × (slice p (length b) (blank_record size o p addr n b) ≡ b)
fields size o p addr n b h k m =
    let blank : Bytes = replicate size 0 in
    let one : Bytes = splice 0 addr blank in
    let two : Bytes = splice o n one in
    let e0 : length blank ≡ size = length-replicate size 0 in
    let e1 : length one ≡ size = length-splice 0 addr blank ∙ e0 in
    let e2 : length two ≡ size = length-splice o n one ∙ e1 in
    (
      slice-splice_below 0 (length addr) p b two (omega arith)
          ∙ slice-splice_below 0 (length addr) o n one (omega arith)
          ∙ slice-splice_self 0 addr blank (omega arith),
      slice-splice_below o (length n) p b two k ∙ slice-splice_self o n one (omega arith),
      slice-splice_self p b two (omega arith),
    )

length-blank_record :
    (size o p : ℕ) (addr n b : Bytes) → length (blank_record size o p addr n b) ≡ size
length-blank_record size o p addr n b =
    length-splice p b _ ∙ length-splice o n _ ∙ length-splice 0 addr _ ∙ length-replicate size 0

-- The bytes of a record.
abbrev pub record_size : NormalizedConfig → ℕ
record_size cfg = if compact cfg then 32 else 64

-- What the record of an account holds.
pub record Holds (cfg : NormalizedConfig) (addr : Bytes) (nonce balance : ℕ) (rec : Bytes)
    : Type 0 where
  pub address_field : slice 0 20 rec ≡ addr
  pub numbers : decode_account cfg rec ≡ (nonce, balance)
  pub whole : length rec ≡ record_size cfg

compact-Holds :
    (cfg : NormalizedConfig) (addr : Bytes) (nonce balance : ℕ) (b : Bytes)
    → compact cfg ≡ true
    → length addr ≡ 20
    → nonce < 256 ^ 4
    → read_be b ≡ balance
    → length b ≡ 8
    → Holds cfg addr nonce balance (blank_record 32 20 24 addr (put_le 4 nonce) b)
unfolding decode_account
compact-Holds cfg addr nonce balance b h e fits value size =
    let n : Bytes = put_le 4 nonce in
    let R : Bytes = blank_record 32 20 24 addr n b in
    let w : length n ≡ 4 = length-put_le 4 nonce in
    let (f, g, k) = fields 32 20 24 addr n b (omega arith) (omega arith) (omega arith) in
    let nonce_field : slice 20 4 R ≡ n = subst (λ (j : ℕ). slice 20 j R ≡ n) w g in
    let balance_field : slice 24 8 R ≡ b = subst (λ (j : ℕ). slice 24 j R ≡ b) size k in
    record {
      address_field = subst (λ (j : ℕ). slice 0 j R ≡ addr) e f;
      numbers =
          rw (h, nonce_field, balance_field, get_le-put_le 4 nonce, value)
            (ap (λ (j : ℕ). (j, balance)) (mod-eq_of_lt fits));
      whole = rw h (length-blank_record 32 20 24 addr n b);
    }

standard-Holds :
    (cfg : NormalizedConfig) (addr : Bytes) (nonce balance : ℕ) (b : Bytes)
    → compact cfg ≡ false
    → length addr ≡ 20
    → nonce < 256 ^ 8
    → read_be b ≡ balance
    → length b ≡ 32
    → Holds cfg addr nonce balance (blank_record 64 24 32 addr (put_le 8 nonce) b)
unfolding decode_account
standard-Holds cfg addr nonce balance b h e fits value size =
    let n : Bytes = put_le 8 nonce in
    let R : Bytes = blank_record 64 24 32 addr n b in
    let w : length n ≡ 8 = length-put_le 8 nonce in
    let (f, g, k) = fields 64 24 32 addr n b (omega arith) (omega arith) (omega arith) in
    let nonce_field : slice 24 8 R ≡ n = subst (λ (j : ℕ). slice 24 j R ≡ n) w g in
    let balance_field : slice 32 32 R ≡ b = subst (λ (j : ℕ). slice 32 j R ≡ b) size k in
    record {
      address_field = subst (λ (j : ℕ). slice 0 j R ≡ addr) e f;
      numbers =
          rw (h, nonce_field, balance_field, get_le-put_le 8 nonce, value)
            (ap (λ (j : ℕ). (j, balance)) (mod-eq_of_lt fits));
      whole = rw h (length-blank_record 64 24 32 addr n b);
    }

-- The widths of the two fields that a geometry's records have.
abbrev pub nonce_bytes : NormalizedConfig → ℕ
nonce_bytes cfg = if compact cfg then 4 else 8

abbrev pub balance_bytes : NormalizedConfig → ℕ
balance_bytes cfg = if compact cfg then 8 else 32

-- For a 20-byte address and a nonce and a balance that fit their fields, the account is
-- encoded, and the record's first 20 bytes are the address and its decoding gives the nonce and
-- the balance.
pub decode-encode_account :
    (cfg : NormalizedConfig) (addr : Bytes) (nonce balance : ℕ)
    → length addr ≡ 20
    → nonce < 256 ^ nonce_bytes cfg
    → balance < 256 ^ balance_bytes cfg
    → (rec : Bytes) × (encode_account cfg addr nonce balance ≡ ok rec)
      × Holds cfg addr nonce balance rec
unfolding encode_account
decode-encode_account cfg addr nonce balance e fits small = elim (Bool-cases (compact cfg)) [
  | inl h ↦
      let (b, put, value, size) =
        read_be-put_be 8 balance
          (subst (λ (t : Bool). balance < 256 ^ (if t then 8 else 32)) h small) in
      let fits4 : nonce < 256 ^ 4 =
        subst (λ (t : Bool). nonce < 256 ^ (if t then 4 else 8)) h fits in
      (
        blank_record 32 20 24 addr (put_le 4 nonce) b,
        rw (h, le→ltb_false nonce 0xffff_ffff (omega arith), put) refl,
        compact-Holds cfg addr nonce balance b h e fits4 value size,
      )
  | inr h ↦
      let (b, put, value, size) =
        read_be-put_be 32 balance
          (subst (λ (t : Bool). balance < 256 ^ (if t then 8 else 32)) h small) in
      let fits8 : nonce < 256 ^ 8 =
        subst (λ (t : Bool). nonce < 256 ^ (if t then 4 else 8)) h fits in
      (
        blank_record 64 24 32 addr (put_le 8 nonce) b,
        rw (h, put) refl,
        standard-Holds cfg addr nonce balance b h e fits8 value size,
      )
]

-- A balance that does not fit the record's field, or a nonce that does not fit four bytes in a
-- compact record, is refused as an overflow.
pub encode_account-overflow :
    (cfg : NormalizedConfig) (addr : Bytes) (nonce balance : ℕ)
    → (256 ^ balance_bytes cfg ≤ balance) ⊎ ((compact cfg ≡ true) × (256 ^ 4 ≤ nonce))
    → encode_account cfg addr nonce balance ≡ err (drive overflow)
unfolding encode_account
encode_account-overflow cfg addr nonce balance h = elim (Bool-cases (compact cfg)) [
  | inl c ↦ elim (Bool-cases (ltb 0xffff_ffff nonce)) [
    | inl t ↦ rw (c, t) refl
    | inr f ↦ elim h [
      | inl big ↦
          let big8 : 256 ^ 8 ≤ balance =
            subst (λ (b : Bool). 256 ^ (if b then 8 else 32) ≤ balance) c big in
          rw (c, f, put_be-overflow 8 balance big8) refl
      | inr (c', wide) ↦ absurd (omega (arith, ltb_false→le 0xffff_ffff nonce f))
    ]
  ]
  | inr c ↦ elim h [
    | inl big ↦
        let big32 : 256 ^ 32 ≤ balance =
          subst (λ (b : Bool). 256 ^ (if b then 8 else 32) ≤ balance) c big in
        rw (c, put_be-overflow 32 balance big32) refl
    | inr (c', wide) ↦ absurd cc
  ]
]
