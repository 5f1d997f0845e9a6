-- ===== src/Drive/Config/Regions.antt =====
-- The regions of a validated geometry (accounts-drive/js/src/drive.ts, `validateConfig`).
use op_cartesi.Base.{
  ℕ, ◌+◌, ◌≤◌, ◌<◌, ◌≡◌, refl, ◌⊎◌, Bool, true, false, List, [], ◌∷◌, arith, ltb_false→le,
  leb_false→lt, or_false, ConfigFault, Result, ok, err,
}
use op_cartesi.Drive.Types.{profile_sparse, header_size, NormalizedConfig}
use op_cartesi.Drive.Config.{
  refuse_if, ◌then_do◌, regions_of, check_inside, overlaps, check_apart_from, check_apart,
  validate_config, Region,
}

-- The last byte of the region is in the drive.
abbrev pub IsInside : ℕ → Region → Type 0
IsInside drive_len r = r.off + r.len ≤ drive_len

-- One region ends before the other begins.
abbrev pub IsApart : Region → Region → Type 0
IsApart a b = (a.off + a.len ≤ b.off) ⊎ (b.off + b.len ≤ a.off)

pub data All (P : Region → Type 0) : List Region → Type 0 where
  nil : All P []
  cons : {r : Region} {rs : List Region} → P r → All P rs → All P (r ∷ rs)

pub data AllApart : List Region → Type 0 where
  no_region : AllApart []
  apart_from_rest :
      {r : Region} {rs : List Region} → All (IsApart r) rs → AllApart rs → AllApart (r ∷ rs)

-- The checks that ran before a success succeeded.
then_do-ok : (r s : Result (Unit {0})) → (r then_do s) ≡ ok tt → (r ≡ ok tt) × (s ≡ ok tt)
then_do-ok (ok u) s h = (refl, h)
then_do-ok (err e) s h = absurd (cc)

refuse_if-ok : (b : Bool) (f : ConfigFault) → refuse_if b f ≡ ok tt → b ≡ false
refuse_if-ok true f h = absurd cc
refuse_if-ok false f h = refl

check_inside-All : (n : ℕ) (rs : List Region) → check_inside n rs ≡ ok tt → All (IsInside n) rs
unfolding check_inside
check_inside-All n [] h = nil
check_inside-All n (r ∷ rs) h =
    let (inside, rest) = then_do-ok _ _ h in
    cons (ltb_false→le _ _ (refuse_if-ok _ _ inside)) (check_inside-All n rs rest)

overlaps-IsApart : (a b : Region) → overlaps a b ≡ false → IsApart a b
unfolding overlaps
overlaps-IsApart a b h = ground arith

check_apart_from-All :
    (a : Region) (rs : List Region) → check_apart_from a rs ≡ ok tt → All (IsApart a) rs
unfolding check_apart_from
check_apart_from-All a [] h = nil
check_apart_from-All a (b ∷ rs) h =
    let (apart, rest) = then_do-ok _ _ h in
    cons (overlaps-IsApart a b (refuse_if-ok _ _ apart)) (check_apart_from-All a rs rest)

check_apart-AllApart : (rs : List Region) → check_apart rs ≡ ok tt → AllApart rs
unfolding check_apart
check_apart-AllApart [] h = no_region
check_apart-AllApart (a ∷ rs) h =
    let (here, rest) = then_do-ok _ _ h in
    apart_from_rest (check_apart_from-All a rs here) (check_apart-AllApart rs rest)

-- What a geometry has once it is validated.
pub record IsValid (c : NormalizedConfig) : Type 0 where
  pub known_profile : c.profile ≤ profile_sparse
  pub room : 2 ≤ c.capacity
  pub limited : (1 ≤ c.load_limit) × (c.load_limit < c.capacity)
  pub below_header : header_size ≤ c.table_offset
  pub inside : All (IsInside c.drive_length) (regions_of c)
  pub apart : AllApart (regions_of c)

-- A geometry that `validate_config` accepts has a known profile, a capacity of at least two, a
-- load limit from one to below the capacity, a table past the header, and regions that lie
-- inside the drive and end before one another begins.
pub validate_config-IsValid : (c : NormalizedConfig) → validate_config c ≡ ok tt → IsValid c
unfolding validate_config
validate_config-IsValid c h =
    let (h9, apart) = then_do-ok _ _ h in
    let (h8, inside) = then_do-ok _ _ h9 in
    let (h7, sparse) = then_do-ok _ _ h8 in
    let (h6, registry) = then_do-ok _ _ h7 in
    let (h5, offset) = then_do-ok _ _ h6 in
    let (h4, limit) = then_do-ok _ _ h5 in
    let (h3, small) = then_do-ok _ _ h4 in
    let (h2, slot) = then_do-ok _ _ h3 in
    let (h1, known) = then_do-ok _ _ h2 in
    let offset_false = refuse_if-ok _ _ offset in
    let limit_false = refuse_if-ok _ _ limit in
    record {
      known_profile = ltb_false→le _ _ (refuse_if-ok _ _ known);
      room = ltb_false→le _ _ (refuse_if-ok _ _ small);
      limited = (
        ltb_false→le _ _ (or_false _ _ limit_false).0,
        leb_false→lt _ _ (or_false _ _ limit_false).1,
      );
      below_header = ltb_false→le _ _ (or_false _ _ offset_false).0;
      inside = check_inside-All c.drive_length (regions_of c) inside;
      apart = check_apart-AllApart (regions_of c) apart;
    }
