-- ===== src/Drive/Table/Finds.antt =====
-- A search in a Robin Hood table finds what is there (accounts-drive/js/src/drive.ts, `#lookup`).
use native.Mathlib.Nat.{mod-lt}
use mathlib.Core.Path.{subst}
use op_cartesi.Drive.Types.{Drive}
use op_cartesi.Drive.Table.Walk.{displacement-lt, home-displacement}
use op_cartesi.Drive.Table.Search.{lookup_search}
use op_cartesi.Drive.Table.Found.{round, read_round}
use op_cartesi.Base.{
  ℕ, zero, suc, ◌+◌, ◌%◌, ◌≤◌, ◌<◌, ◌≡◌, refl, sym, ap, ◌∙◌, inl, inr, Bool, true, false, Option,
  none, some, arith, ltb, le→ltb_false, lt→==0_false, Bool-cases, length, Result, ok,
}
use op_cartesi.Bytes.{Bytes, bytes_equal}
use op_cartesi.Store.{Store}
use op_cartesi.Bytes.Equal.{eq_of_bytes_equal, bytes_equal_iff}
use op_cartesi.Drive.Table.{live, home, read_slot, lookup_from, lookup, Table}
use op_cartesi.Drive.Table.Order.{distance, way_back, Ordered, Distinct}

abbrev some_at : (ℕ → Bytes) → ℕ → Result (Option (ℕ × Bytes))
some_at f j = ok (some (j, f j))

module _ {S : Type 0} (io : Store S) (keccak256 : Bytes → Bytes) where
  -- The slots of the table in the store.
  pub record Shows (t : Table) (s : S) (f : ℕ → Bytes) : Type 0 where
    pub shown : (i : ℕ) → i < t.capacity → read_slot io t i s ≡ ok (f i)
    pub sized : (i : ℕ) → i < t.capacity → length (f i) ≡ t.slot_size

  module _ (seed : Bytes) (t : Table) (s : S) (f : ℕ → Bytes) (shows : Shows t s f) where
    -- The way from `h + dist` to the record at `p`, `m` slots on.
    on_the_way :
        (h dist m p : ℕ)
        → 0 < t.capacity
        → Ordered keccak256 seed t f
        → p ≡ (h + (dist + m)) % t.capacity
        → live t (f p) ≡ true
        → dist + m ≤ distance keccak256 seed t f p
        → (live t (f ((h + dist) % t.capacity)) ≡ true)
          × (dist ≤ distance keccak256 seed t f ((h + dist) % t.capacity))
    on_the_way h dist m p pos o at there far =
        way_back keccak256 seed t f h dist m pos o (subst (λ (j : ℕ). live t (f j) ≡ true) at there)
          (subst (λ (j : ℕ). dist + m ≤ distance keccak256 seed t f j) at far)

    -- A round at a live slot.
    round_there :
        (key : Bytes) (i dist : ℕ) (same short : Bool) (rest : Result (Option (ℕ × Bytes)))
        → i < t.capacity
        → live t (f i) ≡ true
        → bytes_equal (t.key_of (f i)) key ≡ same
        → ltb (distance keccak256 seed t f i) dist ≡ short
        → read_round io keccak256 seed t key i dist (read_slot io t i s) rest
          ≡ round true same short i (f i) rest
    round_there key i dist same short rest inside alive es eh =
        ap (λ (r : Result Bytes). read_round io keccak256 seed t key i dist r rest)
          (shows.shown i inside)
        ∙ λ j. round (alive j) (es j) (eh j) i (f i) rest

    lookup_from-finds :
        (key : Bytes) (h rounds dist m p : ℕ)
        → 0 < t.capacity
        → Ordered keccak256 seed t f
        → Distinct keccak256 seed t f
        → m < rounds
        → p ≡ (h + (dist + m)) % t.capacity
        → live t (f p) ≡ true
        → dist + m ≤ distance keccak256 seed t f p
        → bytes_equal (t.key_of (f p)) key ≡ true
        → lookup_from io keccak256 seed t key h rounds dist s ≡ ok (some (p, f p))
    unfolding lookup_from
    lookup_from-finds key h zero dist m p pos o u short at there far keyed =
        absurd (omega (arith, short))
    lookup_from-finds key h (suc rounds) dist zero p pos o u short at there far keyed =
        let i = (h + dist) % t.capacity in
        let here : p ≡ i = at ∙ ap (λ (n : ℕ). (h + n) % t.capacity) (omega arith) in
        let there_i = subst (λ (j : ℕ). live t (f j) ≡ true) here there in
        let keyed_i = subst (λ (j : ℕ). bytes_equal (t.key_of (f j)) key ≡ true) here keyed in
        round_there key i dist true _ _ (mod-lt (h + dist) pos) there_i keyed_i refl
        ∙ ap (λ (j : ℕ). some_at f j) (sym here)
    lookup_from-finds key h (suc rounds) dist (suc m) p pos o u short at there far keyed =
        let cap = t.capacity in
        let i = (h + dist) % cap in
        let inside : i < cap = mod-lt (h + dist) pos in
        let (alive, near) = on_the_way h dist (suc m) p pos o at there far in
        let inside_p : p < cap = subst (λ (j : ℕ). j < cap) (sym at) (mod-lt _ pos) in
        elim (Bool-cases (bytes_equal (t.key_of (f i)) key)) [
          | inl same ↦
              let one_key : bytes_equal (t.key_of (f i)) (t.key_of (f p)) ≡ true =
                (bytes_equal_iff (t.key_of (f i)) (t.key_of (f p))).1
                  (eq_of_bytes_equal _ key same ∙ sym (eq_of_bytes_equal _ key keyed)) in
              let one_slot = u.once i p inside inside_p alive there one_key in
              round_there key i dist true _ _ inside alive same refl
              ∙ ap (λ (j : ℕ). some_at f j) one_slot
          | inr other ↦
              round_there key i dist false false _ inside alive other
                (le→ltb_false dist (distance keccak256 seed t f i) near)
              ∙ lookup_from-finds key h rounds (dist + 1) m p pos o u (omega (arith, short))
                  (at ∙ ap (λ (n : ℕ). (h + n) % cap) (omega arith)) there (omega (arith, far))
                  keyed
        ]

    -- A key that no live slot has is not found.
    round_absent :
        (key : Bytes) (lives short : Bool) (i : ℕ) (slot : Bytes)
        (rest : Result (Option (ℕ × Bytes)))
        → rest ≡ ok none
        → (lives ≡ true → bytes_equal (t.key_of slot) key ≡ false)
        → round lives (bytes_equal (t.key_of slot) key) short i slot rest ≡ ok none
    round_absent key false short i slot rest e other = refl
    round_absent key true true i slot rest e other = rw (other refl) refl
    round_absent key true false i slot rest e other = rw (other refl) e

    lookup_from-absent :
        (key : Bytes) (h rounds dist : ℕ)
        → 0 < t.capacity
        → ((i : ℕ)
            → i < t.capacity
            → live t (f i) ≡ true
            → bytes_equal (t.key_of (f i)) key ≡ false)
        → lookup_from io keccak256 seed t key h rounds dist s ≡ ok none
    unfolding lookup_from
    lookup_from-absent key h zero dist pos absent = refl
    lookup_from-absent key h (suc rounds) dist pos absent =
        let i = (h + dist) % t.capacity in
        let inside : i < t.capacity = mod-lt (h + dist) pos in
        ap
          (λ (r : Result Bytes).
            read_round io keccak256 seed t key i dist r
              (lookup_from io keccak256 seed t key h rounds (dist + 1) s))
          (shows.shown i inside)
        ∙ round_absent key _ _ i (f i) _ (lookup_from-absent key h rounds (dist + 1) pos absent)
            (absent i inside)

  module _ (t : Table) (d : Drive S) (f : ℕ → Bytes) (shows : Shows t d.store f) where
    -- What stands in an ordered table is found where it stands.
    pub lookup-finds :
        (key : Bytes) (p : ℕ)
        → Ordered keccak256 d.cfg.seed t f
        → Distinct keccak256 d.cfg.seed t f
        → p < t.capacity
        → live t (f p) ≡ true
        → bytes_equal (t.key_of (f p)) key ≡ true
        → (lookup io keccak256 t key d).0 ≡ ok (some (p, f p))
    lookup-finds key p o u inside there keyed =
        let pos : 0 < t.capacity = omega (arith, inside) in
        let seed = d.cfg.seed in
        let far = distance keccak256 seed t f p in
        let same_home : home keccak256 seed (t.key_of (f p)) t.capacity
            ≡ home keccak256 seed key t.capacity =
          ap (λ (k : Bytes). home keccak256 seed k t.capacity) (eq_of_bytes_equal _ key keyed) in
        let at : p ≡ (home keccak256 seed key t.capacity + (0 + far)) % t.capacity =
          sym (home-displacement keccak256 seed t (f p) p inside)
          ∙ ap (λ (h : ℕ). (h + far) % t.capacity) same_home
          ∙ ap (λ (n : ℕ). (home keccak256 seed key t.capacity + n) % t.capacity) (omega arith) in
        lookup_search io keccak256 t key d (lt→==0_false 0 t.capacity pos)
        ∙ lookup_from-finds seed t d.store f shows key (home keccak256 seed key t.capacity)
            t.capacity 0 far p pos o u (displacement-lt keccak256 seed t (f p) p pos) at there
            (omega arith) keyed

    -- What stands nowhere is not found.
    pub lookup-absent :
        (key : Bytes)
        → 0 < t.capacity
        → ((i : ℕ)
            → i < t.capacity
            → live t (f i) ≡ true
            → bytes_equal (t.key_of (f i)) key ≡ false)
        → (lookup io keccak256 t key d).0 ≡ ok none
    lookup-absent key pos absent =
        lookup_search io keccak256 t key d (lt→==0_false 0 t.capacity pos)
        ∙ lookup_from-absent d.cfg.seed t d.store f shows key
            (home keccak256 d.cfg.seed key t.capacity) t.capacity 0 pos absent
