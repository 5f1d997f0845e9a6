-- ===== src/Drive/Table/Placed.antt =====
-- The rounds of an insertion in an ordered table (accounts-drive/js/src/drive.ts, `#insert`): what each
-- leaves is an ordered table with the records that were there and the one it carries.
use op_cartesi.Drive.Table.Insert.{after_swap}
use native.Mathlib.Nat.{mod-lt}
use mathlib.Core.Path.{subst}
use op_cartesi.Base.{
  ℕ, ◌+◌, ◌%◌, ◌≤◌, ◌<◌, ◌≡◌, refl, sym, ap, ◌∙◌, ◌⊎◌, inl, inr, true, false, arith, length,
}
use op_cartesi.Bytes.{Bytes}
use op_cartesi.Store.{Store}
use op_cartesi.Store.Laws.{IsByteStore}
use op_cartesi.Drive.Types.{Drive}
use op_cartesi.Drive.Table.{live, displacement, Table}
use op_cartesi.Drive.Table.Walk.{next_slot}
use op_cartesi.Drive.Table.Slots.{written, written-FitsIn, FitsIn}
use op_cartesi.Drive.Table.Order.{distance, home_of, MayStand, Ordered, Distinct}
use op_cartesi.Drive.Table.Finds.{Shows}
use op_cartesi.Drive.Table.Shift.{put, Ordered-put, MayStand-next, MayStand-behind}
use op_cartesi.Drive.Table.Turn.{displacement_at, MayStand-lt, Distinct-put, IsNew-put, IsNew}
use op_cartesi.Drive.Table.Held.{
  IsHeld-put_self, IsHeld-put, IsHeld-put_from, Shows-written, counted, counted-FitsIn,
  Shows-counted, IsHeld,
}

module _ {S : Type 0} {io : Store S} (laws : IsByteStore io) (keccak256 : Bytes → Bytes) where
  -- What an insertion of `carry` leaves of a table: its records are those of before and the new one.
  pub record IsInserted (t : Table) (f : ℕ → Bytes) (carry : Bytes) (d d_after : Drive S)
      : Type 0 where
    pub after : ℕ → Bytes
    pub same_cfg : d_after.cfg ≡ d.cfg
    pub fits_after : FitsIn laws t d_after.store
    pub shows_after : Shows io keccak256 t d_after.store after
    pub ordered_after : Ordered keccak256 d.cfg.seed t after
    pub distinct_after : Distinct keccak256 d.cfg.seed t after
    pub kept : (b : Bytes) → IsHeld t f b → IsHeld t after b
    pub placed : IsHeld t after carry
    pub origin : (b : Bytes) → IsHeld t after b → (b ≡ carry) ⊎ IsHeld t f b

  -- A round of the loop: the carried record, new to the table, may stand at the slot to look at.
  pub record IsRound (t : Table) (f : ℕ → Bytes) (carry : Bytes) (h dist : ℕ) (d : Drive S)
      : Type 0 where
    pub fits : FitsIn laws t d.store
    pub shows : Shows io keccak256 t d.store f
    pub ordered : Ordered keccak256 d.cfg.seed t f
    pub distinct : Distinct keccak256 d.cfg.seed t f
    pub new : IsNew keccak256 d.cfg.seed t f carry
    pub alive : live t carry ≡ true
    pub sized : length carry ≡ t.slot_size
    pub at_home : home_of keccak256 d.cfg.seed t carry ≡ h
    pub may : MayStand keccak256 d.cfg.seed t f ((h + dist) % t.capacity) dist

  module _ (t : Table) (f : ℕ → Bytes) (carry : Bytes) (h dist q : ℕ) (d : Drive S)
      (two : 1 < t.capacity) (inside_q : q < t.capacity) (free : live t (f q) ≡ false)
      (r : IsRound t f carry h dist d) where
    abbrev seed : Bytes
    seed = d.cfg.seed

    abbrev i : ℕ
    i = (h + dist) % t.capacity

    inside_i : i < t.capacity
    inside_i = mod-lt (h + dist) (omega (arith, two))

    carried : displacement keccak256 seed t carry i ≡ dist
    carried =
        ap (λ (n : ℕ). displacement keccak256 seed t carry ((n + dist) % t.capacity))
          (sym r.at_home)
        ∙ displacement_at keccak256 seed t carry dist (omega (arith, two))
            (MayStand-lt keccak256 seed t f i dist q r.ordered inside_i inside_q free r.may)

    after_put :
        (live t (f i) ≡ false) ⊎ (distance keccak256 seed t f i < dist)
        → Ordered keccak256 seed t (put f i carry)
    after_put yields =
        Ordered-put keccak256 seed t f i dist carry inside_i two r.alive carried r.ordered r.may
          yields

    -- At a free slot the insertion is done.
    pub IsInserted-free :
        (n : ℕ)
        → t.count_off + 8 ≤ t.base
        → live t (f i) ≡ false
        → IsInserted t f carry d (counted laws keccak256 t n (written laws t i carry d))
    IsInserted-free n before nobody = record {
      after = put f i carry;
      same_cfg = refl;
      fits_after =
          counted-FitsIn laws keccak256 t n (written laws t i carry d)
            (written-FitsIn laws t i carry d r.fits);
      shows_after =
          Shows-counted laws keccak256 t (put f i carry) n (written laws t i carry d) before
            (Shows-written laws keccak256 t f i carry d r.fits inside_i r.sized r.shows);
      ordered_after = after_put (inl nobody);
      distinct_after = Distinct-put keccak256 seed t f i carry inside_i r.distinct r.new;
      kept = λ b held. elim (IsHeld-put t f i carry b held) [
        | inl gave_way ↦
            let alive_i : live t (f i) ≡ true = ap (live t) (sym gave_way) ∙ held.alive in absurd cc
        | inr stays ↦ stays
      ];
      placed = IsHeld-put_self t f i carry inside_i r.alive;
      origin = IsHeld-put_from t f i carry;
    }

    -- The record that gives way is carried on.
    pub IsRound-swap :
        live t (f i) ≡ true
        → distance keccak256 seed t f i < dist
        → IsRound t
            (put f i carry)
            (f i)
            (home_of keccak256 seed t (f i))
            (distance keccak256 seed t f i + 1)
            (written laws t i carry d)
    IsRound-swap somebody nearer = record {
      fits = written-FitsIn laws t i carry d r.fits;
      shows = Shows-written laws keccak256 t f i carry d r.fits inside_i r.sized r.shows;
      ordered = after_put (inr nearer);
      distinct = Distinct-put keccak256 seed t f i carry inside_i r.distinct r.new;
      new = IsNew-put keccak256 seed t f i carry inside_i r.distinct r.new somebody;
      alive = somebody;
      sized = r.shows.sized i inside_i;
      at_home = refl;
      may =
          subst
            (λ (x : ℕ).
              MayStand keccak256 seed t (put f i carry) x (distance keccak256 seed t f i + 1))
            (sym (after_swap laws keccak256 t i (f i) seed inside_i))
            (MayStand-next keccak256 seed t f i dist carry inside_i two r.alive carried
              (distance keccak256 seed t f i) (omega (arith, nearer)));
    }

    -- The carried record goes on behind one that is as far from its home.
    pub IsRound-stay :
        live t (f i) ≡ true
        → dist ≤ distance keccak256 seed t f i
        → IsRound t f carry h (dist + 1) d
    IsRound-stay somebody far = record {
      fits = r.fits;
      shows = r.shows;
      ordered = r.ordered;
      distinct = r.distinct;
      new = r.new;
      alive = r.alive;
      sized = r.sized;
      at_home = r.at_home;
      may =
          subst (λ (x : ℕ). MayStand keccak256 seed t f x (dist + 1))
            (sym (next_slot h dist t.capacity))
            (MayStand-behind keccak256 seed t f i dist inside_i somebody far);
    }

    -- An insertion of the record that gave way, after the swap, is one of the carried record.
    pub IsInserted-swap :
        (d_after : Drive S)
        → live t (f i) ≡ true
        → IsInserted t (put f i carry) (f i) (written laws t i carry d) d_after
        → IsInserted t f carry d d_after
    IsInserted-swap d_after somebody rest = record {
      after = rest.after;
      same_cfg = rest.same_cfg;
      fits_after = rest.fits_after;
      shows_after = rest.shows_after;
      ordered_after = rest.ordered_after;
      distinct_after = rest.distinct_after;
      kept = λ b held. elim (IsHeld-put t f i carry b held) [
        | inl gave_way ↦ subst (IsHeld t rest.after) (sym gave_way) rest.placed
        | inr stays ↦ rest.kept b stays
      ];
      placed = rest.kept carry (IsHeld-put_self t f i carry inside_i r.alive);
      origin = λ b held. elim (rest.origin b held) [
        | inl given ↦ inr (record {
          index = i;
          inside = inside_i;
          is_there = sym given;
          alive = ap (live t) given ∙ somebody;
        })
        | inr there ↦ IsHeld-put_from t f i carry b there
      ];
    }
