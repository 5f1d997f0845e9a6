-- ===== src/Ledger/Journal/Maps.antt =====
-- JavaScript maps: functions by key, and association lists in insertion order.
use op_cartesi.Base.{ℕ, ◌≡◌, fun_ext, Option, none, some, List, [], ◌∷◌, arith, ◌==◌, if◌then◌else◌}
use op_cartesi.Bytes.{Bytes, bytes_equal}
use op_cartesi.Bytes.Equal.{bytes_equal_refl, bytes_equal_iff}

abbrev pub update_id : {A : Type 0} → (ℕ → A) → ℕ → A → ℕ → A
update_id f k v q = if q == k then v else f q

abbrev pub update : {A : Type 0} → (Bytes → A) → Bytes → A → Bytes → A
update f k v q = if bytes_equal q k then v else f q

-- Setting a key and then its old value back.
pub update_id_undo :
    {A : Type 0} (f : ℕ → A) (k : ℕ) (v : A) → update_id (update_id f k v) k (f k) ≡ f
update_id_undo f k v = fun_ext λ q. ground arith

pub update_undo :
    {A : Type 0} (f : Bytes → A) (k : Bytes) (v : A) → update (update f k v) k (f k) ≡ f
update_undo f k v = fun_ext λ q. ground (arith, bytes_equal_iff q k)

module _ {V : Type 0} where
  -- `m.get(k)`
  unfoldable pub lookup : Bytes → List (Bytes × V) → Option V
  lookup k [] = none
  lookup k ((j, v) ∷ m) = if bytes_equal j k then some v else lookup k m

  -- `m.set(k, v)`: a present key keeps its place.
  unfoldable pub insert : Bytes → V → List (Bytes × V) → List (Bytes × V)
  insert k v [] = (k, v) ∷ []
  insert k v ((j, w) ∷ m) = if bytes_equal j k then (j, v) ∷ m else (j, w) ∷ insert k v m

  -- `m.delete(k)`
  unfoldable pub erase : Bytes → List (Bytes × V) → List (Bytes × V)
  erase k [] = []
  erase k ((j, w) ∷ m) = if bytes_equal j k then m else (j, w) ∷ erase k m

  pub insert_undo_none :
      (k : Bytes) (v : V) (m : List (Bytes × V)) → lookup k m ≡ none → erase k (insert k v m) ≡ m
  unfolding lookup insert erase
  insert_undo_none k v [] h = rw (bytes_equal_refl k)
  insert_undo_none k v ((j, w) ∷ m) h = ground (arith, insert_undo_none k v m)

  pub insert_undo_some :
      (k : Bytes) (v w : V) (m : List (Bytes × V))
      → lookup k m ≡ some w
      → insert k w (insert k v m) ≡ m
  unfolding lookup insert
  insert_undo_some k v w [] h = cc
  insert_undo_some k v w ((j, u) ∷ m) h = ground (arith, insert_undo_some k v w m)
