-- ===== src/PointsTo/Single.antt =====
-- include/dg/analysis/PointsTo/SingleBitvectorPointsToSet.h: one bitvector with the numbers of the
-- pointers. The iterator reads the table `idVector` of PointsTo.Ids; in the operations, `id` and
-- `pointer_of` stand for the numbers that the tables give.
pub mod Laws
use dg.Base.{ℕ, Bool, true, false, not, ◌||◌, ◌&&◌, Option, List, [], ◌∷◌, map, ◌-◌}
use dg.Base.{◌==◌, if◌then◌else◌}
use dg.Adt.Bitvector
use dg.Adt.Bitvector.{Bitvector}
use dg.Offset.{unknown, is_unknown}
use dg.PointsTo.{Pointer}
use dg.PointsTo.Ids.{Tables, item_at}

-- The numbers of the pointers.
pub record Numbering : Type 0 where
  pub id : Pointer → ℕ
  pub pointer_of : ℕ → Pointer

abbrev pub PointsToSet : Type 0
PointsToSet = Bitvector

abbrev pub at_unknown : ℕ → Pointer
at_unknown target = record { target = target; offset = unknown }

module _ (N : Numbering) where
  unfoldable pub points_to : PointsToSet → Pointer → Bool
  points_to v p = Bitvector.get v (N.id p)

  -- The first loop of `removeAny`
  unfoldable pub ids_of_target : ℕ → List ℕ → List ℕ
  ids_of_target target [] = []
  ids_of_target target (n ∷ ns) =
      let rest = ids_of_target target ns in
      if (N.pointer_of n).target == target then n ∷ rest else rest

  -- The second loop of `removeAny`
  unfoldable pub unset_all : List ℕ → PointsToSet → PointsToSet
  unset_all [] v = v
  unset_all (n ∷ ns) v = unset_all ns (Bitvector.unset v n).0

  abbrev is_nonempty : List ℕ → Bool
  is_nonempty [] = false
  is_nonempty (n ∷ ns) = true

  -- `removeAny`
  unfoldable pub remove_any : ℕ → PointsToSet → PointsToSet × Bool
  remove_any target v =
      let to_remove = ids_of_target target (Bitvector.elements v) in
      (unset_all to_remove v, is_nonempty to_remove)

  -- `addWithUnknownOffset`
  unfoldable pub add_with_unknown_offset : ℕ → PointsToSet → PointsToSet × Bool
  add_with_unknown_offset target v =
      let r = Bitvector.set (remove_any target v).0 (N.id (at_unknown target)) in (r.0, not r.1)

  -- `add` of a pointer
  unfoldable pub add : Pointer → PointsToSet → PointsToSet × Bool
  add p v =
      if points_to v (at_unknown p.target)
      then (v, false)
      else if is_unknown p.offset
      then add_with_unknown_offset p.target v
      else let r = Bitvector.set v (N.id p) in (r.0, not r.1)

  -- `add` of another set
  unfoldable pub union : PointsToSet → PointsToSet → PointsToSet × Bool
  union v rhs = Bitvector.union v rhs

  unfoldable pub remove : Pointer → PointsToSet → PointsToSet × Bool
  remove p v = Bitvector.unset v (N.id p)

  unfoldable pub may_point_to : PointsToSet → Pointer → Bool
  may_point_to v p = points_to v p || points_to v (at_unknown p.target)

  unfoldable pub is_singleton : PointsToSet → Bool
  is_singleton v = Bitvector.size v == 1

  unfoldable pub must_point_to : PointsToSet → Pointer → Bool
  must_point_to v p = points_to v p && is_singleton v

-- What the iterator visits: `idVector` at each number less one.
unfoldable pub pointers : Tables → PointsToSet → List (Option Pointer)
pointers t v = map (λ n. item_at t.id_vector (n - 1)) (Bitvector.elements v)
