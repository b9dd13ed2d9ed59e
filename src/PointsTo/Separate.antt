-- ===== src/PointsTo/Separate.antt =====
-- include/dg/analysis/PointsTo/SeparateOffsetsPointsToSet.h: nodes and offsets in two bitvectors; the
-- set stands for all pairs of them. `remove` and `removeAny` abort, and have no model.
pub mod Laws
use dg.Base.{
  ℕ, ◌*◌, Bool, true, false, not, ◌&&◌, ◌||◌, List, [], ◌∷◌, ◌++◌, map, ◌==◌, if◌then◌else◌,
}
use dg.Offset.{Offset, unknown, is_unknown}
use dg.Adt.Bitvector
use dg.Adt.Bitvector.{Bitvector, empty_bitvector}
use dg.PointsTo.{Pointer}

pub record PointsToSet : Type 0 where
  pub nodes : Bitvector
  pub offsets : Bitvector

abbrev pub empty_set : PointsToSet
empty_set = record { nodes = empty_bitvector; offsets = empty_bitvector }

-- `add(PSNode *, Offset)`: the new set, and whether it changed.
unfoldable pub add : Pointer → PointsToSet → PointsToSet × Bool
add p s =
    let (nodes, old_node) = Bitvector.set s.nodes p.target in
    if Bitvector.get s.offsets unknown
    then (record s { nodes = nodes }, not old_node)
    else (let kept = if is_unknown p.offset then empty_bitvector else s.offsets in
        let (offsets, old_offset) = Bitvector.set kept p.offset in
        (record { nodes = nodes; offsets = offsets }, not old_offset || not old_node))

-- `add(const SeparateOffsetsPointsToSet&)`
unfoldable pub union : PointsToSet → PointsToSet → PointsToSet × Bool
union s rhs =
    let (nodes, changed) = Bitvector.union s.nodes rhs.nodes in
    let (offsets, changed') = Bitvector.union s.offsets rhs.offsets in
    (record { nodes = nodes; offsets = offsets }, changed' || changed)

unfoldable pub points_to : PointsToSet → Pointer → Bool
points_to s p = Bitvector.get s.nodes p.target && Bitvector.get s.offsets p.offset

unfoldable pub may_point_to : PointsToSet → Pointer → Bool
unfolding points_to
may_point_to s p = points_to s p || points_to s (record p { offset = unknown })

unfoldable pub must_point_to : PointsToSet → Pointer → Bool
unfolding points_to
must_point_to s p = (Bitvector.size s.nodes == 1 || Bitvector.size s.offsets == 1) && points_to s p

unfoldable pub points_to_target : PointsToSet → ℕ → Bool
points_to_target s target = Bitvector.get s.nodes target

unfoldable pub is_singleton : PointsToSet → Bool
is_singleton s = Bitvector.size s.nodes == 1 && Bitvector.size s.offsets == 1

unfoldable pub empty : PointsToSet → Bool
empty s = Bitvector.empty s.nodes && Bitvector.empty s.offsets

unfoldable pub size : PointsToSet → ℕ
size s = Bitvector.size s.nodes * Bitvector.size s.offsets

abbrev pub pointers_of : ℕ → List ℕ → List Pointer
pointers_of n [] = []
pointers_of n (o ∷ os) = record { target = n; offset = o } ∷ pointers_of n os

abbrev pub pairs : List ℕ → List ℕ → List Pointer
pairs [] os = []
pairs (n ∷ ns) os = pointers_of n os ++ pairs ns os

-- What `for (auto p : set)` visits: for each node in turn, all offsets.
unfoldable pub elements : PointsToSet → List Pointer
elements s = pairs (Bitvector.elements s.nodes) (Bitvector.elements s.offsets)

pub record IsValid (s : PointsToSet) : Type 0 where
  pub nodes_valid : Bitvector.IsValid s.nodes
  pub offsets_valid : Bitvector.IsValid s.offsets
