-- ===== src/PointsTo/Small.antt =====
-- include/dg/analysis/PointsTo/SmallOffsetsPointsToSet.h: a bitvector with 64 positions for each node,
-- of which the last is the unknown offset, and a set of the pointers with greater offsets.
pub mod Laws
use dg.Base.{
  ℕ, zero, suc, ◌+◌, ◌-◌, ◌*◌, ◌/◌, ◌%◌, Bool, true, false, not, ◌&&◌, ◌||◌, List, [], ◌∷◌, ◌++◌,
  map, length, leb, ltb, ◌==◌, if◌then◌else◌,
}
use dg.Offset.{Offset, unknown, is_unknown}
use dg.Adt.Bitvector
use dg.Adt.Bitvector.{Bitvector, empty_bitvector}
use dg.PointsTo.{Pointer, has_pointer, insert_pointer, erase_pointer}

pub record PointsToSet : Type 0 where
  pub pointers : Bitvector
  pub large_pointers : List Pointer

abbrev pub empty_set : PointsToSet
empty_set = record { pointers = empty_bitvector; large_pointers = [] }

-- `getNodePosition` and `getPosition`
abbrev pub node_position : ℕ → ℕ
node_position node = (node - 1) * 64

unfoldable pub position : Pointer → ℕ
position p =
    if is_unknown p.offset then node_position p.target + 63 else node_position p.target + p.offset

unfoldable pub is_offset_valid : Offset → Bool
is_offset_valid o = is_unknown o || leb o 62

unfoldable pub points_to : PointsToSet → Pointer → Bool
unfolding position is_offset_valid
points_to s p =
    if is_offset_valid p.offset
    then Bitvector.get s.pointers (position p)
    else has_pointer p s.large_pointers

unfoldable pub may_point_to : PointsToSet → Pointer → Bool
unfolding points_to
may_point_to s p = points_to s p || points_to s (record p { offset = unknown })

-- The loop of `removeAny` over `n` positions from `i` on
unfoldable pub unset_loop : ℕ → ℕ → Bitvector → Bool → Bitvector × Bool
unset_loop zero i v changed = (v, changed)
unset_loop (suc n) i v changed =
    let (v', old) = Bitvector.unset v i in unset_loop n (i + 1) v' (changed || old)

-- The loop of `removeAny` over the set
unfoldable pub erase_loop : ℕ → List Pointer → Bool → List Pointer × Bool
erase_loop target [] changed = ([], changed)
erase_loop target (q ∷ qs) changed =
    if q.target == target
    then erase_loop target qs true
    else (let (rest, changed') = erase_loop target qs changed in (q ∷ rest, changed'))

unfoldable pub remove_any : ℕ → PointsToSet → PointsToSet × Bool
unfolding unset_loop erase_loop
remove_any target s =
    let (v, changed) = unset_loop 64 (node_position target) s.pointers false in
    let (large, changed') = erase_loop target s.large_pointers changed in
    (record { pointers = v; large_pointers = large }, changed')

-- `add(PSNode *, Offset)` with `addWithUnknownOffset`: the new set, and whether it changed.
unfoldable pub add : Pointer → PointsToSet → PointsToSet × Bool
unfolding points_to remove_any
add p s =
    if points_to s (record p { offset = unknown })
    then (s, false)
    else if is_unknown p.offset
    then (let s' = (remove_any p.target s).0 in
        let (v, old) = Bitvector.set s'.pointers (position p) in
        (record s' { pointers = v }, not old))
    else if is_offset_valid p.offset
    then (let (v, old) = Bitvector.set s.pointers (position p) in
        (record s { pointers = v }, not old))
    else (
      record s { large_pointers = insert_pointer p s.large_pointers },
      not (has_pointer p s.large_pointers),
    )

-- The loop of `add(const SmallOffsetsPointsToSet&)`
unfoldable pub insert_loop : List Pointer → List Pointer → Bool → List Pointer × Bool
insert_loop [] large changed = (large, changed)
insert_loop (q ∷ qs) large changed =
    insert_loop qs (insert_pointer q large) (changed || not (has_pointer q large))

-- `add(const SmallOffsetsPointsToSet&)`
unfoldable pub union : PointsToSet → PointsToSet → PointsToSet × Bool
unfolding insert_loop
union s rhs =
    let (v, changed) = Bitvector.union s.pointers rhs.pointers in
    let (large, changed') = insert_loop rhs.large_pointers s.large_pointers changed in
    (record { pointers = v; large_pointers = large }, changed')

-- `remove(const Pointer&)`
unfoldable pub remove : Pointer → PointsToSet → PointsToSet × Bool
remove p s =
    if is_offset_valid p.offset
    then (let (v, flag) = Bitvector.unset s.pointers (position p) in
        (record s { pointers = v }, flag))
    else (
      record s { large_pointers = erase_pointer p s.large_pointers },
      has_pointer p s.large_pointers,
    )

unfoldable pub is_singleton : PointsToSet → Bool
is_singleton s =
    Bitvector.size s.pointers == 1 && length s.large_pointers == 0
    || Bitvector.size s.pointers == 0 && length s.large_pointers == 1

unfoldable pub must_point_to : PointsToSet → Pointer → Bool
must_point_to s p = points_to s p && is_singleton s

-- The first loop of `pointsToTarget`, over `n` positions from `i` on
unfoldable pub any_bit : ℕ → ℕ → Bitvector → Bool
any_bit zero i v = false
any_bit (suc n) i v = Bitvector.get v i || any_bit n (i + 1) v

-- The second loop of `pointsToTarget`
abbrev pub any_large : ℕ → List Pointer → Bool
any_large target [] = false
any_large target (q ∷ qs) = q.target == target || any_large target qs

unfoldable pub points_to_target : PointsToSet → ℕ → Bool
unfolding any_bit
points_to_target s target =
    any_bit 64 (node_position target) s.pointers || any_large target s.large_pointers

unfoldable pub empty : PointsToSet → Bool
empty s = Bitvector.size s.pointers == 0 && length s.large_pointers == 0

unfoldable pub size : PointsToSet → ℕ
size s = Bitvector.size s.pointers + length s.large_pointers

-- `operator*` of the iterator on a position of the bitvector
unfoldable pub pointer_at : ℕ → Pointer
pointer_at i =
    let node = (i - i % 64) / 64 + 1 in
    record { target = node; offset = if i % 64 == 63 then unknown else i % 64 }

-- What `for (auto p : set)` visits: the bitvector, then the set.
unfoldable pub elements : PointsToSet → List Pointer
unfolding pointer_at
elements s = map pointer_at (Bitvector.elements s.pointers) ++ s.large_pointers
