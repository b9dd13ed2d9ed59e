-- ===== src/PointsTo/Simple.antt =====
-- include/dg/analysis/PointsTo/SimplePointsToSet.h: a `std::set` of pointers, which the others are
-- compared with.
pub mod Laws
pub mod Sorted
pub mod Instance
use dg.Base.{ℕ, Bool, true, false, not, ◌||◌, ◌&&◌, List, [], ◌∷◌, length, ◌==◌, if◌then◌else◌}
use dg.Offset.{unknown, is_unknown}
use dg.PointsTo.{Pointer, has_pointer, insert_pointer, erase_pointer}

abbrev pub PointsToSet : Type 0
PointsToSet = List Pointer

-- The loop of `addWithUnknownOffset`, which keeps the pointers to other targets.
unfoldable pub without_target : ℕ → PointsToSet → PointsToSet
without_target target [] = []
without_target target (q ∷ qs) =
    if q.target == target then without_target target qs else q ∷ without_target target qs

unfoldable pub points_to : PointsToSet → Pointer → Bool
points_to s p = has_pointer p s

-- `add(PSNode *, Offset)` with `addWithUnknownOffset`: the new set, and whether it changed.
unfoldable pub add : Pointer → PointsToSet → PointsToSet × Bool
unfolding without_target
add p s =
    if is_unknown p.offset
    then (if has_pointer (record p { offset = unknown }) s then (s, false) else (
      insert_pointer (record p { offset = unknown }) (without_target p.target s),
      not (has_pointer (record p { offset = unknown }) (without_target p.target s)),
    ))
    else if has_pointer (record p { offset = unknown }) s
    then (s, false)
    else (insert_pointer p s, not (has_pointer p s))

-- `add(const SimplePointsToSet&)`
unfoldable pub union_loop : PointsToSet → PointsToSet → Bool → PointsToSet × Bool
union_loop s [] changed = (s, changed)
union_loop s (q ∷ rhs) changed =
    union_loop (insert_pointer q s) rhs (changed || not (has_pointer q s))

unfoldable pub union : PointsToSet → PointsToSet → PointsToSet × Bool
unfolding union_loop
union s rhs = union_loop s rhs false

-- `add(std::initializer_list<Pointer>)`
unfoldable pub add_all : List Pointer → PointsToSet → Bool → PointsToSet × Bool
unfolding add
add_all [] s changed = (s, changed)
add_all (q ∷ qs) s changed = let (s', added) = add q s in add_all qs s' (changed || added)

unfoldable pub remove : Pointer → PointsToSet → PointsToSet × Bool
remove p s = (erase_pointer p s, has_pointer p s)

unfoldable pub points_to_target : ℕ → PointsToSet → Bool
points_to_target target [] = false
points_to_target target (q ∷ qs) = q.target == target || points_to_target target qs

-- The loop of `removeAny`: the pointers to other targets are added to a new set.
unfoldable pub keep_loop : ℕ → PointsToSet → PointsToSet → PointsToSet
unfolding add
keep_loop target [] tmp = tmp
keep_loop target (q ∷ qs) tmp =
    if q.target == target then keep_loop target qs tmp else keep_loop target qs (add q tmp).0

unfoldable pub remove_any : ℕ → PointsToSet → PointsToSet × Bool
unfolding points_to_target keep_loop
remove_any target s =
    if points_to_target target s then (keep_loop target s [], true) else (s, false)

unfoldable pub may_point_to : PointsToSet → Pointer → Bool
unfolding points_to
may_point_to s p = points_to s p || points_to s (record p { offset = unknown })

unfoldable pub is_singleton : PointsToSet → Bool
is_singleton s = length s == 1

unfoldable pub must_point_to : PointsToSet → Pointer → Bool
unfolding points_to is_singleton
must_point_to s p = points_to s p && is_singleton s
