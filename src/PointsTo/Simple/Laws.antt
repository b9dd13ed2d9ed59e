-- ===== src/PointsTo/Simple/Laws.antt =====
-- SimplePointsToSet.h: the pointers after `add`, of a pointer and of another set.
use dg.Base.{
  ℕ, ◌≡◌, refl, Bool, false, not, ◌||◌, ◌&&◌, ◌==◌, [], ◌∷◌, Bool-cases, inl, inr, arith,
  if◌then◌else◌,
}
use dg.Offset.{unknown, is_unknown}
use dg.PointsTo.{Pointer, pointer_eq, has_pointer, insert_pointer}
use dg.PointsTo.Pointers.{has_pointer-insert_pointer}
use dg.PointsTo.Simple.{PointsToSet, without_target, points_to, add, union_loop, union}

has_pointer-without_target :
    (t : ℕ) (q : Pointer) (s : PointsToSet)
    → has_pointer q (without_target t s) ≡ (has_pointer q s && not (q.target == t))
unfolding without_target
has_pointer-without_target t q [] = refl
has_pointer-without_target t q (x ∷ s) = ground (arith, has_pointer-without_target t q s)

-- What the simple set points to after an addition: where the unknown offset of the target was there
-- before, what it pointed to; for an unknown offset, that pointer alone of those to the target; else
-- one more.
pub points_to-add_simple :
    (p : Pointer) (s : PointsToSet) (q : Pointer)
    → points_to (add p s).0 q ≡ (
        if points_to s (record p { offset = unknown })
        then points_to s q
        else if is_unknown p.offset
        then pointer_eq p q || points_to s q && not (q.target == p.target)
        else pointer_eq p q || points_to s q)
unfolding add points_to
points_to-add_simple p s q = elim (Bool-cases (is_unknown p.offset)) [
  | inl u ↦ ground (
    arith,
    has_pointer-insert_pointer (record p { offset = unknown }) q (without_target p.target s),
    has_pointer-without_target p.target q s,
  )
  | inr u ↦ ground (arith, has_pointer-insert_pointer p q s)
]

has_pointer-union_loop :
    (s rhs : PointsToSet) (changed : Bool) (q : Pointer)
    → has_pointer q (union_loop s rhs changed).0 ≡ (has_pointer q s || has_pointer q rhs)
unfolding union_loop
has_pointer-union_loop s [] changed q = ground arith
has_pointer-union_loop s (x ∷ rhs) changed q = ground (
  arith,
  has_pointer-union_loop (insert_pointer x s) rhs (changed || not (has_pointer x s)) q,
  has_pointer-insert_pointer x q s,
)

-- The union of two simple sets points to exactly what either points to.
pub points_to-union_simple :
    (s rhs : PointsToSet) (q : Pointer)
    → points_to (union s rhs).0 q ≡ (points_to s q || points_to rhs q)
unfolding points_to union
points_to-union_simple s rhs q = has_pointer-union_loop s rhs false q
