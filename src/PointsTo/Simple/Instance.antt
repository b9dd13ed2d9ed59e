-- ===== src/PointsTo/Simple/Instance.antt =====
-- SimplePointsToSet.h as the sets of an analysis.
use dg.Base.{◌≡◌, refl, true, not, ◌||◌, ◌&&◌, ◌==◌, [], ◌∷◌, arith, if◌then◌else◌, length}
use dg.Offset.{unknown, is_unknown}
use dg.PointsTo.{Pointer, pointer_eq, has_pointer}
use dg.PointsTo.Sets.{PointsToSets, SetLaws, covers, is_nil}
use dg.PointsTo.Simple
use dg.PointsTo.Simple.{PointsToSet}
use dg.PointsTo.Simple.Laws.{points_to-add_simple, points_to-union_simple}
use dg.PointsTo.Simple.Sorted.{Sorted, add-Sorted, union-Sorted, add_same, union_same}

-- A set is in order.
abbrev pub simple_sets : PointsToSets
simple_sets = record {
  Carrier = (s : PointsToSet) × Sorted s;
  no_pointers = ([], tt);
  add = λ p (s, h). let r = Simple.add p s in ((r.0, add-Sorted p s h), r.1);
  union = λ (s, h) (rhs, k). let r = Simple.union s rhs in ((r.0, union-Sorted s rhs h), r.1);
  is_empty = λ (s, h). length s == 0;
  pointers = λ (s, h). s;
}

has-add :
    (p q : Pointer) (s : PointsToSet)
    → has_pointer q (Simple.add p s).0 ≡ (
        if has_pointer (record p { offset = unknown }) s
        then has_pointer q s
        else if is_unknown p.offset
        then pointer_eq p q || has_pointer q s && not (q.target == p.target)
        else pointer_eq p q || has_pointer q s)
has-add p q s = unfold Simple.points_to in points_to-add_simple p s q

add_new_lem : (p : Pointer) (s : PointsToSet) → covers (Simple.add p s).0 p ≡ true
add_new_lem p s = ground (arith, has-add p p s, has-add p (record p { offset = unknown }) s)

add_old_lem :
    (p q : Pointer) (s : PointsToSet) → covers s q ≡ true → covers (Simple.add p s).0 q ≡ true
add_old_lem p q s h = ground (arith, has-add p q s, has-add p (record q { offset = unknown }) s)

has-union :
    (s rhs : PointsToSet) (q : Pointer)
    → has_pointer q (Simple.union s rhs).0 ≡ (has_pointer q s || has_pointer q rhs)
has-union s rhs q = unfold Simple.points_to in points_to-union_simple s rhs q

union_old_lem :
    (s rhs : PointsToSet) (q : Pointer) → covers s q ≡ true → covers (Simple.union s rhs).0 q ≡ true
union_old_lem s rhs q h =
    ground (arith, has-union s rhs q, has-union s rhs (record q { offset = unknown }))

union_new_lem :
    (s rhs : PointsToSet) (q : Pointer)
    → covers rhs q ≡ true
    → covers (Simple.union s rhs).0 q ≡ true
union_new_lem s rhs q h =
    ground (arith, has-union s rhs q, has-union s rhs (record q { offset = unknown }))

empty_lem : (s : PointsToSet) → (length s == 0) ≡ is_nil s
empty_lem [] = refl
empty_lem (p ∷ s) = ground arith

pub simple_laws : SetLaws simple_sets
simple_laws = record {
  no_pointers_lem = refl;
  is_empty_lem = λ (s, h). empty_lem s;
  add_new = λ p (s, h). add_new_lem p s;
  add_old = λ p q (s, h). add_old_lem p q s;
  add_same = λ p (s, h). add_same p s h;
  union_new = λ (s, h) (rhs, k). union_new_lem s rhs;
  union_old = λ (s, h) (rhs, k). union_old_lem s rhs;
  union_same = λ (s, h) (rhs, k). union_same s rhs h;
}
