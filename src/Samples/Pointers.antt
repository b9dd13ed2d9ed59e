-- ===== src/Samples/Pointers.antt =====
-- The points-to sets at concrete inputs: include/dg/analysis/PointsTo/.
use dg.Base.Bit.{test_bit}
use dg.Base.{false, refl, ◌≡◌, ◌||◌, ◌&&◌, ◌==◌, true, not, [], ◌∷◌, arith, if◌then◌else◌}
use dg.Offset.{unknown, is_unknown}
use dg.Adt.Bitvector
use dg.Adt.Bitvector.{Bitvector}
use dg.PointsTo.{Pointer, pointer_eq}
use dg.PointsTo.Refines
use dg.PointsTo.Simple
use dg.Base.{◌<◌}
use dg.PointsTo.Separate
use dg.PointsTo.Separate.Laws as SeparateLaws
use dg.PointsTo.Small
use dg.PointsTo.Small.Laws as SmallLaws

abbrev pointer : Pointer
pointer = record { target = 2; offset = 5 }

abbrev other_pointer : Pointer
other_pointer = record { target = 1; offset = 5 }

-- The numbers 1 and 2.
abbrev one_two : Bitvector
one_two = (0, 6) ∷ []

abbrev five : Bitvector
five = (0, 32) ∷ []

one_two-IsValid : Bitvector.IsValid one_two
one_two-IsValid = record {
  ascending = (omega arith, tt);
  blocks = (record { aligned = omega arith; has_bits = omega arith; fits = omega arith }, tt);
}

five-IsValid : Bitvector.IsValid five
five-IsValid = record {
  ascending = (omega arith, tt);
  blocks = (record { aligned = omega arith; has_bits = omega arith; fits = omega arith }, tt);
}

abbrev both : Separate.PointsToSet
both = record { nodes = one_two; offsets = five }

both-IsValid : Separate.IsValid both
both-IsValid = record { nodes_valid = one_two-IsValid; offsets_valid = five-IsValid }

points_to-pointer : Separate.points_to both pointer ≡ true
unfolding Separate.points_to Bitvector.get test_bit
points_to-pointer = refl

points_to-other_pointer : Separate.points_to both other_pointer ≡ true
unfolding Separate.points_to Bitvector.get test_bit
points_to-other_pointer = refl

one_offset : Bitvector.size both.offsets ≡ 1
unfolding Bitvector.size Bitvector.count_bits
one_offset = refl

must_point_to_both_example :
    (Separate.must_point_to
        (Separate.add other_pointer (Separate.add pointer Separate.empty_set).0).0
        pointer
      ≡ true)
    × (Separate.must_point_to
          (Separate.add other_pointer (Separate.add pointer Separate.empty_set).0).0
          other_pointer
        ≡ true)
    × (Separate.is_singleton
          (Separate.add other_pointer (Separate.add pointer Separate.empty_set).0).0
        ≡ false)
must_point_to_both_example =
    SeparateLaws.must_point_to_both pointer other_pointer (omega arith) refl

-- The set that points to an unknown offset still may point to what it pointed to.
abbrev unknown_pointer : Pointer
unknown_pointer = record { target = 2; offset = unknown }

may_point_to-both :
    (pointer_eq unknown_pointer pointer || Separate.may_point_to both pointer) ≡ true
unfolding Separate.may_point_to Separate.points_to Bitvector.get test_bit
may_point_to-both = refl

pointer_at-position_example : Small.pointer_at (Small.position unknown_pointer) ≡ unknown_pointer
pointer_at-position_example =
    SmallLaws.pointer_at-position unknown_pointer (omega arith)
      (unfold Small.is_offset_valid in ground arith)

abbrev far_pointer : Pointer
far_pointer = record { target = 2; offset = 100 }

-- Node 1 at offsets 1 and 2, and node 2 at offset 100.
abbrev three_pointers : Small.PointsToSet
three_pointers = record { pointers = one_two; large_pointers = far_pointer ∷ [] }

points_to-add_example : Small.points_to (Small.add unknown_pointer three_pointers).0 far_pointer ≡ (
    if Small.points_to three_pointers unknown_pointer
    then Small.points_to three_pointers far_pointer
    else if is_unknown unknown
    then pointer_eq unknown_pointer far_pointer
      || Small.points_to three_pointers far_pointer && not (2 == 2)
    else pointer_eq unknown_pointer far_pointer || Small.points_to three_pointers far_pointer)
points_to-add_example =
    SmallLaws.points_to-add unknown_pointer three_pointers far_pointer (omega arith) (omega arith)
      one_two-IsValid

empty_agrees :
    (q : Pointer) → 0 < q.target → Small.points_to Small.empty_set q ≡ Simple.points_to [] q
empty_agrees q h = unfold Small.points_to Simple.points_to Bitvector.get in ground arith

add-Simple_example :
    Small.points_to (Small.add far_pointer Small.empty_set).0 far_pointer
    ≡ Simple.points_to (Simple.add far_pointer []).0 far_pointer
add-Simple_example =
    Refines.add-Simple far_pointer Small.empty_set [] (omega arith)
      (record { ascending = tt; blocks = tt }) empty_agrees far_pointer (omega arith)
