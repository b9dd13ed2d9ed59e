-- ===== src/PointsTo/Sets.antt =====
-- The points-to sets as the analyses use them: include/dg/analysis/PointsTo/PointsToSet.h chooses one.
use dg.Base.{Bool, true, false, ◌||◌, List, [], ◌∷◌, ◌≡◌}
use dg.Offset.{unknown}
use dg.PointsTo.{Pointer, has_pointer}

-- A class of sets: `add` of a pointer and of another set return the new set and whether it changed, and
-- `pointers` is what a range-based for loop visits.
pub record PointsToSets : Type 1 where
  pub Carrier : Type 0
  pub no_pointers : Carrier
  pub add : Pointer → Carrier → Carrier × Bool
  pub union : Carrier → Carrier → Carrier × Bool
  pub is_empty : Carrier → Bool
  pub pointers : Carrier → List Pointer

-- A pointer at an unknown offset stands for all offsets, as in `mayPointTo`.
abbrev pub covers : List Pointer → Pointer → Bool
covers ps q = has_pointer q ps || has_pointer (record q { offset = unknown }) ps

abbrev pub is_nil : List Pointer → Bool
is_nil [] = true
is_nil (p ∷ ps) = false

-- What the analyses rely on.
pub record SetLaws (T : PointsToSets) : Type 0 where
  pub no_pointers_lem : T.pointers T.no_pointers ≡ []
  pub is_empty_lem : (s : T.Carrier) → T.is_empty s ≡ is_nil (T.pointers s)
  pub add_new : (p : Pointer) (s : T.Carrier) → covers (T.pointers (T.add p s).0) p ≡ true
  pub add_old :
      (p q : Pointer) (s : T.Carrier)
      → covers (T.pointers s) q ≡ true
      → covers (T.pointers (T.add p s).0) q ≡ true
  pub add_same :
      (p : Pointer) (s : T.Carrier)
      → (T.add p s).1 ≡ false
      → T.pointers (T.add p s).0 ≡ T.pointers s
  pub union_new :
      (s rhs : T.Carrier) (q : Pointer)
      → covers (T.pointers rhs) q ≡ true
      → covers (T.pointers (T.union s rhs).0) q ≡ true
  pub union_old :
      (s rhs : T.Carrier) (q : Pointer)
      → covers (T.pointers s) q ≡ true
      → covers (T.pointers (T.union s rhs).0) q ≡ true
  pub union_same :
      (s rhs : T.Carrier) → (T.union s rhs).1 ≡ false → T.pointers (T.union s rhs).0 ≡ T.pointers s
