-- ===== src/PointsTo.antt =====
-- include/dg/analysis/PointsTo/: pointers and the sets of pointers that a points-to set can be. A
-- node is the number that `getNodeID` gives it: 1, 2, and so on.
pub mod Ids
pub mod Pointers
pub mod Sets
pub mod Refines
pub mod Simple
pub mod Single
pub mod Separate
pub mod Small
use dg.Base.{true, false, ◌||◌, List, [], ◌∷◌, ℕ, Bool, ◌&&◌, ltb, ◌==◌, if◌then◌else◌}
use dg.Offset.{Offset}

-- `Pointer`
pub record Pointer : Type 0 where
  pub target : ℕ
  pub offset : Offset

-- `operator==` and `operator<` of `Pointer`
abbrev pub pointer_eq : Pointer → Pointer → Bool
pointer_eq a b = a.target == b.target && a.offset == b.offset

abbrev pub pointer_lt : Pointer → Pointer → Bool
pointer_lt a b = if a.target == b.target then ltb a.offset b.offset else ltb a.target b.target

-- `std::set<Pointer>`: `count`
abbrev pub has_pointer : Pointer → List Pointer → Bool
has_pointer p [] = false
has_pointer p (q ∷ qs) = pointer_eq q p || has_pointer p qs

-- `insert`, which keeps the order of the pointers
abbrev pub insert_pointer : Pointer → List Pointer → List Pointer
insert_pointer p [] = p ∷ []
insert_pointer p (q ∷ qs) =
    if pointer_lt p q
    then p ∷ q ∷ qs
    else if pointer_eq q p
    then q ∷ qs
    else q ∷ insert_pointer p qs

-- `erase`
abbrev pub erase_pointer : Pointer → List Pointer → List Pointer
erase_pointer p [] = []
erase_pointer p (q ∷ qs) = if pointer_eq q p then qs else q ∷ erase_pointer p qs
