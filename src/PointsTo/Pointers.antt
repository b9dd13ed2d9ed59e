-- ===== src/PointsTo/Pointers.antt =====
-- Membership in a `std::set<Pointer>`.
use dg.Base.{◌≡◌, refl, ◌||◌, List, [], ◌∷◌, arith}
use dg.PointsTo.{Pointer, pointer_eq, has_pointer, insert_pointer}

pub has_pointer-insert_pointer :
    (p q : Pointer) (qs : List Pointer)
    → has_pointer q (insert_pointer p qs) ≡ (pointer_eq p q || has_pointer q qs)
has_pointer-insert_pointer p q [] = refl
has_pointer-insert_pointer p q (x ∷ qs) = ground (arith, has_pointer-insert_pointer p q qs)
