-- ===== src/Adt/NumberSet.antt =====
-- include/dg/ADT/NumberSet.h: `BitvectorNumberSet` and `SmallNumberSet`. The text under `#if 0`
-- and in comments is not compiled and has no model.
pub mod Laws
use dg.Base.{ℕ, Bool, true, false, not, List, [], ◌∷◌, if◌then◌else◌, ◌≡◌, ◌<◌, ◌^◌}
use dg.Adt.Bits
use dg.Adt.Bits.{Word}
use dg.Adt.Bitvector
use dg.Adt.Bitvector.{Bitvector, empty_bitvector}

-- The constructor `BitvectorNumberSet(size_t n)`
abbrev pub big_singleton : ℕ → Bitvector
big_singleton n = (Bitvector.set empty_bitvector n).0

-- `BitvectorNumberSet::add`: the new set, and whether the number was added.
abbrev pub big_add : Bitvector → ℕ → Bitvector × Bool
big_add v n = let (v', old) = Bitvector.set v n in (v', not old)

-- The union `_set`, with the flag `is_small` as the choice.
pub data SmallNumberSet : Type 0 where
  small : Word → SmallNumberSet
  big : Bitvector → SmallNumberSet

abbrev pub empty_set : SmallNumberSet
empty_set = small 0

-- The loop of `_lift` over the small set.
unfoldable pub add_all : Bitvector → List ℕ → Bitvector
add_all v [] = v
add_all v (x ∷ xs) = add_all (big_add v x).0 xs

-- `_lift` of a small set, with the number that it cannot hold
unfoldable pub lift : Word → ℕ → Bitvector
unfolding add_all
lift bits n = add_all (big_singleton n) (Bits.elements bits)

-- The new set, and whether the number was added.
unfoldable pub add : SmallNumberSet → ℕ → SmallNumberSet × Bool
unfolding lift
add (small bits) n =
    if Bits.may_contain n
    then (let (bits', old) = Bits.set bits n in (small bits', not old))
    else (big (lift bits n), true)
add (big v) n = let (v', added) = big_add v n in (big v', added)

unfoldable pub has : SmallNumberSet → ℕ → Bool
has (small bits) n = Bits.get bits n
has (big v) n = Bitvector.get v n

unfoldable pub empty : SmallNumberSet → Bool
empty (small bits) = Bits.empty bits
empty (big v) = Bitvector.empty v

unfoldable pub size : SmallNumberSet → ℕ
size (small bits) = Bits.size bits
size (big v) = Bitvector.size v

-- What `for (auto x : set)` visits: the iterator is the one of the set in use.
unfoldable pub elements : SmallNumberSet → List ℕ
elements (small bits) = Bits.elements bits
elements (big v) = Bitvector.elements v

abbrev pub IsValid : SmallNumberSet → Type 0
IsValid (small bits) = bits < 2 ^ 64
IsValid (big v) = Bitvector.IsValid v
