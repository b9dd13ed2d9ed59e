-- ===== src/Adt/NumberSet/Laws.antt =====
-- The numbers of a `SmallNumberSet` (NumberSet.h), in the word and in the bitvector.
use dg.Base.{ℕ, ◌<◌, ◌^◌, ◌≡◌, refl, ◌↔◌, arith, ◌||◌, ◌==◌, true, false, not, List, [], ◌∷◌}
use dg.Base.{has_elem, length, Bool-cases, inl, inr}
use dg.Adt.Bits
use dg.Adt.Bits.Laws as WordLaws
use dg.Adt.Bitvector
use dg.Adt.Bitvector.{Bitvector}
use dg.Adt.Bitvector.Laws as VectorLaws
use dg.Adt.Bitvector.Members.{has_elem-elements}
use dg.Adt.NumberSet.{
  SmallNumberSet, small, big, IsValid, add, add_all, has, empty, size, elements, lift,
  big_singleton,
}

nil-IsValid : Bitvector.IsValid []
nil-IsValid = record { ascending = tt; blocks = tt }

get-nil : (j : ℕ) → Bitvector.get [] j ≡ false
get-nil j = unfold Bitvector.get in refl

get-add_all :
    (v : Bitvector) (xs : List ℕ) (j : ℕ)
    → Bitvector.IsValid v
    → Bitvector.IsValid (add_all v xs)
      × (Bitvector.get (add_all v xs) j ≡ (has_elem j xs || Bitvector.get v j))
unfolding add_all
get-add_all v [] j h = (h, refl)
get-add_all v (x ∷ xs) j h =
    let (valid, found, old) = VectorLaws.get-set v x j h in
    let (valid', found') = get-add_all (Bitvector.set v x).0 xs j valid in
    (valid', ground (arith, found, found'))

lift_lem :
    (bits n j : ℕ)
    → bits < 2 ^ 64
    → Bitvector.IsValid (lift bits n)
      × (Bitvector.get (lift bits n) j ≡ (n == j || Bits.get bits j))
unfolding lift
lift_lem bits n j h =
    let (valid, found, old) = VectorLaws.get-set [] n j nil-IsValid in
    let (valid', found') = get-add_all (big_singleton n) (Bits.elements bits) j valid in
    (
      valid',
      ground (arith, found, found', (WordLaws.has_elem-elements_of_word bits j h).0, get-nil j),
    )

-- Adding a number to a well-formed set leaves it well formed, makes a lookup find that number and
-- changes no other lookup, also when the small set is lifted to a bitvector, and tells whether the
-- number is new.
pub has-add :
    (s : SmallNumberSet) (n j : ℕ)
    → IsValid s
    → IsValid (add s n).0
      × (has (add s n).0 j ≡ (n == j || has s j))
      × ((add s n).1 ≡ not (has s n))
unfolding add has
has-add (small bits) n j h = elim (Bool-cases (Bits.may_contain n)) [
  | inl fits ↦
      let (found, old, valid) = WordLaws.get-set_word bits n j h (WordLaws.may_contain-lt n fits) in
      rw fits (valid, found, ground (arith, old))
  | inr large ↦
      let (valid, found) = lift_lem bits n j h in
      rw large (valid, found, rw (WordLaws.get_large bits n large))
]
has-add (big v) n j h =
    let (valid, found, old) = VectorLaws.get-set v n j h in (valid, found, ground (arith, old))

-- Iteration over a well-formed set visits exactly the numbers that a lookup finds, `size` is how
-- many they are, and `empty` tells that there are none.
pub has_elem-elements_of_set :
    (s : SmallNumberSet)
    → IsValid s
    → ((i : ℕ) → has_elem i (elements s) ≡ has s i)
      × (size s ≡ length (elements s))
      × ((empty s ≡ true) ↔ ((i : ℕ) → has s i ≡ false))
unfolding has elements size empty
has_elem-elements_of_set (small bits) h = (
  λ i. (WordLaws.has_elem-elements_of_word bits i h).0,
  (WordLaws.has_elem-elements_of_word bits 0 h).1,
  WordLaws.empty_word_iff bits h,
)
has_elem-elements_of_set (big v) h =
    let (found, ordered, counted) = has_elem-elements v h in
    (found, counted, VectorLaws.empty_iff v h)
