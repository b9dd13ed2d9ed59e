-- ===== src/Adt/ShiftedBits/Laws.antt =====
-- The set of numbers that a shifted word (Bits.h) stands for.
use dg.Base.{
  ℕ, ◌+◌, ◌-◌, ◌^◌, ◌<◌, ◌≡◌, refl, true, ◌||◌, ◌&&◌, ◌==◌, List, [], ◌∷◌, map, has_elem, length,
  length-map, leb, arith,
}
use dg.Adt.Bits
use dg.Adt.Bits.{bits_num}
use dg.Adt.Bits.Laws as WordLaws
use dg.Adt.ShiftedBits.{ShiftedBits, may_contain, get, set, elements, size}

get-eq-get_word :
    (s : ShiftedBits) (i : ℕ) → get s i ≡ (leb s.shift i && Bits.get s.bits (i - s.shift))
unfolding get may_contain Bits.get Bits.may_contain
get-eq-get_word s i = ground arith

-- Setting a number that a shifted word below 2 ^ 64 can hold changes that lookup alone, and
-- returns the previous value.
pub get-set_shifted :
    (s : ShiftedBits) (i j : ℕ)
    → s.bits < 2 ^ 64
    → may_contain s i ≡ true
    → (get (set s i).0 j ≡ (i == j || get s j)) × ((set s i).1 ≡ get s i)
unfolding set may_contain Bits.set
get-set_shifted s i j h c =
    let (found, old, fits) =
      WordLaws.get-set_word s.bits (i - s.shift) (j - s.shift) h (ground arith) in
    (ground (arith, found, get-eq-get_word (set s i).0 j, get-eq-get_word s j), refl)

has_elem-shift :
    (k i : ℕ) (xs : List ℕ)
    → has_elem i (map (λ pos. k + pos) xs) ≡ (leb k i && has_elem (i - k) xs)
has_elem-shift k i [] = ground arith
has_elem-shift k i (x ∷ xs) = ground (arith, has_elem-shift k i xs)

-- Iteration over a shifted word below 2 ^ 64 visits exactly the numbers that a lookup finds, and
-- `size` is how many it visits.
pub has_elem-elements_of_shifted :
    (s : ShiftedBits) (i : ℕ)
    → s.bits < 2 ^ 64
    → (has_elem i (elements s) ≡ get s i) × (size s ≡ length (elements s))
unfolding elements size Bits.size
has_elem-elements_of_shifted s i h =
    let (found, counted) = WordLaws.has_elem-elements_of_word s.bits (i - s.shift) h in
    (
      ground (arith, has_elem-shift s.shift i (Bits.elements s.bits), found, get-eq-get_word s i),
      ground (arith, counted, length-map (λ pos. s.shift + pos) (Bits.elements s.bits)),
    )
