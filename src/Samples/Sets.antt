-- ===== src/Samples/Sets.antt =====
-- Offsets, words, bitvectors and sets of numbers at concrete inputs: include/dg/analysis/Offset.h
-- and include/dg/ADT/.
use dg.Base.{◌≡◌, ◌↔◌, ◌||◌, ◌==◌, true, false, not, ℕ, [], ◌∷◌, arith, has_elem, length, Ascends}
use dg.Adt.ShiftedBits
use dg.Base.{refl}
use dg.Adt.Bitvector
use dg.Adt.Bitvector.{Bitvector, shift}
use dg.Adt.Bitvector.Union
use dg.Adt.Bitvector.Members
use dg.Adt.NumberSet
use dg.Adt.NumberSet.{small, big}
use dg.Adt.NumberSet.Laws as SetLaws

-- The numbers 3, 70 and 71.
abbrev three_numbers : Bitvector
three_numbers = (0, 8) ∷ (64, 192) ∷ []

three_numbers-IsValid : Bitvector.IsValid three_numbers
three_numbers-IsValid = record {
  ascending = (omega arith, (omega arith, tt));
  blocks = (
    record { aligned = omega arith; has_bits = omega arith; fits = omega arith },
    (record { aligned = omega arith; has_bits = omega arith; fits = omega arith }, tt),
  );
}

get-union_example :
    Bitvector.IsValid (Bitvector.union three_numbers ((64, 1) ∷ [])).0
    × (Bitvector.get (Bitvector.union three_numbers ((64, 1) ∷ [])).0 64
        ≡ (Bitvector.get three_numbers 64 || Bitvector.get ((64, 1) ∷ []) 64))
get-union_example = Union.get-union three_numbers ((64, 1) ∷ []) 64 three_numbers-IsValid (record {
  ascending = (omega arith, tt);
  blocks = (record { aligned = omega arith; has_bits = omega arith; fits = omega arith }, tt);
})

has_elem-elements_example :
    ((i : ℕ) → has_elem i (Bitvector.elements three_numbers) ≡ Bitvector.get three_numbers i)
    × Ascends 0 (Bitvector.elements three_numbers)
    × (Bitvector.size three_numbers ≡ length (Bitvector.elements three_numbers))
has_elem-elements_example = Members.has_elem-elements three_numbers three_numbers-IsValid

-- Adding 64 lifts the small set of 0 and 2.
has-add_example :
    NumberSet.IsValid (NumberSet.add (small 5) 64).0
    × (NumberSet.has (NumberSet.add (small 5) 64).0 2 ≡ (64 == 2 || NumberSet.has (small 5) 2))
    × ((NumberSet.add (small 5) 64).1 ≡ not (NumberSet.has (small 5) 64))
has-add_example = SetLaws.has-add (small 5) 64 2 (omega arith)

has_elem-elements_of_set_example :
    ((i : ℕ)
      → has_elem i (NumberSet.elements (big three_numbers)) ≡ NumberSet.has (big three_numbers) i)
    × (NumberSet.size (big three_numbers) ≡ length (NumberSet.elements (big three_numbers)))
    × ((NumberSet.empty (big three_numbers) ≡ true)
        ↔ ((i : ℕ) → NumberSet.has (big three_numbers) i ≡ false))
has_elem-elements_of_set_example =
    SetLaws.has_elem-elements_of_set (big three_numbers) three_numbers-IsValid

-- The numbers 64 and 66.
abbrev shifted : ShiftedBits.ShiftedBits
shifted = record { bits = 5; shift = 64 }

can_hold : ShiftedBits.may_contain shifted 67 ≡ true
can_hold = unfold ShiftedBits.may_contain in refl
