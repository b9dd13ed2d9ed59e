-- ===== src/Samples/Ids.antt =====
-- The numbers of pointers at concrete inputs: SingleBitvectorPointsToSet.h.
use dg.Base.{◌≡◌, refl, [], ◌∷◌, some}
use dg.Adt.Bits.{find_next}
use dg.Base.Bit.{test_bit}
use dg.Adt.Bitvector
use dg.PointsTo.{Pointer}
use dg.PointsTo.Ids.{Tables, get_pointer_id}
use dg.PointsTo.Single

abbrev first : Pointer
first = record { target = 7; offset = 0 }

abbrev second : Pointer
second = record { target = 7; offset = 8 }

abbrev one_pointer : Tables
one_pointer = record { ids = (first, 1) ∷ []; id_vector = first ∷ [] }

-- The number that a new pointer gets.
number_of_second : (get_pointer_id second one_pointer).0 ≡ 2
unfolding get_pointer_id
number_of_second = refl

-- The iterator reads the pointers off the tables with the new number.
visits_both :
    Single.pointers
      (get_pointer_id second one_pointer).1
      (Bitvector.set (Bitvector.set Bitvector.empty_bitvector 1).0 2).0
    ≡ some first ∷ some second ∷ []
unfolding get_pointer_id Single.pointers Bitvector.set Bitvector.add_bits Bitvector.elements
    Bitvector.begin Bitvector.walk Bitvector.next_in Bitvector.settle find_next test_bit
visits_both = refl
