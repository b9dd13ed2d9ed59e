-- ===== src/Adt/ShiftedBits.antt =====
-- include/dg/ADT/Bits.h: the template `ShiftedBits`, a word of bits that stands for the numbers
-- from `shift` on.
pub mod Laws
use dg.Adt.Bits
use dg.Base.{
  ◌+◌, List, [], ◌∷◌, ◌==◌, map, ℕ, ◌-◌, ◌^◌, bit_or, Bool, false, not, ◌&&◌, ltb, leb,
  if◌then◌else◌,
}
use dg.Base.Bit.{test_bit}
use dg.Adt.Bits.{Word, bits_num}

pub record ShiftedBits : Type 0 where
  pub bits : Word
  pub shift : ℕ

unfoldable pub may_contain : ShiftedBits → ℕ → Bool
may_contain s i = leb s.shift i && ltb (i - s.shift) bits_num

unfoldable pub get : ShiftedBits → ℕ → Bool
unfolding may_contain
get s i = if not (may_contain s i) then false else test_bit s.bits (i - s.shift)

unfoldable pub set : ShiftedBits → ℕ → ShiftedBits × Bool
set s i = (record s { bits = bit_or s.bits (2 ^ (i - s.shift)) }, get s i)

unfoldable pub empty : ShiftedBits → Bool
empty s = s.bits == 0

-- The loop of `size` is the one of `Bits`.
unfoldable pub size : ShiftedBits → ℕ
size s = Bits.size_loop s.bits bits_num 0 0

-- What `for (auto x : bits)` visits: the iterator moves over the positions as the one of `Bits` does,
-- and `operator*` adds the shift.
unfoldable pub elements : ShiftedBits → List ℕ
elements s = map (λ pos. s.shift + pos) (Bits.elements s.bits)
