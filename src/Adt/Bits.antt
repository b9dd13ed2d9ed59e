-- ===== src/Adt/Bits.antt =====
-- include/dg/ADT/Bits.h: the template `Bits` at its default word, a
-- `uint64_t`, with its iterator. A word is a number below 2 ^ 64.
pub mod Scan
pub mod Laws
use dg.Base.{ℕ, zero, suc, ◌+◌, ◌^◌, bit_or, Bool, true, false, not, List, [], ◌∷◌}
use dg.Base.{ltb, ◌==◌, if◌then◌else◌}
use dg.Base.Bit.{test_bit}

-- `bitsNum()`
abbrev pub bits_num : ℕ
bits_num = 64

abbrev pub Word : Type 0
Word = ℕ

unfoldable pub may_contain : ℕ → Bool
may_contain i = ltb i bits_num

unfoldable pub get : Word → ℕ → Bool
unfolding may_contain
get bits i = if not (may_contain i) then false else test_bit bits i

-- The new word, and the previous value of the bit.
unfoldable pub set : Word → ℕ → ℕ × Bool
set bits i = (bit_or bits (2 ^ i), get bits i)

unfoldable pub empty : Word → Bool
empty bits = bits == 0

-- The loop of `size`, `left` rounds before the end.
unfoldable pub size_loop : Word → ℕ → ℕ → ℕ → ℕ
size_loop bits zero i num = num
size_loop bits (suc left) i num =
    size_loop bits left (i + 1) (if test_bit bits i then num + 1 else num)

unfoldable pub size : Word → ℕ
size bits = size_loop bits bits_num 0 0

-- `_findNext`: the loop stops at a set bit, or at the end. Fuel `bits_num` is enough.
unfoldable pub find_next : Word → ℕ → ℕ → ℕ
find_next bits zero pos = pos
find_next bits (suc fuel) pos =
    let rest = find_next bits fuel (pos + 1) in
    if test_bit bits pos then pos else if pos + 1 == bits_num then pos + 1 else rest

-- `operator++` of the iterator at `pos`
unfoldable pub next : Word → ℕ → ℕ
next bits pos = if pos + 1 == bits_num then pos + 1 else find_next bits bits_num (pos + 1)

-- `begin()`: the constructor at position 0
unfoldable pub begin : Word → ℕ
begin bits = if not (test_bit bits 0) then next bits 0 else 0

-- What `for (auto x : bits)` visits, from the iterator at `pos`.
unfoldable pub walk : Word → ℕ → ℕ → List ℕ
walk bits zero pos = []
walk bits (suc fuel) pos =
    let rest = walk bits fuel (next bits pos) in if pos == bits_num then [] else pos ∷ rest

unfoldable pub elements : Word → List ℕ
elements bits = walk bits (bits_num + 1) (begin bits)
