-- ===== src/Adt/Bitvector.antt =====
-- include/dg/ADT/Bitvector.h: `SparseBitvectorImpl` over 64-bit words (`SparseBitvector`), and its
-- iterator. The `std::map` from a shift to its word is a list in ascending order of the shifts.
pub mod Laws
pub mod Invariant
pub mod Union
pub mod Iterate
pub mod Count
pub mod Members
use dg.Base.{ℕ, zero, suc, ◌+◌, ◌-◌, ◌*◌, ◌/◌, ◌%◌, ◌^◌, ◌≤◌, ◌<◌, bit_and, bit_or, ◌≡◌}
use dg.Base.{Bool, true, false, not, ◌||◌, Option, none, some, List, [], ◌∷◌}
use dg.Base.{◌==◌, if◌then◌else◌, All}
use dg.Base.Bit.{test_bit, complement}
use dg.Base.Maps.{find, put, erase, Above}
use dg.Adt.Bits.{Word, bits_num, find_next}

abbrev pub Bitvector : Type 0
Bitvector = List (ℕ × Word)

abbrev pub empty_bitvector : Bitvector
empty_bitvector = []

-- `_shift`
abbrev pub shift : ℕ → ℕ
shift i = i - i % bits_num

-- `_addBits`; `emplace` is only called where the shift has no word yet.
unfoldable pub add_bits : Bitvector → ℕ → Bitvector
add_bits v i = put (shift i) (2 ^ (i - shift i)) v

unfoldable pub empty : Bitvector → Bool
empty [] = true
empty (x ∷ v) = false

unfoldable pub get : Bitvector → ℕ → Bool
get v i = elim (find (shift i) v) [ none ↦ false | some word ↦ test_bit word (i - shift i) ]

-- The new bitvector, and the previous value of the bit.
unfoldable pub set : Bitvector → ℕ → Bitvector × Bool
unfolding add_bits
set v i = elim (find (shift i) v) [
  | none ↦ (add_bits v i, false)
  | some word ↦ (put (shift i) (bit_or word (2 ^ (i - shift i))) v, test_bit word (i - shift i))
]

-- `_bits[pair.first]`, which makes a zero word where there is none.
unfoldable pub word_at : ℕ → Bitvector → Word
word_at k v = elim (find k v) [ none ↦ 0 | some word ↦ word ]

-- The loop of `set(const SparseBitvectorImpl&)` over the words of `rhs`.
unfoldable pub union_loop : Bitvector → Bitvector → Bool → Bitvector × Bool
unfolding word_at
union_loop v [] changed = (v, changed)
union_loop v ((k, word) ∷ rhs) changed =
    let old = word_at k v in
    let new = bit_or old word in union_loop (put k new v) rhs (changed || not (old == new))

-- `set(const SparseBitvectorImpl&)`: the union, and whether it changed the bitvector.
unfoldable pub union : Bitvector → Bitvector → Bitvector × Bool
unfolding union_loop
union v rhs = union_loop v rhs false

-- The new bitvector, and the returned flag.
unfoldable pub unset : Bitvector → ℕ → Bitvector × Bool
unset v i = elim (find (shift i) v) [
  | none ↦ (v, false)
  | some word ↦
      let left = bit_and word (complement bits_num (2 ^ (i - shift i))) in
      (if left == 0 then erase (shift i) v else put (shift i) left v, true)
]

-- The loop of `_countBits`. A word has no bit left after 64 rounds.
unfoldable pub count_loop : ℕ → Word → ℕ → ℕ
count_loop zero bits num = num
count_loop (suc fuel) bits num =
    let rest = count_loop fuel (bits / 2) (if bits % 2 == 1 then num + 1 else num) in
    if bits == 0 then num else rest

-- `_countBits`
unfoldable pub count_bits : Word → ℕ
unfolding count_loop
count_bits bits = count_loop bits_num bits 0

unfoldable pub size : Bitvector → ℕ
size [] = 0
size ((k, word) ∷ v) = count_bits word + size v

-- An iterator: what lies from `container_it` on, and the position in its first word.
pub record Iterator : Type 0 where
  pub rest : Bitvector
  pub pos : ℕ

-- `_findClosestBit` from `pos` on
abbrev pub find_closest_bit : Word → ℕ → ℕ
find_closest_bit word pos = find_next word bits_num pos

-- `begin()`
unfoldable pub begin : Bitvector → Iterator
begin [] = record { rest = []; pos = 0 }
begin ((k, word) ∷ v) = record { rest = (k, word) ∷ v; pos = find_closest_bit word 0 }

-- The end of `operator++`: the word is left behind when no bit is left in it.
unfoldable pub settle : ℕ → Word → Bitvector → ℕ → Iterator
unfolding begin
settle k word v pos =
    if pos == bits_num then begin v else record { rest = (k, word) ∷ v; pos = pos }

-- `operator++`; it is not called at the end.
unfoldable pub next_in : Bitvector → ℕ → Iterator
unfolding settle
next_in [] pos = record { rest = []; pos = pos }
next_in ((k, word) ∷ v) pos =
    settle k word v (if pos + 1 == bits_num then pos + 1 else find_closest_bit word (pos + 1))

-- What `for (auto x : v)` visits, from an iterator on. The loop stops at `end()`.
unfoldable pub walk : ℕ → Bitvector → ℕ → List ℕ
walk zero rest pos = []
walk (suc fuel) [] pos = []
walk (suc fuel) ((k, word) ∷ v) pos =
    let it = next_in ((k, word) ∷ v) pos in (k + pos) ∷ walk fuel it.rest it.pos

-- A bitvector has at most 64 numbers for each word.
abbrev pub walk_fuel : Bitvector → ℕ
walk_fuel [] = 1
walk_fuel (x ∷ v) = bits_num + walk_fuel v

unfoldable pub elements : Bitvector → List ℕ
elements v = let it = begin v in walk (walk_fuel v) it.rest it.pos

-- A word of the map: it starts at a multiple of 64, has a bit and fits its type.
pub record IsBlock (b : ℕ × Word) : Type 0 where
  pub aligned : b.0 % bits_num ≡ 0
  pub has_bits : 0 < b.1
  pub fits : b.1 < 2 ^ 64

-- What the operations keep: ascending shifts, and well-formed words.
pub record IsValid (v : Bitvector) : Type 0 where
  pub ascending : Above 0 v
  pub blocks : All IsBlock v
