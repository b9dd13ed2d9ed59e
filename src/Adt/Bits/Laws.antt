-- ===== src/Adt/Bits/Laws.antt =====
-- The set of numbers that a word (Bits.h) stands for.
use dg.Base.{ℕ, ◌^◌, ◌<◌, ◌≡◌, ◌↔◌, refl, ◌∙◌, bit_or, Bool, true, false, ◌||◌, arith}
use dg.Base.{◌==◌, has_elem, length}
use dg.Base.Bit.{test_bit}
use dg.Base.Bit.Laws.{
  test_bit-or, test_bit-pow, test_bit-high, test_bit-zero_word, bit_or-lt, has_bit, pow-lt,
}
use dg.Adt.Bits.{bits_num, may_contain, get, set, empty, size, elements}
use dg.Adt.Bits.Scan.{elements_lem, has_elem-bits_from, size_loop_lem}

pub get-eq-test_bit : (bits i : ℕ) → bits < 2 ^ 64 → get bits i ≡ test_bit bits i
unfolding get may_contain
get-eq-test_bit bits i h = ground (arith, test_bit-high 64 bits i)

-- Setting a bit inside a word below 2 ^ 64 adds that number and no other, keeps the word below 2 ^
-- 64, and returns whether the number was there before.
pub get-set_word :
    (bits i j : ℕ)
    → bits < 2 ^ 64
    → i < bits_num
    → (get (set bits i).0 j ≡ (i == j || get bits j))
      × ((set bits i).1 ≡ get bits i)
      × ((set bits i).0 < 2 ^ 64)
unfolding set
get-set_word bits i j h k =
    let fits : bit_or bits (2 ^ i) < 2 ^ 64 = bit_or-lt 64 bits (2 ^ i) h (pow-lt 64 i k) in
    (
      ground (
        arith,
        get-eq-test_bit (bit_or bits (2 ^ i)) j fits,
        get-eq-test_bit bits j h,
        test_bit-or bits (2 ^ i) j,
        test_bit-pow i j,
      ),
      refl,
      fits,
    )

-- Iteration over a word below 2 ^ 64 visits exactly the numbers that a lookup finds, and `size` is
-- how many it visits.
pub has_elem-elements_of_word :
    (bits i : ℕ)
    → bits < 2 ^ 64
    → (has_elem i (elements bits) ≡ get bits i) × (size bits ≡ length (elements bits))
unfolding size
has_elem-elements_of_word bits i h = (
  rw (elements_lem bits, get-eq-test_bit bits i h)
      (ground (arith, has_elem-bits_from bits bits_num 0 i, test_bit-high 64 bits i)),
  rw (elements_lem bits) (size_loop_lem bits bits_num 0 0 ∙ omega arith),
)

-- A word is empty exactly when it holds no number.
pub empty_word_iff :
    (bits : ℕ) → bits < 2 ^ 64 → (empty bits ≡ true) ↔ ((i : ℕ) → get bits i ≡ false)
unfolding empty
empty_word_iff bits h = (
  λ e i.
      (let z : bits ≡ 0 = ground arith in get-eq-test_bit bits i h ∙ rw z (test_bit-zero_word i)),
  λ none. no_bit none (bits == 0) refl,
)
  where
    no_bit : ((i : ℕ) → get bits i ≡ false) → (b : Bool) → (bits == 0) ≡ b → b ≡ true
    no_bit none true e = refl
    no_bit none false e =
        let (i, t) = has_bit bits bits (omega arith) (ground arith) in
        cc (none i, get-eq-test_bit bits i h)

pub may_contain-lt : (i : ℕ) → may_contain i ≡ true → i < bits_num
unfolding may_contain
may_contain-lt i h = ground arith

pub get_large : (bits i : ℕ) → may_contain i ≡ false → get bits i ≡ false
unfolding get
get_large bits i h = rw h
