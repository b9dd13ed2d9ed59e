-- ===== src/Base/Bit/Laws.antt =====
-- Reading a bit after `|=`, after `& ~(1 << i)`, and the extensionality of words.
use Prim.Native.Nat.{ℕ, zero, suc, ◌/◌, ◌%◌, ◌^◌, ◌≤◌, ◌<◌, max, bit_and, bit_or}
use mathlib.Core.Path.{◌≡◌, sym, ◌∙◌}
use mathlib.Core.Logic.{◌≢◌, inl, inr}
use mathlib.Core.Bool.{true, false, not, ◌&&◌, ◌||◌}
use native.Mathlib.Nat.{pow-suc, one-le-pow}
use native.Mathlib.Omega.{arith}
use dg.Base.Tests.{◌==◌, Bool-cases}
use dg.Base.Bit.Step.{low-bit_or, low-bit_and, zero-bit_and}
use dg.Base.Bit.{test_bit, complement, test_bit-zero, test_bit-suc}

pub test_bit-zero_word : (i : ℕ) → test_bit 0 i ≡ false
test_bit-zero_word zero = test_bit-zero 0
test_bit-zero_word (suc i) = test_bit-suc 0 i ∙ test_bit-zero_word i

pub test_bit-or : (a b i : ℕ) → test_bit (bit_or a b) i ≡ (test_bit a i || test_bit b i)
test_bit-or a b zero =
    ground (arith, test_bit-zero (bit_or a b), test_bit-zero a, test_bit-zero b, low-bit_or a b)
test_bit-or a b (suc i) =
    rw (test_bit-suc (bit_or a b) i, test_bit-suc a i, test_bit-suc b i, half)
      (test_bit-or (a / 2) (b / 2) i)
  where
    half : bit_or a b / 2 ≡ bit_or (a / 2) (b / 2)
    half = omega (arith, low-bit_or a b)

pub test_bit-and : (a b i : ℕ) → test_bit (bit_and a b) i ≡ (test_bit a i && test_bit b i)
test_bit-and a b zero =
    ground (arith, test_bit-zero (bit_and a b), test_bit-zero a, test_bit-zero b, low-bit_and a b)
test_bit-and a b (suc i) =
    rw (test_bit-suc (bit_and a b) i, test_bit-suc a i, test_bit-suc b i, half)
      (test_bit-and (a / 2) (b / 2) i)
  where
    half : bit_and a b / 2 ≡ bit_and (a / 2) (b / 2)
    half = omega (arith, low-bit_and a b)

pub pow-lt : (w i : ℕ) → i < w → 2 ^ i < 2 ^ w
pow-lt zero i h = absurd (omega arith)
pow-lt (suc w) zero h = omega (arith, pow-suc 2 w, one-le-pow w 2 (omega arith))
pow-lt (suc w) (suc i) h = omega (arith, pow-suc 2 w, pow-suc 2 i, pow-lt w i (omega arith))

half-pow : (i : ℕ) → 2 ^ suc i / 2 ≡ 2 ^ i
half-pow i = omega (arith, pow-suc 2 i)

pub test_bit-pow : (i j : ℕ) → test_bit (2 ^ i) j ≡ (i == j)
test_bit-pow zero zero = test_bit-zero 1
test_bit-pow zero (suc j) = test_bit-suc 1 j ∙ test_bit-zero_word j ∙ ground arith
test_bit-pow (suc i) zero = ground (arith, test_bit-zero (2 ^ suc i), pow-suc 2 i)
test_bit-pow (suc i) (suc j) =
    rw (test_bit-suc (2 ^ suc i) j, half-pow i) (ground (arith, test_bit-pow i j))

pub test_bit-complement :
    (w a i : ℕ) → a < 2 ^ w → i < w → test_bit (complement w a) i ≡ not (test_bit a i)
test_bit-complement zero a i h k = absurd (omega arith)
test_bit-complement (suc w) a zero h k =
    ground (arith, test_bit-zero (complement (suc w) a), test_bit-zero a, pow-suc 2 w)
test_bit-complement (suc w) a (suc i) h k =
    rw (test_bit-suc (complement (suc w) a) i, test_bit-suc a i, half)
      (test_bit-complement w (a / 2) i (omega (arith, pow-suc 2 w)) (omega arith))
  where
    half : complement (suc w) a / 2 ≡ complement w (a / 2)
    half = omega (arith, pow-suc 2 w)

-- No bit is set at or above the width.
pub test_bit-high : (w a i : ℕ) → a < 2 ^ w → w ≤ i → test_bit a i ≡ false
test_bit-high zero a i h k = let e : a ≡ 0 = omega arith in rw e (test_bit-zero_word i)
test_bit-high (suc w) a zero h k = absurd (omega arith)
test_bit-high (suc w) a (suc i) h k =
    test_bit-suc a i ∙ test_bit-high w (a / 2) i (omega (arith, pow-suc 2 w)) (omega arith)

pub bit_or-lt : (w a b : ℕ) → a < 2 ^ w → b < 2 ^ w → bit_or a b < 2 ^ w
bit_or-lt zero a b h k =
    let e : a ≡ 0 = omega arith in let f : b ≡ 0 = omega arith in rw (e, f) (omega arith)
bit_or-lt (suc w) a b h k = ground (
  arith,
  low-bit_or a b,
  pow-suc 2 w,
  bit_or-lt w (a / 2) (b / 2) (omega (arith, pow-suc 2 w)) (omega (arith, pow-suc 2 w)),
)

pub le-bit_or : (n a b : ℕ) → a ≤ n → a ≤ bit_or a b
le-bit_or zero a b h = omega arith
le-bit_or (suc n) a b h = ground (arith, low-bit_or a b, le-bit_or n (a / 2) (b / 2))

pub le-bit_or_right : (n a b : ℕ) → b ≤ n → b ≤ bit_or a b
le-bit_or_right zero a b h = omega arith
le-bit_or_right (suc n) a b h = ground (arith, low-bit_or a b, le-bit_or_right n (a / 2) (b / 2))

pub bit_and-le : (n a b : ℕ) → a ≤ n → bit_and a b ≤ a
bit_and-le zero a b h = let e : a ≡ 0 = omega arith in rw e (omega (arith, zero-bit_and b))
bit_and-le (suc n) zero b h = bit_and-le n zero b (omega arith)
bit_and-le (suc n) (suc a) b h =
    ground (arith, low-bit_and (suc a) b, bit_and-le n (suc a / 2) (b / 2) (omega arith))

-- Words with the same bits are equal.
word_ext_fuel : (n a b : ℕ) → a ≤ n → b ≤ n → ((i : ℕ) → test_bit a i ≡ test_bit b i) → a ≡ b
word_ext_fuel zero a b p q h = omega arith
word_ext_fuel (suc n) a b p q h =
    let halves =
      word_ext_fuel n (a / 2) (b / 2) (omega arith) (omega arith)
        (λ i. sym (test_bit-suc a i) ∙ h (suc i) ∙ test_bit-suc b i) in
    ground (arith, h 0, test_bit-zero a, test_bit-zero b, halves)

pub word_ext : (a b : ℕ) → ((i : ℕ) → test_bit a i ≡ test_bit b i) → a ≡ b
word_ext a b = word_ext_fuel (max a b) a b (omega arith) (omega arith)

-- A word that is not zero has a bit.
pub has_bit : (n a : ℕ) → a ≤ n → a ≢ 0 → (i : ℕ) × (test_bit a i ≡ true)
has_bit zero a p h = absurd (omega arith)
has_bit (suc n) a p h = elim (Bool-cases (a % 2 == 1)) [
  | inl e ↦ (0, test_bit-zero a ∙ e)
  | inr e ↦
      let (i, t) = has_bit n (a / 2) (omega arith) (ground arith) in (suc i, test_bit-suc a i ∙ t)
]
