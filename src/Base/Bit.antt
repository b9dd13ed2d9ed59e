-- ===== src/Base/Bit.antt =====
-- Single bits of a word: reading one, `|=`, and `& ~`, at every width.
mod Step
pub mod Laws
use Step.{low-bit_or, low-bit_and, bit_and-zero}
use Prim.Native.Nat.{ℕ, zero, suc, ◌+◌, ◌-◌, ◌*◌, ◌/◌, ◌%◌, ◌^◌, ◌≤◌, ◌<◌, bit_and, bit_or}
use mathlib.Core.Path.{◌≡◌, refl, sym, ap, ◌∙◌}
use mathlib.Core.Bool.{Bool, true, false, not, ◌&&◌, ◌||◌}
use native.Mathlib.Nat.{pow-suc, one-le-pow}
use native.Mathlib.Omega.{arith}
use dg.Base.Tests.{◌==◌, ltb}

-- `word & (1 << i)`, read as a truth value
unfoldable pub test_bit : ℕ → ℕ → Bool
test_bit word i = not (bit_and word (2 ^ i) == 0)

-- `~word` at width `w`
abbrev pub complement : ℕ → ℕ → ℕ
complement w word = 2 ^ w - 1 - word

pub test_bit-zero : (a : ℕ) → test_bit a 0 ≡ (a % 2 == 1)
unfolding test_bit
test_bit-zero a = ground (arith, low-bit_and a 1, bit_and-zero (a / 2))

pub test_bit-suc : (a i : ℕ) → test_bit a (suc i) ≡ test_bit (a / 2) i
unfolding test_bit
test_bit-suc a i = ground (arith, low-bit_and a (2 ^ suc i), pow-suc 2 i, half)
  where
    half : 2 ^ suc i / 2 ≡ 2 ^ i
    half = omega (arith, pow-suc 2 i)
