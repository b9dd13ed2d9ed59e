-- ===== src/Base/Bit/Step.antt =====
-- How `bit_and` and `bit_or` treat the lowest digit. Natively they stand for a recursion over binary
-- digits with fuel; the laws here have no fuel.
use Prim.Native.Nat.{ℕ, zero, suc, ◌+◌, ◌*◌, ◌/◌, ◌%◌, ◌≤◌, min, max}
use Prim.Native.Nat.{bit_and, bit_or, digits, bitwise, bit_and-bitwise, bit_or-bitwise}
use mathlib.Core.Path.{◌≡◌, refl, sym, ◌∙◌}
use native.Mathlib.Omega.{arith}

module _ (rest : ℕ → ℕ) (digit : ℕ → ℕ → ℕ) where
  no_digits : (fuel y : ℕ) → digits rest digit fuel 0 y ≡ rest y
  no_digits zero y = refl
  no_digits (suc fuel) y = refl

  -- Any two amounts of fuel that are enough give the same digits.
  enough_fuel :
      (x fuel fuel' y : ℕ)
      → x ≤ fuel
      → x ≤ fuel'
      → digits rest digit fuel x y ≡ digits rest digit fuel' x y
  enough_fuel zero fuel fuel' y h k = no_digits fuel y ∙ sym (no_digits fuel' y)
  enough_fuel (suc x) (suc fuel) (suc fuel') y h k =
      omega (arith, enough_fuel (suc x / 2) fuel fuel' (y / 2) (omega arith) (omega arith))
  enough_fuel (suc x) zero fuel' y h k = absurd (omega arith)
  enough_fuel (suc x) (suc fuel) zero y h k = absurd (omega arith)

  low-bitwise :
      (x y : ℕ)
      → rest y ≡ 2 * rest (y / 2) + digit 0 (y % 2)
      → bitwise rest digit x y ≡ 2 * bitwise rest digit (x / 2) (y / 2) + digit (x % 2) (y % 2)
  low-bitwise zero y last = last
  low-bitwise (suc x) y last =
      let half = suc x / 2 in
      omega (arith, enough_fuel half x half (y / 2) (omega arith) (omega arith))

pub low-bit_and : (x y : ℕ) → bit_and x y ≡ 2 * bit_and (x / 2) (y / 2) + min (x % 2) (y % 2)
low-bit_and x y = simp bit_and-bitwise (low-bitwise (λ k. 0) min x y (omega arith))

pub low-bit_or : (x y : ℕ) → bit_or x y ≡ 2 * bit_or (x / 2) (y / 2) + max (x % 2) (y % 2)
low-bit_or x y = simp bit_or-bitwise (low-bitwise (λ k. k) max x y (omega arith))

no_bits : (n x : ℕ) → x ≤ n → bit_and x 0 ≡ 0
no_bits (suc n) x h = omega (arith, low-bit_and x 0, no_bits n (x / 2) (omega arith))
no_bits zero x h = let nothing : x ≡ 0 = omega arith in rw nothing (bit_and-bitwise 0 0)

pub bit_and-zero : (x : ℕ) → bit_and x 0 ≡ 0
bit_and-zero x = no_bits x x (omega arith)

pub zero-bit_and : (y : ℕ) → bit_and 0 y ≡ 0
zero-bit_and y = bit_and-bitwise 0 y
