-- ===== src/Adt/Bitvector/Count.antt =====
-- `_countBits` of Bitvector.h.
use dg.Base.{ℕ, zero, suc, ◌+◌, ◌/◌, ◌^◌, ◌<◌, ◌≡◌, refl, ◌∙◌, arith, length}
use dg.Base.Bit.{test_bit-zero, test_bit-suc}
use dg.Base.Bit.Laws.{test_bit-zero_word}
use dg.Adt.Bits.{bits_num}
use dg.Adt.Bits.Scan.{bits_from}
use dg.Adt.Bitvector.{count_loop, count_bits}
use native.Mathlib.Nat.{pow-suc}

count_half :
    (n bits pos : ℕ) → length (bits_from bits n (suc pos)) ≡ length (bits_from (bits / 2) n pos)
unfolding bits_from
count_half zero bits pos = refl
count_half (suc n) bits pos =
    ground (arith, test_bit-suc bits pos, count_half n bits (pos + 1), suc_add)
  where
    suc_add : suc pos + 1 ≡ suc (pos + 1)
    suc_add = omega arith

count_zero : (n pos : ℕ) → length (bits_from 0 n pos) ≡ 0
unfolding bits_from
count_zero zero pos = refl
count_zero (suc n) pos = ground (arith, test_bit-zero_word pos, count_zero n (pos + 1))

count_loop_lem :
    (fuel bits num : ℕ)
    → bits < 2 ^ fuel
    → count_loop fuel bits num ≡ num + length (bits_from bits fuel 0)
unfolding count_loop bits_from
count_loop_lem zero bits num h = omega arith
count_loop_lem (suc fuel) bits num h = ground (
  arith,
  pow-suc 2 fuel,
  count_loop_lem fuel (bits / 2) num,
  count_loop_lem fuel (bits / 2) (num + 1),
  test_bit-zero bits,
  count_half fuel bits 0,
  count_zero fuel 1,
)

pub count_bits_lem :
    (bits : ℕ) → bits < 2 ^ 64 → count_bits bits ≡ length (bits_from bits bits_num 0)
unfolding count_bits
count_bits_lem bits h = count_loop_lem 64 bits 0 h ∙ omega arith
