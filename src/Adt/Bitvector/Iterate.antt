-- ===== src/Adt/Bitvector/Iterate.antt =====
-- The iterator of a bitvector (Bitvector.h), word by word.
use dg.Base.{ℕ, zero, suc, ◌+◌, ◌-◌, ◌≤◌, ◌<◌, ◌≡◌, refl, ap}
use dg.Base.{List, [], ◌∷◌, ◌++◌, map}
use dg.Base.{All, arith, inl, inr, has_elem}
use dg.Base.Bit.Laws.{has_bit, test_bit-high}
use dg.Adt.Bits.{bits_num, next}
use dg.Adt.Bits.Scan.{Found, find_next-Found, next-Found, lt-next, bits_from, has_elem-bits_from}
use dg.Adt.Bitvector.{
  Bitvector, begin, settle, next_in, walk, walk_fuel, elements, IsBlock, IsValid, find_closest_bit,
}

-- The numbers of a bitvector, word by word.
unfoldable pub members : Bitvector → List ℕ
members [] = []
members ((k, word) ∷ v) = map (λ p. k + p) (bits_from word bits_num 0) ++ members v

module _ (k word : ℕ) (v : Bitvector) where
  settle_hit :
      (pos : ℕ) → pos < bits_num → settle k word v pos ≡ record { rest = (k, word) ∷ v; pos = pos }
  unfolding settle
  settle_hit pos lt = ground arith

  settle_end : (pos : ℕ) → pos ≡ bits_num → settle k word v pos ≡ begin v
  unfolding settle
  settle_end pos e = ground arith

  walk_hit :
      (fuel pos : ℕ)
      → pos < bits_num
      → walk (suc fuel) (settle k word v pos).rest (settle k word v pos).pos
        ≡ (k + pos)
          ∷ walk fuel (settle k word v (next word pos)).rest (settle k word v (next word pos)).pos
  unfolding walk next_in next
  walk_hit fuel pos lt = rw (settle_hit pos lt)

  -- From an iterator in the first word, which a scan of `n` bits from `start` left at `pos`.
  walk-settle :
      ((fuel : ℕ) → walk_fuel v ≤ fuel → walk fuel (begin v).rest (begin v).pos ≡ members v)
      → (fuel n start pos : ℕ) → bits_num - pos + walk_fuel v ≤ fuel
      → Found word n start pos
      → walk fuel (settle k word v pos).rest (settle k word v pos).pos
        ≡ map (λ p. k + p) (bits_from word n start) ++ members v
  walk-settle tail fuel n start pos h (inl (e, no_bits)) =
      rw (settle_end pos e, no_bits) (tail fuel (omega arith))
  walk-settle tail zero n start pos h (inr (lt, t, more)) = absurd (omega arith)
  walk-settle tail (suc fuel) n start pos h (inr (lt, t, more)) =
      let rest =
        walk-settle tail fuel (bits_num - 1 - pos) (pos + 1) (next word pos)
          (omega (arith, lt-next word pos)) (next-Found word pos lt) in
      rw (walk_hit fuel pos lt, more) (ap (λ l. (k + pos) ∷ l) rest)

  begin_hit :
      find_closest_bit word 0 < bits_num
      → begin ((k, word) ∷ v) ≡ settle k word v (find_closest_bit word 0)
  unfolding begin
  begin_hit lt = rw (settle_hit (find_closest_bit word 0) lt)

  -- The first word of a well-formed bitvector has a bit, so `begin` finds one there.
  find_closest_bit-Found :
      IsBlock (k, word)
      → Found word bits_num 0 (find_closest_bit word 0) × (find_closest_bit word 0 < bits_num)
  find_closest_bit-Found b =
      let found = find_next-Found word bits_num 63 0 refl (omega arith) in
      elim found [
        | inl (e, no_bits) ↦
            let (p, t) = has_bit word word (omega arith) (omega (arith, b.has_bits)) in
            absurd (
              ground (
                arith,
                has_elem-bits_from word bits_num 0 p,
                ap (has_elem p) no_bits,
                test_bit-high 64 word p b.fits,
              ))
        | inr (lt, t, more) ↦ (inr (lt, t, more), lt)
      ]

walk-begin :
    (v : Bitvector) (fuel : ℕ)
    → All IsBlock v
    → walk_fuel v ≤ fuel
    → walk fuel (begin v).rest (begin v).pos ≡ members v
unfolding members
walk-begin [] zero b h = absurd (omega arith)
walk-begin [] (suc fuel) b h = unfold walk begin in refl
walk-begin ((k, word) ∷ v) fuel b h =
    let (found, lt) = find_closest_bit-Found k word v b.0 in
    let rest =
      walk-settle k word v (λ f. walk-begin v f b.1) fuel bits_num 0 (find_closest_bit word 0)
        (omega arith) found in
    rw (begin_hit k word v lt) rest

pub elements_lem : (v : Bitvector) → IsValid v → elements v ≡ members v
unfolding elements
elements_lem v h = walk-begin v (walk_fuel v) h.blocks (omega arith)
