-- ===== src/Adt/Bits/Scan.antt =====
-- The iterator of a word (Bits.h), step by step.
use dg.Base.{ℕ, zero, suc, ◌+◌, ◌-◌, ◌≤◌, ◌<◌, ◌≡◌, refl, true, false, ◌&&◌, List, [], ◌∷◌}
use dg.Base.{ltb, leb, ◌==◌, if◌then◌else◌, has_elem, length, Bool-cases, inl, inr, ◌⊎◌, arith}
use dg.Base.Bit.{test_bit}
use dg.Adt.Bits.{Word, bits_num, find_next, next, begin, walk, elements, size_loop}

-- The set positions among the `n` from `pos` on.
unfoldable pub bits_from : Word → ℕ → ℕ → List ℕ
bits_from bits zero pos = []
bits_from bits (suc n) pos =
    if test_bit bits pos then pos ∷ bits_from bits n (pos + 1) else bits_from bits n (pos + 1)

pub bits_from_hit :
    (bits n pos : ℕ)
    → test_bit bits pos ≡ true
    → bits_from bits (suc n) pos ≡ pos ∷ bits_from bits n (pos + 1)
unfolding bits_from
bits_from_hit bits n pos t = rw t

pub bits_from_miss :
    (bits n pos : ℕ)
    → test_bit bits pos ≡ false
    → bits_from bits (suc n) pos ≡ bits_from bits n (pos + 1)
unfolding bits_from
bits_from_miss bits n pos t = rw t

pub has_elem-bits_from :
    (bits n pos i : ℕ)
    → has_elem i (bits_from bits n pos) ≡ (leb pos i && ltb i (pos + n) && test_bit bits i)
unfolding bits_from
has_elem-bits_from bits zero pos i = ground arith
has_elem-bits_from bits (suc n) pos i = elim (Bool-cases (pos == i)) [
  | inl e ↦ ground (arith, has_elem-bits_from bits n (pos + 1) i)
  | inr e ↦ ground (arith, has_elem-bits_from bits n (pos + 1) i)
]

-- Where `find_next` stops: at the end with no bit left, or at the first set bit.
abbrev pub Found : Word → ℕ → ℕ → ℕ → Type 0
Found bits n pos p =
    (p ≡ bits_num) × (bits_from bits n pos ≡ [])
    ⊎ (p < bits_num)
      × (test_bit bits p ≡ true)
      × (bits_from bits n pos ≡ p ∷ bits_from bits (bits_num - 1 - p) (p + 1))

pub find_next-Found :
    (bits fuel n pos : ℕ)
    → pos + suc n ≡ bits_num
    → suc n ≤ fuel
    → Found bits (suc n) pos (find_next bits fuel pos)
unfolding find_next bits_from
find_next-Found bits zero n pos e h = absurd (omega arith)
find_next-Found bits (suc fuel) zero pos e h = elim (Bool-cases (test_bit bits pos)) [
  | inl t ↦ let z : bits_num - 1 - pos ≡ 0 = omega arith in rw (t, z) (inr (omega arith, t, refl))
  | inr t ↦
      let z : (pos + 1 == bits_num) ≡ true = ground arith in rw (t, z) (inl (omega arith, refl))
]
find_next-Found bits (suc fuel) (suc n) pos e h = elim (Bool-cases (test_bit bits pos)) [
  | inl t ↦
      let z : bits_num - 1 - pos ≡ suc n = omega arith in rw (t, z) (inr (omega arith, t, refl))
  | inr t ↦
      let z : (pos + 1 == bits_num) ≡ false = ground arith in
      rw (t, z) (find_next-Found bits fuel n (pos + 1) (omega arith) (omega arith))
]

pub le-find_next : (bits fuel pos : ℕ) → pos ≤ find_next bits fuel pos
unfolding find_next
le-find_next bits zero pos = omega arith
le-find_next bits (suc fuel) pos = ground (arith, le-find_next bits fuel (pos + 1))

pub lt-next : (bits pos : ℕ) → pos < next bits pos
unfolding next
lt-next bits pos = ground (arith, le-find_next bits bits_num (pos + 1))

pub next-Found :
    (bits pos : ℕ) → pos < bits_num → Found bits (bits_num - 1 - pos) (pos + 1) (next bits pos)
unfolding next bits_from
next-Found bits pos h = elim (Bool-cases (pos + 1 == bits_num)) [
  | inl e ↦ let z : bits_num - 1 - pos ≡ 0 = ground arith in rw (e, z) (inl (ground arith, refl))
  | inr e ↦
      let z : bits_num - 1 - pos ≡ suc (bits_num - 2 - pos) = ground arith in
      rw (e, z)
        (find_next-Found bits bits_num (bits_num - 2 - pos) (pos + 1) (ground arith) (ground arith))
]

-- An iterator that stands where a scan of `n` bits from `start` on stopped visits just those bits.
pub walk-Found :
    (bits fuel n start pos : ℕ)
    → bits_num - pos < fuel
    → Found bits n start pos
    → walk bits fuel pos ≡ bits_from bits n start
unfolding walk
walk-Found bits zero n start pos h f = absurd (omega arith)
walk-Found bits (suc fuel) n start pos h (inl (e, none)) = rw (e, none) refl
walk-Found bits (suc fuel) n start pos h (inr (lt, t, more)) =
    let z : (pos == bits_num) ≡ false = ground arith in
    let rest =
      walk-Found bits fuel (bits_num - 1 - pos) (pos + 1) (next bits pos)
        (omega (arith, lt-next bits pos)) (next-Found bits pos lt) in
    rw (z, more, rest) refl

pub begin-Found : (bits : ℕ) → Found bits bits_num 0 (begin bits)
unfolding begin
begin-Found bits = elim (Bool-cases (test_bit bits 0)) [
  | inl t ↦ rw t (inr (omega arith, t, bits_from_hit bits 63 0 t))
  | inr t ↦ rw (t, bits_from_miss bits 63 0 t) (next-Found bits 0 (omega arith))
]

-- The numbers that iteration over a word visits.
pub elements_lem : (bits : ℕ) → elements bits ≡ bits_from bits bits_num 0
unfolding elements
elements_lem bits =
    walk-Found bits (bits_num + 1) bits_num 0 (begin bits) (omega arith) (begin-Found bits)

pub size_loop_lem :
    (bits n pos num : ℕ) → size_loop bits n pos num ≡ num + length (bits_from bits n pos)
unfolding size_loop bits_from
size_loop_lem bits zero pos num = omega arith
size_loop_lem bits (suc n) pos num =
    ground (arith, size_loop_lem bits n (pos + 1) num, size_loop_lem bits n (pos + 1) (num + 1))
