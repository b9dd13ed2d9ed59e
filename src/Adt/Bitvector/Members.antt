-- ===== src/Adt/Bitvector/Members.antt =====
-- Iteration, lookup and size of a bitvector (Bitvector.h).
use dg.Base.{ℕ, zero, suc, ◌+◌, ◌-◌, ◌%◌, ◌≤◌, ◌<◌, ◌≡◌, refl, sym}
use dg.Base.{false, ◌&&◌, List, [], ◌∷◌, ◌++◌, map}
use dg.Base.{Bool-cases, leb, ◌==◌, if◌then◌else◌, All, arith, inl, inr, has_elem, length}
use dg.Base.{has_elem-append, length-append, length-map, Ascends, Ascends-le}
use dg.Base.Bit.{test_bit}
use dg.Base.Maps.{Above, find_below}
use dg.Adt.Bits.{bits_num}
use dg.Adt.Bits.Scan.{bits_from, has_elem-bits_from}
use dg.Adt.Bitvector.{Bitvector, shift, get, size, elements, IsBlock, IsValid}
use dg.Adt.Bitvector.Count.{count_bits_lem}
use dg.Adt.Bitvector.Iterate.{members, elements_lem}

has_elem-map_add :
    (k i : ℕ) (xs : List ℕ) → has_elem i (map (λ p. k + p) xs) ≡ (leb k i && has_elem (i - k) xs)
has_elem-map_add k i [] = ground arith
has_elem-map_add k i (x ∷ xs) = ground (arith, has_elem-map_add k i xs)

get_nil : (i : ℕ) → get [] i ≡ false
unfolding get
get_nil i = refl

get_cons :
    (k word i : ℕ) (v : Bitvector)
    → get ((k, word) ∷ v) i ≡ (if k == shift i then test_bit word (i - shift i) else get v i)
unfolding get
get_cons k word i v = ground arith

get_below : (lo i : ℕ) (v : Bitvector) → Above lo v → shift i < lo → get v i ≡ false
unfolding get
get_below lo i v a h = ground (arith, find_below lo (shift i) v a h)

has_elem-members :
    (v : Bitvector) (lo i : ℕ) → Above lo v → All IsBlock v → has_elem i (members v) ≡ get v i
unfolding members
has_elem-members [] lo i a b = sym (get_nil i)
has_elem-members ((k, word) ∷ v) lo i a b = ground (
  arith,
  has_elem-append i (map (λ p. k + p) (bits_from word bits_num 0)) (members v),
  has_elem-map_add k i (bits_from word bits_num 0),
  has_elem-bits_from word bits_num 0 (i - k),
  has_elem-members v (suc k) i a.1 b.1,
  get_cons k word i v,
  get_below (suc k) i v a.1,
  b.0.aligned,
)

Ascends-bits :
    (k word n pos lo hi : ℕ) (ys : List ℕ)
    → lo ≤ k + pos
    → k + pos + n ≤ hi
    → Ascends hi ys
    → Ascends lo (map (λ p. k + p) (bits_from word n pos) ++ ys)
unfolding bits_from
Ascends-bits k word zero pos lo hi ys h m a = Ascends-le lo hi ys (omega arith) a
Ascends-bits k word (suc n) pos lo hi ys h m a = elim (Bool-cases (test_bit word pos)) [
  | inl t ↦
      rw t (h, Ascends-bits k word n (pos + 1) (suc (k + pos)) hi ys (omega arith) (omega arith) a)
  | inr t ↦ rw t (Ascends-bits k word n (pos + 1) lo hi ys (omega arith) (omega arith) a)
]

-- Each word spans 64 numbers, and the next one starts at a later multiple of 64.
members-Ascends :
    (v : Bitvector) (lo hi : ℕ)
    → Above lo v
    → All IsBlock v
    → hi % bits_num ≡ 0
    → hi < lo + bits_num
    → Ascends hi (members v)
unfolding members
members-Ascends [] lo hi a b al h = tt
members-Ascends ((k, word) ∷ v) lo hi a b al h =
    Ascends-bits k word bits_num 0 hi (k + bits_num) (members v) (omega (arith, b.0.aligned))
      (omega arith)
      (members-Ascends v (suc k) (k + bits_num) a.1 b.1 (omega (arith, b.0.aligned)) (omega arith))

pub size_lem : (v : Bitvector) → All IsBlock v → size v ≡ length (members v)
unfolding size members
size_lem [] b = refl
size_lem ((k, word) ∷ v) b = omega (
  arith,
  length-append (map (λ p. k + p) (bits_from word bits_num 0)) (members v),
  length-map (λ p. k + p) (bits_from word bits_num 0),
  count_bits_lem word b.0.fits,
  size_lem v b.1,
)

-- Iteration over a well-formed bitvector visits exactly the numbers that a lookup finds, each once
-- and in ascending order, and `size` is how many they are.
pub has_elem-elements :
    (v : Bitvector)
    → IsValid v
    → ((i : ℕ) → has_elem i (elements v) ≡ get v i)
      × Ascends 0 (elements v)
      × (size v ≡ length (elements v))
has_elem-elements v h = rw (elements_lem v h) (
  λ i. has_elem-members v 0 i h.ascending h.blocks,
  members-Ascends v 0 0 h.ascending h.blocks refl (omega arith),
  size_lem v h.blocks,
)
