-- ===== src/Adt/Bitvector/Invariant.antt =====
-- Well-formedness of a bitvector under the operations of Bitvector.h.
use dg.Base.{ℕ, ◌-◌, ◌%◌, ◌^◌, ◌≤◌, ◌<◌, bit_and, bit_or, ◌≡◌}
use dg.Base.{Bool, false, some, [], ◌∷◌, Bool-cases, Option-cases, inl, inr}
use dg.Base.{◌==◌, All, arith}
use dg.Base.Bit.{complement}
use dg.Base.Bit.Laws.{pow-lt, bit_or-lt, bit_and-le, le-bit_or, le-bit_or_right}
use native.Mathlib.Nat.{one-le-pow}
use dg.Base.Maps.{find, put, erase, Above-put, Above-erase, All-put, All-erase, All-find}
use dg.Adt.Bits.{bits_num}
use dg.Adt.Bitvector.{Bitvector, shift, set, word_at, union_loop, union, unset, IsBlock, IsValid}

pub shift_bounds : (i : ℕ) → (shift i % bits_num ≡ 0) × (i - shift i < bits_num) × (shift i ≤ i)
shift_bounds i = omega arith

pub put-IsValid :
    (k word : ℕ) (v : Bitvector) → IsBlock (k, word) → IsValid v → IsValid (put k word v)
put-IsValid k word v b h = record {
  ascending = Above-put 0 k word v (omega arith) h.ascending;
  blocks = All-put IsBlock k word v b h.blocks;
}

pub erase-IsValid : (k : ℕ) (v : Bitvector) → IsValid v → IsValid (erase k v)
erase-IsValid k v h = record {
  ascending = Above-erase 0 k v h.ascending;
  blocks = All-erase IsBlock k v h.blocks;
}

pub bit-IsBlock : (i : ℕ) → IsBlock (shift i, 2 ^ (i - shift i))
bit-IsBlock i = record {
  aligned = (shift_bounds i).0;
  has_bits = one-le-pow (i - shift i) 2 (omega arith);
  fits = pow-lt 64 (i - shift i) (shift_bounds i).1;
}

pub or-IsBlock : (k a b : ℕ) → IsBlock (k, a) → b < 2 ^ 64 → IsBlock (k, bit_or a b)
or-IsBlock k a b h fits = record {
  aligned = h.aligned;
  has_bits = omega (arith, le-bit_or a a b, h.has_bits);
  fits = bit_or-lt 64 a b h.fits fits;
}

pub set-IsValid : (v : Bitvector) (i : ℕ) → IsValid v → IsValid (set v i).0
unfolding set
set-IsValid v i h = elim (Option-cases (find (shift i) v)) [
  | inl e ↦ rw (e, set) (put-IsValid (shift i) (2 ^ (i - shift i)) v (bit-IsBlock i) h)
  | inr (word, e) ↦
      rw (e, set)
        (put-IsValid (shift i) (bit_or word (2 ^ (i - shift i))) v
          (or-IsBlock (shift i) word (2 ^ (i - shift i)) (All-find IsBlock (shift i) v h.blocks e)
            (bit-IsBlock i).fits)
          h)
]

and-IsBlock : (k a b : ℕ) → IsBlock (k, a) → (bit_and a b == 0) ≡ false → IsBlock (k, bit_and a b)
and-IsBlock k a b h ne = record {
  aligned = h.aligned;
  has_bits = ground arith;
  fits = omega (arith, bit_and-le a a b, h.fits);
}

pub unset-IsValid : (v : Bitvector) (i : ℕ) → IsValid v → IsValid (unset v i).0
unset-IsValid v i h = elim (Option-cases (find (shift i) v)) [
  | inl e ↦ unfold unset in rw (e, unset) h
  | inr (word, e) ↦ clear word (All-find IsBlock (shift i) v h.blocks e) e
]
  where
    left : ℕ → ℕ
    left word = bit_and word (complement bits_num (2 ^ (i - shift i)))

    clear :
        (word : ℕ) → IsBlock (shift i, word) → find (shift i) v ≡ some word → IsValid (unset v i).0
    clear word b e = elim (Bool-cases (left word == 0)) [
      | inl gone ↦ unfold unset in rw (e, unset) (rw gone (erase-IsValid (shift i) v h))
      | inr some_left ↦
          unfold unset in
          rw (e, unset)
            (rw some_left (
              put-IsValid (shift i) (left word) v
                (and-IsBlock (shift i) word (complement bits_num (2 ^ (i - shift i))) b some_left)
                h))
    ]

pub word_at-fits : (v : Bitvector) (k : ℕ) → IsValid v → word_at k v < 2 ^ 64
word_at-fits v k h = elim (Option-cases (find k v)) [
  | inl e ↦ unfold word_at in rw (e, word_at) (omega arith)
  | inr (word, e) ↦ unfold word_at in rw (e, word_at) (All-find IsBlock k v h.blocks e).fits
]

-- The words that the union stores are not zero, since those of a well-formed `rhs` are not.
pub join-IsBlock :
    (v : Bitvector) (k word : ℕ)
    → IsValid v
    → IsBlock (k, word)
    → IsBlock (k, bit_or (word_at k v) word)
join-IsBlock v k word h b = record {
  aligned = b.aligned;
  has_bits = omega (arith, le-bit_or_right word (word_at k v) word, b.has_bits);
  fits = bit_or-lt 64 (word_at k v) word (word_at-fits v k h) b.fits;
}

pub union_loop-IsValid :
    (v rhs : Bitvector) (changed : Bool)
    → IsValid v
    → All IsBlock rhs
    → IsValid (union_loop v rhs changed).0
unfolding union_loop
union_loop-IsValid v [] changed h bs = h
union_loop-IsValid v ((k, word) ∷ rhs) changed h bs =
    union_loop-IsValid (put k (bit_or (word_at k v) word) v) rhs _
      (put-IsValid k (bit_or (word_at k v) word) v (join-IsBlock v k word h bs.0) h) bs.1

pub union-IsValid : (v rhs : Bitvector) → IsValid v → IsValid rhs → IsValid (union v rhs).0
unfolding union
union-IsValid v rhs h k = union_loop-IsValid v rhs false h k.blocks
