-- ===== src/Adt/Bitvector/Laws.antt =====
-- Lookups after an insertion and after a removal (Bitvector.h).
use dg.Base.{ℕ, ◌+◌, ◌-◌, ◌%◌, ◌^◌, ◌<◌, bit_and, bit_or, ◌≡◌, refl, ◌↔◌, ◌∙◌}
use dg.Base.{true, false, not, ◌&&◌, ◌||◌, some, [], ◌∷◌, Option-cases}
use dg.Base.{◌==◌, arith, inl, inr}
use dg.Base.Bit.{test_bit, complement}
use dg.Base.Bit.Laws.{
  pow-lt, test_bit-or, test_bit-and, test_bit-pow, test_bit-complement, test_bit-zero_word, has_bit,
  test_bit-high,
}
use dg.Base.Maps.{find, find-put, find-erase, All-find}
use dg.Adt.Bits.{bits_num}
use dg.Adt.Bitvector.{Bitvector, shift, set, get, empty, unset, IsBlock, IsValid}
use dg.Adt.Bitvector.Invariant.{shift_bounds, set-IsValid, unset-IsValid}

-- Inserting a number keeps a well-formed bitvector well formed, makes a lookup find that number
-- and changes no other lookup, and returns whether the number was there before.
pub get-set :
    (v : Bitvector) (i j : ℕ)
    → IsValid v
    → IsValid (set v i).0 × (get (set v i).0 j ≡ (i == j || get v j)) × ((set v i).1 ≡ get v i)
unfolding set get
get-set v i j h = (
  set-IsValid v i h,
  elim (Option-cases (find (shift i) v)) [
    | inl e ↦ ground (
      arith,
      e,
      find-put (shift j) (shift i) (2 ^ (i - shift i)) v,
      test_bit-pow (i - shift i) (j - shift j),
    )
    | inr (word, e) ↦ ground (
      arith,
      e,
      find-put (shift j) (shift i) (bit_or word (2 ^ (i - shift i))) v,
      test_bit-or word (2 ^ (i - shift i)) (j - shift j),
      test_bit-pow (i - shift i) (j - shift j),
    )
  ],
  elim (Option-cases (find (shift i) v)) [
    | inl e ↦ ground (arith, e)
    | inr (word, e) ↦ ground (arith, e)
  ],
)

get-unset_word :
    (v : Bitvector) (i j word : ℕ)
    → IsValid v
    → word < 2 ^ 64
    → find (shift i) v ≡ some word
    → get (unset v i).0 j ≡ (get v j && not (i == j))
unfolding unset get
get-unset_word v i j word h fits e = ground (
  arith,
  find-put (shift j) (shift i) left v,
  find-erase (shift j) (shift i) 0 v h.ascending,
  test_bit-and word mask (j - shift j),
  test_bit-complement 64 (2 ^ (i - shift i)) (j - shift j)
      (pow-lt 64 (i - shift i) (shift_bounds i).1) (shift_bounds j).1,
  test_bit-pow (i - shift i) (j - shift j),
  test_bit-zero_word (j - shift j),
  e,
)
  where
    mask : ℕ
    mask = complement bits_num (2 ^ (i - shift i))

    left : ℕ
    left = bit_and word mask

-- Removing a number keeps a well-formed bitvector well formed, makes a lookup miss that number and
-- changes no other lookup.
pub get-unset :
    (v : Bitvector) (i j : ℕ)
    → IsValid v
    → IsValid (unset v i).0 × (get (unset v i).0 j ≡ (get v j && not (i == j)))
get-unset v i j h = (
  unset-IsValid v i h,
  elim (Option-cases (find (shift i) v)) [
    | inl e ↦ unfold unset get in ground (arith, e)
    | inr (word, e) ↦ get-unset_word v i j word h (All-find IsBlock (shift i) v h.blocks e).fits e
  ],
)

get_in_word :
    (v : Bitvector) (k p word : ℕ)
    → k % bits_num ≡ 0
    → p < bits_num
    → find k v ≡ some word
    → (shift (k + p) ≡ k) × (get v (k + p) ≡ test_bit word p)
unfolding get
get_in_word v k p word al lt e =
    let at_k : shift (k + p) ≡ k = omega arith in
    let rest : k + p - shift (k + p) ≡ p = omega arith in (at_k, ground (arith, at_k, rest, e))

-- A well-formed word of the map holds a number.
word_member :
    (v : Bitvector) (k word : ℕ)
    → IsBlock (k, word)
    → find k v ≡ some word
    → (j : ℕ) × (shift j ≡ k) × (get v j ≡ true)
word_member v k word b e =
    let (p, t) = has_bit word word (omega arith) (omega (arith, b.has_bits)) in
    let lt : p < 64 = ground (arith, test_bit-high 64 word p b.fits) in
    let (at_k, found) = get_in_word v k p word b.aligned lt e in (k + p, at_k, found ∙ t)

-- The flag that a removal from a well-formed bitvector returns tells whether any number that
-- shares the word was there: it is false exactly when no lookup finds a number in the word.
pub unset_flag :
    (v : Bitvector) (i : ℕ)
    → IsValid v
    → ((unset v i).1 ≡ false) ↔ ((j : ℕ) → shift j ≡ shift i → get v j ≡ false)
unset_flag v i h = elim (Option-cases (find (shift i) v)) [
  | inl e ↦ (λ f j s. unfold get in ground (arith, e), λ f. unfold unset in ground (arith, e))
  | inr (word, e) ↦
      let (j, s, t) = word_member v (shift i) word (All-find IsBlock (shift i) v h.blocks e) e in
      (λ f. absurd (unfold unset in ground (arith, e)), λ none. absurd (ground (arith, none j s)))
]

-- A well-formed bitvector is empty exactly when no lookup finds a number.
pub empty_iff : (v : Bitvector) → IsValid v → (empty v ≡ true) ↔ ((j : ℕ) → get v j ≡ false)
unfolding empty
empty_iff [] h = (λ e j. unfold get in refl, λ none. refl)
empty_iff ((k, word) ∷ v) h =
    let (j, s, t) = word_member ((k, word) ∷ v) k word h.blocks.0 (ground arith) in
    (λ e. absurd (ground arith), λ none. absurd (ground (arith, none j)))
