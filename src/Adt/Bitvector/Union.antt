-- ===== src/Adt/Bitvector/Union.antt =====
-- The union of two bitvectors (Bitvector.h), and its flag.
use dg.Base.{ℕ, suc, ◌+◌, ◌-◌, ◌%◌, ◌<◌, bit_or, ◌≡◌, refl, ◌↔◌, ◌≢◌, sym}
use dg.Base.{Bool, true, false, not, ◌||◌, [], ◌∷◌, Bool-cases, Option-cases}
use dg.Base.{◌==◌, if◌then◌else◌, arith, inl, inr}
use dg.Base.Bit.{test_bit}
use dg.Base.Bit.Laws.{test_bit-or, test_bit-zero_word, word_ext, test_bit-high}
use dg.Base.Maps.{find, put, find-put, Above, find_below, All-find}
use dg.Adt.Bits.{bits_num}
use dg.Adt.Bitvector.{Bitvector, shift, get, word_at, union_loop, union, IsBlock, IsValid}
use dg.Adt.Bitvector.Invariant.{union-IsValid, word_at-fits}

pub get-word_at : (v : Bitvector) (j : ℕ) → get v j ≡ test_bit (word_at (shift j) v) (j - shift j)
unfolding get word_at
get-word_at v j = elim (Option-cases (find (shift j) v)) [
  | inl e ↦ ground (arith, e, test_bit-zero_word (j - shift j))
  | inr (word, e) ↦ ground (arith, e)
]

pub word_at-put :
    (j k word : ℕ) (v : Bitvector)
    → word_at j (put k word v) ≡ (if k == j then word else word_at j v)
unfolding word_at
word_at-put j k word v = ground (arith, find-put j k word v)

bit_or-zero : (a : ℕ) → bit_or a 0 ≡ a
bit_or-zero a = word_ext (bit_or a 0) a λ i. ground (arith, test_bit-or a 0 i, test_bit-zero_word i)

-- `|=` word by word. The shifts of `rhs` are distinct, so each word of `v` is joined once.
word_at-union_loop :
    (v rhs : Bitvector) (changed : Bool) (j lo : ℕ)
    → Above lo rhs
    → word_at j (union_loop v rhs changed).0 ≡ bit_or (word_at j v) (word_at j rhs)
unfolding union_loop
word_at-union_loop v [] changed j lo a = unfold word_at in sym (bit_or-zero (word_at j v))
word_at-union_loop v ((k, word) ∷ rhs) changed j lo a =
    unfold word_at in
    ground (
      arith,
      word_at-union_loop (put k (bit_or (word_at k v) word) v) rhs
          (changed || not (word_at k v == bit_or (word_at k v) word)) j (suc k) a.1,
      word_at-put j k (bit_or (word_at k v) word) v,
      find_below (suc k) j rhs a.1,
      bit_or-zero (bit_or (word_at k v) word),
    )

-- The union of well-formed bitvectors is well formed and holds exactly the numbers of both.
pub get-union :
    (v rhs : Bitvector) (j : ℕ)
    → IsValid v
    → IsValid rhs
    → IsValid (union v rhs).0 × (get (union v rhs).0 j ≡ (get v j || get rhs j))
unfolding union
get-union v rhs j h k = (
  union-IsValid v rhs h k,
  rw
      (
        get-word_at (union_loop v rhs false).0 j,
        get-word_at v j,
        get-word_at rhs j,
        word_at-union_loop v rhs false (shift j) 0 k.ascending,
      )
      (test_bit-or (word_at (shift j) v) (word_at (shift j) rhs) (j - shift j)),
)

-- Joining `rhs` into `v` changes no word.
abbrev IsJoined : Bitvector → Bitvector → Type 0
IsJoined v rhs = (j : ℕ) → bit_or (word_at j v) (word_at j rhs) ≡ word_at j v

word_at-cons :
    (j k word : ℕ) (v : Bitvector)
    → word_at j ((k, word) ∷ v) ≡ (if k == j then word else word_at j v)
unfolding word_at
word_at-cons j k word v = ground arith

word_at_below : (lo k : ℕ) (v : Bitvector) → Above lo v → k < lo → word_at k v ≡ 0
unfolding word_at
word_at_below lo k v a h = rw (find_below lo k v a h, word_at)

-- The words of `rhs` have distinct shifts, so joining one of them leaves the others to join.
IsJoined-cons :
    (v rhs : Bitvector) (k word : ℕ)
    → Above (suc k) rhs
    → ((bit_or (word_at k v) word ≡ word_at k v)
        × IsJoined (put k (bit_or (word_at k v) word) v) rhs)
      ↔ IsJoined v ((k, word) ∷ rhs)
IsJoined-cons v rhs k word a = (
  λ (same, joined) j. elim (Bool-cases (k == j)) [
    | inl e ↦ let z : k ≡ j = ground arith in rw (← z, word_at-cons k k word rhs) (ground arith)
    | inr e ↦ ground (arith, joined j, at j, word_at-cons j k word rhs)
  ],
  λ joined. (
    ground (arith, joined k, word_at-cons k k word rhs),
    λ j. elim (Bool-cases (k == j)) [
      | inl e ↦
          let z : word_at j rhs ≡ 0 = word_at_below (suc k) j rhs a (ground arith) in
          rw z (bit_or-zero (word_at j (put k (bit_or (word_at k v) word) v)))
      | inr e ↦ ground (arith, joined j, at j, word_at-cons j k word rhs)
    ],
  ),
)
  where
    at :
        (j : ℕ)
        → word_at j (put k (bit_or (word_at k v) word) v)
          ≡ (if k == j then bit_or (word_at k v) word else word_at j v)
    at j = word_at-put j k (bit_or (word_at k v) word) v

union_loop_flag :
    (v rhs : Bitvector) (changed : Bool) (lo : ℕ)
    → Above lo rhs
    → ((union_loop v rhs changed).1 ≡ false) ↔ ((changed ≡ false) × IsJoined v rhs)
unfolding union_loop
union_loop_flag v [] changed lo a =
    (λ f. (f, λ j. unfold word_at in bit_or-zero (word_at j v)), λ h. h.0)
union_loop_flag v ((k, word) ∷ rhs) changed lo a =
    let ih =
      union_loop_flag (put k (bit_or (word_at k v) word) v) rhs
        (changed || not (word_at k v == bit_or (word_at k v) word)) (suc k) a.1 in
    let step = IsJoined-cons v rhs k word a.1 in
    (
      λ f. (let (c, joined) = (ih).0 f in (ground arith, (step).0 (ground arith, joined))),
      λ (c, joined). (let (same, rest) = (step).1 joined in (ih).1 (ground arith, rest)),
    )

word_at_unaligned : (v : Bitvector) (j : ℕ) → IsValid v → j % bits_num ≢ 0 → word_at j v ≡ 0
unfolding word_at
word_at_unaligned v j h ne = elim (Option-cases (find j v)) [
  | inl e ↦ rw (e, word_at)
  | inr (word, e) ↦ absurd (ne (All-find IsBlock j v h.blocks e).aligned)
]

test_word_at :
    (v : Bitvector) (k p : ℕ)
    → k % bits_num ≡ 0
    → p < bits_num
    → test_bit (word_at k v) p ≡ get v (k + p)
test_word_at v k p al lt =
    let s : shift (k + p) ≡ k = omega arith in
    let r : k + p - shift (k + p) ≡ p = omega arith in ground (arith, s, r, get-word_at v (k + p))

-- Every bit of a word that is joined already stands in the other word.
or_eq_self : (a b : ℕ) → ((p : ℕ) → test_bit b p ≡ true → test_bit a p ≡ true) → bit_or a b ≡ a
or_eq_self a b h = word_ext (bit_or a b) a λ p. ground (arith, test_bit-or a b p, h p)

IsJoined-get :
    (v rhs : Bitvector)
    → IsValid v
    → IsValid rhs
    → IsJoined v rhs ↔ ((j : ℕ) → get rhs j ≡ true → get v j ≡ true)
IsJoined-get v rhs h k = (
  λ joined j t. ground (
    arith,
    joined (shift j),
    get-word_at v j,
    get-word_at rhs j,
    test_bit-or (word_at (shift j) v) (word_at (shift j) rhs) (j - shift j),
  ),
  λ sub j. elim (Bool-cases (j % bits_num == 0)) [
    | inl al ↦ or_eq_self (word_at j v) (word_at j rhs) λ p t. ground (
      arith,
      test_bit-high 64 (word_at j rhs) p (word_at-fits rhs j k),
      test_word_at v j p,
      test_word_at rhs j p,
      sub (j + p),
    )
    | inr al ↦
        let z : word_at j rhs ≡ 0 = word_at_unaligned rhs j k (ground arith) in
        rw z (bit_or-zero (word_at j v))
  ],
)

-- The flag of the union of well-formed bitvectors is false exactly when it adds nothing: every
-- number of the second bitvector is in the first already.
pub union_flag :
    (v rhs : Bitvector)
    → IsValid v
    → IsValid rhs
    → ((union v rhs).1 ≡ false) ↔ ((j : ℕ) → get rhs j ≡ true → get v j ≡ true)
unfolding union
union_flag v rhs h k =
    let loop = union_loop_flag v rhs false 0 k.ascending in
    let joined = IsJoined-get v rhs h k in
    (λ f. (joined).0 ((loop).0 f).1, λ sub. (loop).1 (refl, (joined).1 sub))
