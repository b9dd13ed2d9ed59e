-- ===== src/Base/Sets.antt =====
-- `std::set` of numbers: a list in ascending order.
use dg.Base.{
  ℕ, suc, ◌+◌, ◌≤◌, ◌<◌, true, false, length, Ascends, ◌≡◌, refl, ◌||◌, List, [], ◌∷◌, ltb, ◌==◌,
  if◌then◌else◌, has_elem, arith, Bool-cases, inl, inr,
}

abbrev place : ℕ → List ℕ → List ℕ
place a [] = a ∷ []
place a (x ∷ xs) = if ltb a x then a ∷ x ∷ xs else x ∷ place a xs

-- `insert`: an element that is there already leaves the set alone.
abbrev pub insert : ℕ → List ℕ → List ℕ
insert a xs = if has_elem a xs then xs else place a xs

has_elem-place : (a w : ℕ) (xs : List ℕ) → has_elem w (place a xs) ≡ (a == w || has_elem w xs)
has_elem-place a w [] = refl
has_elem-place a w (x ∷ xs) = ground (arith, has_elem-place a w xs)

pub has_elem-insert : (a w : ℕ) (xs : List ℕ) → has_elem w (insert a xs) ≡ (a == w || has_elem w xs)
has_elem-insert a w xs = elim (Bool-cases (has_elem a xs)) [
  | inl old ↦ elim (Bool-cases (a == w)) [
    | inl e ↦ let z : a ≡ w = ground arith in rw (← z) (ground arith)
    | inr e ↦ ground arith
  ]
  | inr new ↦ ground (arith, has_elem-place a w xs)
]

Ascends-place :
    (lo a : ℕ) (xs : List ℕ)
    → lo ≤ a
    → has_elem a xs ≡ false
    → Ascends lo xs
    → Ascends lo (place a xs)
Ascends-place lo a [] h e s = (h, tt)
Ascends-place lo a (x ∷ xs) h e s = ground (arith, Ascends-place (suc x) a xs)

pub Ascends-insert : (lo a : ℕ) (xs : List ℕ) → lo ≤ a → Ascends lo xs → Ascends lo (insert a xs)
Ascends-insert lo a xs h s = ground (arith, Ascends-place lo a xs)

length-place : (a : ℕ) (xs : List ℕ) → length (place a xs) ≡ suc (length xs)
length-place a [] = refl
length-place a (x ∷ xs) = ground (arith, length-place a xs)

pub length-insert :
    (a : ℕ) (xs : List ℕ) → has_elem a xs ≡ false → length (insert a xs) ≡ suc (length xs)
length-insert a xs e = ground (arith, length-place a xs)

-- A set of numbers below `n` has at most `n` of them.
pub length-le :
    (n lo : ℕ) (xs : List ℕ)
    → lo ≤ n
    → Ascends lo xs
    → ((a : ℕ) → has_elem a xs ≡ true → a < n)
    → length xs + lo ≤ n
length-le n lo [] h s b = omega arith
length-le n lo (x ∷ xs) h s b =
    omega (arith, length-le n (suc x) xs (b x (ground arith)) s.1 (λ a t. b a (ground arith)))
