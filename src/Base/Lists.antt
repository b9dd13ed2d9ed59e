-- ===== src/Base/Lists.antt =====
-- Lists measured by native numbers, membership by a test, and predicates by recursion.
use Prim.Native.Nat.{ℕ, ◌≤◌, suc, ◌+◌}
use mathlib.Core.Path.{◌≡◌, refl, ap}
use mathlib.Core.Logic.{◌⊎◌, inl, inr, ◌≢◌}
use mathlib.Core.Bool.{Bool, false, not, ◌||◌}
use mathlib.Core.List.{List, [], ◌∷◌, ◌++◌, map}
use native.Mathlib.Omega.{arith}
use dg.Base.Tests.{◌==◌, if◌then◌else◌}

module _ {ℓ} {A : Type ℓ} where
  abbrev pub length : List A → ℕ
  length [] = 0
  length (x ∷ xs) = suc (length xs)

  abbrev pub All {κ} : (A → Type κ) → List A → Type κ
  All P [] = Unit
  All P (x ∷ xs) = P x × All P xs

  pub length-append : (xs ys : List A) → length (xs ++ ys) ≡ length xs + length ys
  length-append [] ys = omega arith
  length-append (x ∷ xs) ys = omega (arith, length-append xs ys)

module _ {ℓ κ ι} {A : Type ℓ} (P : A → Type κ) (Q : A → Type ι) where
  pub All-map : (xs : List A) → ((x : A) → P x → Q x) → All P xs → All Q xs
  All-map [] f a = tt
  All-map (x ∷ xs) f (p, a) = (f x p, All-map xs f a)

  pub All-both : (xs : List A) → All P xs → All Q xs → All (λ x. P x × Q x) xs
  All-both [] a b = tt
  All-both (x ∷ xs) (p, a) (q, b) = ((p, q), All-both xs a b)

pub All-every {ℓ κ} : {A : Type ℓ} (P : A → Type κ) (xs : List A) → ((x : A) → P x) → All P xs
All-every P [] f = tt
All-every P (x ∷ xs) f = (f x, All-every P xs f)

-- Membership of a number in a list.
abbrev pub has_elem : ℕ → List ℕ → Bool
has_elem a [] = false
has_elem a (x ∷ xs) = x == a || has_elem a xs

pub has_elem-append :
    (a : ℕ) (xs ys : List ℕ) → has_elem a (xs ++ ys) ≡ (has_elem a xs || has_elem a ys)
has_elem-append a [] ys = refl
has_elem-append a (x ∷ xs) ys = ground (arith, has_elem-append a xs ys)

-- The numbers of a list ascend, from `lo` on.
abbrev pub Ascends : ℕ → List ℕ → Type 0
Ascends lo [] = Unit
Ascends lo (x ∷ xs) = (lo ≤ x) × Ascends (suc x) xs

pub length-map {ℓ κ} :
    {A : Type ℓ} {B : Type κ} (f : A → B) (xs : List A) → length (map f xs) ≡ length xs
length-map f [] = refl
length-map f (x ∷ xs) = ap suc (length-map f xs)

pub Ascends-le : (lo hi : ℕ) (xs : List ℕ) → lo ≤ hi → Ascends hi xs → Ascends lo xs
Ascends-le lo hi [] h a = tt
Ascends-le lo hi (x ∷ xs) h a = (omega arith, a.1)

pub List-cases {ℓ} :
    {A : Type ℓ} (xs : List A) → (xs ≡ []) ⊎ ((x : A) × (rest : List A) × (xs ≡ x ∷ rest))
List-cases [] = inl refl
List-cases (x ∷ xs) = inr (x, xs, refl)

-- How often a number is in a list.
abbrev pub count : ℕ → List ℕ → ℕ
count node [] = 0
count node (first ∷ rest) = (if first == node then 1 else 0) + count node rest

pub has_elem-count : (a : ℕ) (xs : List ℕ) → has_elem a xs ≡ not (count a xs == 0)
has_elem-count a [] = refl
has_elem-count a (x ∷ xs) = ground (arith, has_elem-count a xs)

-- The list without a number.
abbrev pub without : ℕ → List ℕ → List ℕ
without a [] = []
without a (x ∷ xs) = if x == a then without a xs else x ∷ without a xs

pub count-without :
    (a b : ℕ) (xs : List ℕ) → count b (without a xs) ≡ (if b == a then 0 else count b xs)
count-without a b [] = ground arith
count-without a b (x ∷ xs) = ground (arith, count-without a b xs)

-- The list with another number in the place of a number.
abbrev pub replace : ℕ → ℕ → List ℕ → List ℕ
replace a b [] = []
replace a b (x ∷ xs) = (if x == a then b else x) ∷ replace a b xs

pub count-replace :
    (a b c : ℕ) (xs : List ℕ)
    → a ≢ b
    → count c (replace a b xs)
      ≡ (if c == a then 0 else if c == b then count b xs + count a xs else count c xs)
count-replace a b c [] h = ground arith
count-replace a b c (x ∷ xs) h = ground (arith, count-replace a b c xs h)

pub count-append :
    (node : ℕ) (front back : List ℕ)
    → count node (front ++ back) ≡ count node front + count node back
count-append node [] back = ground arith
count-append node (first ∷ rest) back = ground (arith, count-append node rest back)

-- The numbers that a callback got, in the order of the calls, where the list has the latest first.
abbrev pub reverse_onto : List ℕ → List ℕ → List ℕ
reverse_onto [] ys = ys
reverse_onto (x ∷ xs) ys = reverse_onto xs (x ∷ ys)
