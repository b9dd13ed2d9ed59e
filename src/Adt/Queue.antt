-- ===== src/Adt/Queue.antt =====
-- include/dg/ADT/Queue.h: what a walk asks of its queue, with `QueueFIFO` and `QueueLIFO`. The
-- queue is a list whose head is the element that `pop` takes.
use dg.Base.{
  ℕ, suc, ◌≡◌, refl, List, [], ◌∷◌, ◌++◌, ◌||◌, ◌==◌, has_elem, has_elem-append, length,
  length-append, arith,
}

pub record Queue : Type 0 where
  pub push : ℕ → List ℕ → List ℕ
  pub has_elem-push : (a w : ℕ) (xs : List ℕ) → has_elem w (push a xs) ≡ (a == w || has_elem w xs)
  pub length-push : (a : ℕ) (xs : List ℕ) → length (push a xs) ≡ suc (length xs)

-- `QueueFIFO::push`
abbrev pub push_back : ℕ → List ℕ → List ℕ
push_back a xs = xs ++ a ∷ []

-- `QueueLIFO::push`
abbrev pub push_front : ℕ → List ℕ → List ℕ
push_front a xs = a ∷ xs

pub has_elem-push_back :
    (a w : ℕ) (xs : List ℕ) → has_elem w (push_back a xs) ≡ (a == w || has_elem w xs)
has_elem-push_back a w xs = ground (arith, has_elem-append w xs (a ∷ []))

pub length-push_back : (a : ℕ) (xs : List ℕ) → length (push_back a xs) ≡ suc (length xs)
length-push_back a xs = omega (arith, length-append xs (a ∷ []))

abbrev pub fifo : Queue
fifo = record {
  push = push_back;
  has_elem-push = has_elem-push_back;
  length-push = length-push_back;
}

abbrev pub lifo : Queue
lifo = record { push = push_front; has_elem-push = λ a w xs. refl; length-push = λ a xs. refl }
