-- ===== src/Control/Labels.antt =====
-- CENode.h: which labels are in the sets that the loops of `computeSets` make.
use dg.Base.{
  ℕ, ◌≡◌, refl, ◌∙◌, Bool, true, false, not, ◌&&◌, ◌||◌, List, [], ◌∷◌, ◌==◌, has_elem, Bool-cases,
  inl, inr, arith,
}
use dg.Base.Sets.{insert, has_elem-insert}
use dg.Control.{
  Visits, intersection, difference, insert_visits, insert_others, union_visits, common_visits,
  other_visits,
}

same_elem : (x l : ℕ) (ys : List ℕ) → (x == l) ≡ true → has_elem x ys ≡ has_elem l ys
same_elem x l ys e = let z : x ≡ l = ground arith in rw z

has_elem-intersection :
    (l : ℕ) (xs ys : List ℕ) → has_elem l (intersection xs ys) ≡ (has_elem l xs && has_elem l ys)
unfolding intersection
has_elem-intersection l [] ys = refl
has_elem-intersection l (x ∷ xs) ys = elim (Bool-cases (x == l)) [
  | inl e ↦ ground (arith, has_elem-intersection l xs ys, same_elem x l ys e)
  | inr e ↦ ground (arith, has_elem-intersection l xs ys)
]

pub has_elem-difference :
    (l : ℕ) (xs ys : List ℕ)
    → has_elem l (difference xs ys) ≡ (has_elem l xs && not (has_elem l ys))
unfolding difference
has_elem-difference l [] ys = refl
has_elem-difference l (x ∷ xs) ys = elim (Bool-cases (x == l)) [
  | inl e ↦ ground (arith, has_elem-difference l xs ys, same_elem x l ys e)
  | inr e ↦ ground (arith, has_elem-difference l xs ys)
]

has_elem-insert_visits :
    (l : ℕ) (xs out : List ℕ)
    → has_elem l (insert_visits xs out) ≡ (has_elem l xs || has_elem l out)
unfolding insert_visits
has_elem-insert_visits l [] out = refl
has_elem-insert_visits l (x ∷ xs) out =
    ground (arith, has_elem-insert_visits l xs (insert x out), has_elem-insert x l out)

has_elem-insert_others :
    (l : ℕ) (always xs out : List ℕ)
    → has_elem l (insert_others always xs out)
      ≡ (has_elem l xs && not (has_elem l always) || has_elem l out)
unfolding insert_others
has_elem-insert_others l always [] out = refl
has_elem-insert_others l always (x ∷ xs) out = elim (Bool-cases (has_elem x always)) [
  | inl old ↦ elim (Bool-cases (x == l)) [
    | inl e ↦
        rw old (ground (arith, has_elem-insert_others l always xs out, same_elem x l always e))
    | inr e ↦ rw old (ground (arith, has_elem-insert_others l always xs out))
  ]
  | inr new ↦ elim (Bool-cases (x == l)) [
    | inl e ↦ rw new (
        ground (
          arith,
          has_elem-insert_others l always xs (insert x out),
          has_elem-insert x l out,
          same_elem x l always e,
        ))
    | inr e ↦
        rw new (
          ground
            (arith, has_elem-insert_others l always xs (insert x out), has_elem-insert x l out))
  ]
]

-- A label is in a set of some node, or in the first set of every node.
abbrev pub in_either : ℕ → Visits → Bool
in_either l v = has_elem l v.always || has_elem l v.sometimes

abbrev pub any_always : ℕ → List Visits → Bool
any_always l [] = false
any_always l (v ∷ vs) = has_elem l v.always || any_always l vs

abbrev pub all_always : ℕ → List Visits → Bool
all_always l [] = true
all_always l (v ∷ vs) = has_elem l v.always && all_always l vs

abbrev pub any_either : ℕ → List Visits → Bool
any_either l [] = false
any_either l (v ∷ vs) = in_either l v || any_either l vs

pub always-union_visits :
    (l : ℕ) (cs : List Visits) (v : Visits)
    → has_elem l (union_visits cs v).always ≡ (any_always l cs || has_elem l v.always)
unfolding union_visits
always-union_visits l [] v = refl
always-union_visits l (c ∷ cs) v =
    let always = insert_visits c.always v.always in
    always-union_visits l cs
      (record { always = always; sometimes = insert_others always c.sometimes v.sometimes })
    ∙ ground (arith, has_elem-insert_visits l c.always v.always)

pub either-union_visits :
    (l : ℕ) (cs : List Visits) (v : Visits)
    → in_either l (union_visits cs v) ≡ (any_either l cs || in_either l v)
unfolding union_visits
either-union_visits l [] v = refl
either-union_visits l (c ∷ cs) v =
    let always = insert_visits c.always v.always in
    either-union_visits l cs
      (record { always = always; sometimes = insert_others always c.sometimes v.sometimes })
    ∙ ground (
      arith,
      has_elem-insert_visits l c.always v.always,
      has_elem-insert_others l always c.sometimes v.sometimes,
    )

pub has_elem-common_visits :
    (l : ℕ) (cs : List Visits) (always : List ℕ)
    → has_elem l (common_visits cs always) ≡ (all_always l cs && has_elem l always)
unfolding common_visits
has_elem-common_visits l [] always = refl
has_elem-common_visits l (c ∷ cs) always =
    has_elem-common_visits l cs (intersection always c.always)
    ∙ ground (arith, has_elem-intersection l always c.always)

pub has_elem-other_visits :
    (l : ℕ) (always : List ℕ) (cs : List Visits) (out : List ℕ)
    → has_elem l (other_visits always cs out)
      ≡ (any_either l cs && not (has_elem l always) || has_elem l out)
unfolding other_visits
has_elem-other_visits l always [] out = refl
has_elem-other_visits l always (c ∷ cs) out =
    has_elem-other_visits l always cs
      (insert_others always c.sometimes (insert_others always c.always out))
    ∙ ground (
      arith,
      has_elem-insert_others l always c.sometimes (insert_others always c.always out),
      has_elem-insert_others l always c.always out,
    )
