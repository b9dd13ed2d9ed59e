-- ===== src/Control/Cfa/Add.antt =====
-- CFA.h: `addSuccessor`, the words of the edges after it and what it keeps of an automaton.
use dg.Base.{
  ℕ, ◌≡◌, refl, ◌∙◌, ap, subst, true, false, ◌||◌, List, [], ◌∷◌, ◌==◌, ◌⊎◌, inl, inr, ◌↔◌,
  Bool-cases, has_elem, arith, if◌then◌else◌,
}
use dg.Base.Sets.{has_elem-insert}
use dg.Control.{CeNode}
use dg.Control.Cfa.{Cfa, has_target, add_successor, add_successors}
use dg.Control.Cfa.Edges.{Word, EdgeWord, Edge, Distinct, EdgeWord-append}
use dg.Control.Cfa.Merge.{
  EdgeWord-merge_edge, has_target-merge_edge, merge_edge-Distinct, has_target-snoc, snoc-Distinct,
  or_same,
}

-- The edges of a node go to different nodes, which know of it.
pub record IsCfa (g : Cfa) : Type 0 where
  pub distinct : (a : ℕ) → Distinct (g.successors a)
  pub known :
      (a c : ℕ) → has_target c (g.successors a) ≡ true → has_elem a (g.predecessors c) ≡ true

module _ (n c : ℕ) (l : CeNode) (g : Cfa) where
  has_target-add_successor :
      (a d : ℕ)
      → has_target d ((add_successor n (c, l) g).successors a)
        ≡ (has_target d (g.successors a) || (if n == a then c == d else false))
  unfolding add_successor
  has_target-add_successor a d =
      let same = λ (z : n ≡ a). ap (λ j. has_target d (g.successors j) || c == d) z in
      elim (Bool-cases (n == a)) [
        | inl e ↦
            let z : n ≡ a = ground arith in
            elim (Bool-cases (has_target c (g.successors n))) [
              | inl old ↦
                  rw (old, e)
                    (has_target-merge_edge c d l (g.successors n)
                      ∙ or_same c d (g.successors n) old
                      ∙ same z)
              | inr new ↦ rw (new, e) (has_target-snoc c d l (g.successors n) ∙ same z)
            ]
        | inr e ↦ elim (Bool-cases (has_target c (g.successors n))) [
          | inl old ↦ rw (old, e) (ground arith)
          | inr new ↦ rw (new, e) (ground arith)
        ]
      ]

  add_successor-Distinct :
      (a : ℕ)
      → Distinct (g.successors a)
      → Distinct (g.successors n)
      → Distinct ((add_successor n (c, l) g).successors a)
  unfolding add_successor
  add_successor-Distinct a d d' = elim (Bool-cases (has_target c (g.successors n))) [
    | inl old ↦ elim (Bool-cases (n == a)) [
      | inl e ↦ rw (old, e) (merge_edge-Distinct c l (g.successors n) d')
      | inr e ↦ rw (old, e) d
    ]
    | inr new ↦ elim (Bool-cases (n == a)) [
      | inl e ↦ rw (new, e) (snoc-Distinct c l (g.successors n) new d')
      | inr e ↦ rw (new, e) d
    ]
  ]

  Edge-at_node :
      (d : ℕ) (w : List ℕ)
      → Edge (add_successor n (c, l) g) n d w ↔ (Edge g n d w ⊎ ((n ≡ n) × (c ≡ d) × Word l w))
  unfolding add_successor EdgeWord
  Edge-at_node d w =
      let self : (n == n) ≡ true = ground arith in
      elim (Bool-cases (has_target c (g.successors n))) [
        | inl old ↦
            let both = EdgeWord-merge_edge c l (g.successors n) d w old in
            rw (old, self)
              (
                λ r. elim (both.0 r) [ inl x ↦ inl x | inr (x, y) ↦ inr (refl, x, y) ],
                λ r. elim r [ inl x ↦ both.1 (inl x) | inr (z, x, y) ↦ both.1 (inr (x, y)) ],
              )
        | inr new ↦
            let both = EdgeWord-append (g.successors n) ((c, l) ∷ []) d w in
            rw (new, self)
              (
                λ r. elim (both.0 r) [
                  | inl x ↦ inl x
                  | inr x ↦ elim x [ inl (y, v) ↦ inr (refl, y, v) | inr y ↦ absurd y ]
                ],
                λ r. elim r [ inl x ↦ both.1 (inl x) | inr (z, x, y) ↦ both.1 (inr (inl (x, y))) ],
              )
      ]

  -- The edges behind `addSuccessor` have the words that they had, and those of the new edge.
  pub Edge-add_successor :
      (a d : ℕ) (w : List ℕ)
      → Edge (add_successor n (c, l) g) a d w ↔ (Edge g a d w ⊎ ((n ≡ a) × (c ≡ d) × Word l w))
  unfolding add_successor
  Edge-add_successor a d w = elim (Bool-cases (n == a)) [
    | inl e ↦
        let z : n ≡ a = ground arith in
        subst
          (λ j.
            Edge (add_successor n (c, l) g) j d w ↔ (Edge g j d w ⊎ ((n ≡ j) × (c ≡ d) × Word l w)))
          z (Edge-at_node d w)
    | inr e ↦
        let other : ¬ (n ≡ a) = λ z. ground arith in
        elim (Bool-cases (has_target c (g.successors n))) [
          | inl old ↦
              rw (old, e) (λ r. inl r, λ r. elim r [ inl x ↦ x | inr (z, x, y) ↦ absurd (other z) ])
          | inr new ↦
              rw (new, e) (λ r. inl r, λ r. elim r [ inl x ↦ x | inr (z, x, y) ↦ absurd (other z) ])
        ]
  ]

  add_successor_known :
      (i : IsCfa g) (a d : ℕ)
      → (has_target d (g.successors a) || (if n == a then c == d else false)) ≡ true
      → has_elem a ((add_successor n (c, l) g).predecessors d) ≡ true
  unfolding add_successor
  add_successor_known i a d h = elim (Bool-cases (has_target c (g.successors n))) [
    | inl old ↦ elim (Bool-cases (has_target d (g.successors a))) [
      | inl t ↦ rw old (i.known a d t)
      | inr t ↦
          let z : n ≡ a = ground arith in
          let y : c ≡ d = ground arith in
          rw old (
            subst (λ k. has_elem k (g.predecessors d) ≡ true) z
              (subst (λ k. has_elem n (g.predecessors k) ≡ true) y (i.known n c old)))
    ]
    | inr new ↦ elim (Bool-cases (c == d)) [
      | inl e ↦
          let y : c ≡ d = ground arith in
          rw (new, e)
            (has_elem-insert n a (g.predecessors c)
              ∙ ground (arith, i.known a d, ap (λ k. has_elem a (g.predecessors k)) y))
      | inr e ↦ rw (new, e) (ground (arith, i.known a d))
    ]
  ]

  pub add_successor-IsCfa : IsCfa g → IsCfa (add_successor n (c, l) g)
  unfolding add_successor
  add_successor-IsCfa i = record {
    distinct = λ a. add_successor-Distinct a (i.distinct a) (i.distinct n);
    known = λ a d h. add_successor_known i a d (rw (has_target-add_successor a d) at h);
  }

successors-add_successor :
    (n c : ℕ) (l : CeNode) (g : Cfa) (a : ℕ)
    → (n == a) ≡ false
    → (add_successor n (c, l) g).successors a ≡ g.successors a
unfolding add_successor
successors-add_successor n c l g a h = elim (Bool-cases (has_target c (g.successors n))) [
  | inl old ↦ rw (old, h) refl
  | inr new ↦ rw (new, h) refl
]

pub Edge-add_successors :
    (n : ℕ) (es : List (ℕ × CeNode)) (g : Cfa) (a d : ℕ) (w : List ℕ)
    → Edge (add_successors n es g) a d w ↔ (Edge g a d w ⊎ ((n ≡ a) × EdgeWord es d w))
unfolding add_successors EdgeWord
Edge-add_successors n [] g a d w = (λ r. inl r, λ r. elim r [ inl x ↦ x | inr (z, x) ↦ absurd x ])
Edge-add_successors n ((c, l) ∷ es) g a d w =
    let later = Edge-add_successors n es (add_successor n (c, l) g) a d w in
    let first = Edge-add_successor n c l g a d w in
    (
      λ r. elim (later.0 r) [
        | inl x ↦ elim (first.0 x) [ inl y ↦ inl y | inr (z, y, v) ↦ inr (z, inl (y, v)) ]
        | inr (z, x) ↦ inr (z, inr x)
      ],
      λ r. elim r [
        | inl x ↦ later.1 (inl (first.1 (inl x)))
        | inr (z, x) ↦ elim x [
          | inl (y, v) ↦ later.1 (inl (first.1 (inr (z, y, v))))
          | inr y ↦ later.1 (inr (z, y))
        ]
      ],
    )

pub add_successors-IsCfa :
    (n : ℕ) (es : List (ℕ × CeNode)) (g : Cfa) → IsCfa g → IsCfa (add_successors n es g)
unfolding add_successors
add_successors-IsCfa n [] g i = i
add_successors-IsCfa n ((c, l) ∷ es) g i =
    add_successors-IsCfa n es (add_successor n (c, l) g) (add_successor-IsCfa n c l g i)

pub successors-add_successors :
    (n : ℕ) (es : List (ℕ × CeNode)) (g : Cfa) (a : ℕ)
    → (n == a) ≡ false
    → (add_successors n es g).successors a ≡ g.successors a
unfolding add_successors
successors-add_successors n [] g a h = refl
successors-add_successors n ((c, l) ∷ es) g a h =
    successors-add_successors n es (add_successor n (c, l) g) a h
    ∙ successors-add_successor n c l g a h

pub has_target-add_successors :
    (n : ℕ) (es : List (ℕ × CeNode)) (g : Cfa) (d : ℕ)
    → has_target d ((add_successors n es g).successors n)
      ≡ (has_target d (g.successors n) || has_target d es)
unfolding add_successors
has_target-add_successors n [] g d = ground arith
has_target-add_successors n ((c, l) ∷ es) g d =
    has_target-add_successors n es (add_successor n (c, l) g) d
    ∙ ground (arith, has_target-add_successor n c l g n d)
