-- ===== src/Control/Cfa/Merge.antt =====
-- CFA.h: the loop of `addSuccessor` over the edges of a node.
use dg.Base.{
  ℕ, ◌≡◌, refl, sym, ◌∙◌, subst, true, false, ◌||◌, List, [], ◌∷◌, ◌++◌, ◌==◌, ◌⊎◌, inl, inr, ◌↔◌,
  Bool-cases, arith,
}
use dg.Control.{CeNode, branch, CeNodes, nil, cons, append}
use dg.Control.Words.{Runs, RunsAny}
use dg.Control.Cfa.{has_target, add_branch, merge_edge}
use dg.Control.Cfa.Edges.{Word, EdgeWord, Distinct}

RunsAny-snoc :
    (cs : CeNodes) (c : CeNode) (w : List ℕ)
    → RunsAny (Unit {0}) (append cs (cons c nil)) w ↔ (RunsAny (Unit {0}) cs w ⊎ Word c w)
unfolding Runs
RunsAny-snoc nil c w = (
  λ r. elim r [ inl x ↦ inr x | inr x ↦ absurd x ],
  λ r. elim r [ inl x ↦ absurd x | inr x ↦ inl x ],
)
RunsAny-snoc (cons d cs) c w = (
  λ r. elim r [
    | inl x ↦ inl (inl x)
    | inr x ↦ elim ((RunsAny-snoc cs c w).0 x) [ inl y ↦ inl (inr y) | inr y ↦ inr y ]
  ],
  λ r. elim r [
    | inl x ↦ elim x [ inl y ↦ inl y | inr y ↦ inr ((RunsAny-snoc cs c w).1 (inl y)) ]
    | inr x ↦ inr ((RunsAny-snoc cs c w).1 (inr x))
  ],
)

Word-add_branch :
    (old new : CeNode) (w : List ℕ) → Word (add_branch old new) w ↔ (Word old w ⊎ Word new w)
unfolding Runs add_branch
Word-add_branch (branch cs) new w = RunsAny-snoc cs new w
Word-add_branch old new w = (
  λ r. elim r [ inl x ↦ inl x | inr x ↦ elim x [ inl y ↦ inr y | inr y ↦ absurd y ] ],
  λ r. elim r [ inl x ↦ inl x | inr x ↦ inr (inl x) ],
)

pub EdgeWord-merge_edge :
    (c : ℕ) (new : CeNode) (es : List (ℕ × CeNode)) (d : ℕ) (w : List ℕ)
    → has_target c es ≡ true
    → EdgeWord (merge_edge c new es) d w ↔ (EdgeWord es d w ⊎ ((c ≡ d) × Word new w))
unfolding EdgeWord merge_edge
EdgeWord-merge_edge c new [] d w h = cc
EdgeWord-merge_edge c new ((t, l) ∷ es) d w h = elim (Bool-cases (t == c)) [
  | inl e ↦
      let z : t ≡ c = ground arith in
      rw e (
        λ r. elim r [
          | inl (x, y) ↦ elim ((Word-add_branch l new w).0 y) [
            | inl p ↦ inl (inl (x, p))
            | inr p ↦ inr (sym z ∙ x, p)
          ]
          | inr x ↦ inl (inr x)
        ],
        λ r. elim r [
          | inl x ↦ elim x [
            | inl (p, q) ↦ inl (p, (Word-add_branch l new w).1 (inl q))
            | inr p ↦ inr p
          ]
          | inr (p, q) ↦ inl (z ∙ p, (Word-add_branch l new w).1 (inr q))
        ],
      )
  | inr e ↦
      let rest = EdgeWord-merge_edge c new es d w (ground arith) in
      rw e (
        λ r. elim r [
          | inl x ↦ inl (inl x)
          | inr x ↦ elim (rest.0 x) [ inl y ↦ inl (inr y) | inr y ↦ inr y ]
        ],
        λ r. elim r [
          | inl x ↦ elim x [ inl y ↦ inl y | inr y ↦ inr (rest.1 (inl y)) ]
          | inr x ↦ inr (rest.1 (inr x))
        ],
      )
]

pub has_target-merge_edge :
    (c d : ℕ) (new : CeNode) (es : List (ℕ × CeNode))
    → has_target d (merge_edge c new es) ≡ has_target d es
unfolding merge_edge
has_target-merge_edge c d new [] = refl
has_target-merge_edge c d new ((t, l) ∷ es) = ground (arith, has_target-merge_edge c d new es)

pub merge_edge-Distinct :
    (c : ℕ) (new : CeNode) (es : List (ℕ × CeNode)) → Distinct es → Distinct (merge_edge c new es)
unfolding merge_edge
merge_edge-Distinct c new [] d = tt
merge_edge-Distinct c new ((t, l) ∷ es) (h, d) = elim (Bool-cases (t == c)) [
  | inl e ↦ rw e (h, d)
  | inr e ↦ rw e (has_target-merge_edge c t new es ∙ h, merge_edge-Distinct c new es d)
]

pub has_target-snoc :
    (c d : ℕ) (l : CeNode) (es : List (ℕ × CeNode))
    → has_target d (es ++ (c, l) ∷ []) ≡ (has_target d es || c == d)
has_target-snoc c d l [] = ground arith
has_target-snoc c d l ((t, m) ∷ es) = ground (arith, has_target-snoc c d l es)

pub snoc-Distinct :
    (c : ℕ) (l : CeNode) (es : List (ℕ × CeNode))
    → has_target c es ≡ false
    → Distinct es
    → Distinct (es ++ (c, l) ∷ [])
snoc-Distinct c l [] h d = (refl, tt)
snoc-Distinct c l ((t, m) ∷ es) h (e, d) =
    (ground (arith, has_target-snoc c t l es), snoc-Distinct c l es (ground arith) d)

pub or_same :
    (c d : ℕ) (es : List (ℕ × CeNode))
    → has_target c es ≡ true
    → has_target d es ≡ (has_target d es || c == d)
or_same c d es h = elim (Bool-cases (c == d)) [
  | inl e ↦
      let z : c ≡ d = ground arith in
      let there : has_target d es ≡ true = subst (λ j. has_target j es ≡ true) z h in ground arith
  | inr e ↦ ground arith
]
