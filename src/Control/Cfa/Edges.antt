-- ===== src/Control/Cfa/Edges.antt =====
-- CFA.h: the words of edges and of paths.
use dg.Base.{ℕ, ◌≡◌, true, false, List, [], ◌∷◌, ◌++◌, ◌⊎◌, inl, inr, ◌↔◌, arith}
use dg.Control.{CeNode}
use dg.Control.Words.{Runs}
use dg.Control.Cfa.{Cfa, has_target}

-- The words of an expression whose loops may be skipped.
abbrev pub Word : CeNode → List ℕ → Type 0
Word l w = Runs (Unit {0}) l w

-- The words of the edges to a node.
unfoldable pub EdgeWord : List (ℕ × CeNode) → ℕ → List ℕ → Type 0
EdgeWord [] c w = ⊥
EdgeWord ((t, l) ∷ es) c w = (t ≡ c) × Word l w ⊎ EdgeWord es c w

-- The words from a node to `b` along edges that have the words `E`.
pub data Route (E : ℕ → ℕ → List ℕ → Type 0) (b : ℕ) : ℕ → List ℕ → Type 0 where
  done : {a : ℕ} {w : List ℕ} → a ≡ b → w ≡ [] → Route E b a w
  step :
      {a : ℕ} {w : List ℕ} (c : ℕ) (u v : List ℕ)
      → w ≡ u ++ v
      → E a c u
      → Route E b c v
      → Route E b a w

-- The words of the edges of an automaton.
abbrev pub Edge : Cfa → ℕ → ℕ → List ℕ → Type 0
Edge g a c w = EdgeWord (g.successors a) c w

-- No two edges of a node go to the same node.
abbrev pub Distinct : List (ℕ × CeNode) → Type 0
Distinct [] = Unit
Distinct ((t, l) ∷ es) = (has_target t es ≡ false) × Distinct es

pub EdgeWord-has_target :
    (es : List (ℕ × CeNode)) (c : ℕ) (w : List ℕ) → EdgeWord es c w → has_target c es ≡ true
unfolding EdgeWord
EdgeWord-has_target [] c w e = absurd e
EdgeWord-has_target ((t, l) ∷ es) c w (inl (e, r)) = ground arith
EdgeWord-has_target ((t, l) ∷ es) c w (inr e) = ground (arith, EdgeWord-has_target es c w e)

pub EdgeWord-append :
    (es fs : List (ℕ × CeNode)) (c : ℕ) (w : List ℕ)
    → EdgeWord (es ++ fs) c w ↔ (EdgeWord es c w ⊎ EdgeWord fs c w)
unfolding EdgeWord
EdgeWord-append [] fs c w = (λ r. inr r, λ r. elim r [ inl x ↦ absurd x | inr x ↦ x ])
EdgeWord-append ((t, l) ∷ es) fs c w = (
  λ r. elim r [
    | inl x ↦ inl (inl x)
    | inr x ↦ elim ((EdgeWord-append es fs c w).0 x) [ inl y ↦ inl (inr y) | inr y ↦ inr y ]
  ],
  λ r. elim r [
    | inl x ↦ elim x [ inl y ↦ inl y | inr y ↦ inr ((EdgeWord-append es fs c w).1 (inl y)) ]
    | inr x ↦ inr ((EdgeWord-append es fs c w).1 (inr x))
  ],
)
