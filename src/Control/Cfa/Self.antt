-- ===== src/Control/Cfa/Self.antt =====
-- CFA.h: `getSelfLoopLabel` and the words of the self-loop.
use dg.Base.{ℕ, ◌≡◌, Option, none, some, List, [], ◌∷◌, ◌==◌, ◌≢◌, inl, inr, ◌↔◌, Bool-cases, arith}
use dg.Control.{CeNode, cons, nil}
use dg.Control.Words.{Runs, RunsAll, Repeats, skip, once, again}
use dg.Control.Simplify.{Agree, RunsAll-single, Repeats-Agree}
use dg.Control.Cfa.{self_loop_label}
use dg.Control.Cfa.Edges.{Word, EdgeWord, EdgeWord-has_target, Distinct}
use dg.Control.Cfa.Thru.{LoopWord}

-- The label is that of the only self-loop, or there is none.
SelfLabel : ℕ → List (ℕ × CeNode) → Option CeNode → Type 0
SelfLabel n outs none = (w : List ℕ) → ¬ EdgeWord outs n w
SelfLabel n outs (some s) = (w : List ℕ) → Word s w ↔ EdgeWord outs n w

other_edge :
    (n t : ℕ) (l : CeNode) (outs : List (ℕ × CeNode))
    → t ≢ n
    → (o : Option CeNode) → SelfLabel n outs o
    → SelfLabel n ((t, l) ∷ outs) o
unfolding SelfLabel EdgeWord
other_edge n t l outs h none s = λ w r. elim r [ inl (z, p) ↦ h z | inr q ↦ s w q ]
other_edge n t l outs h (some x) s =
    λ w. (λ r. inr ((s w).0 r), λ r. elim r [ inl (z, p) ↦ absurd (h z) | inr q ↦ (s w).1 q ])

self_loop_label-SelfLabel :
    (n : ℕ) (outs : List (ℕ × CeNode)) → Distinct outs → SelfLabel n outs (self_loop_label n outs)
unfolding SelfLabel EdgeWord self_loop_label
self_loop_label-SelfLabel n [] d = λ w r. r
self_loop_label-SelfLabel n ((t, l) ∷ outs) (h, d) = elim (Bool-cases (t == n)) [
  | inl e ↦
      let z : t ≡ n = ground arith in
      rw e (λ w. (
        λ r. inl (z, r),
        λ r. elim r [ inl (k, s) ↦ s | inr s ↦ cc (EdgeWord-has_target outs n w s, h, z) ],
      ))
  | inr e ↦ rw e (
      other_edge n t l outs (ground arith) (self_loop_label n outs)
        (self_loop_label-SelfLabel n outs d))
]

no_rounds :
    (P : List ℕ → Type 0) → ((w : List ℕ) → ¬ P w) → (y : List ℕ) → Repeats (Unit {0}) P y → y ≡ []
no_rounds P n y (skip s e) = e
no_rounds P n y (once p) = absurd (n y p)
no_rounds P n y (again u v e p r) = absurd (n u p)

-- The words of the loop that `eliminate` puts into the new labels are the rounds of the self-loop.
pub LoopWord-iff :
    (n : ℕ) (outs : List (ℕ × CeNode)) (y : List ℕ)
    → Distinct outs
    → LoopWord (self_loop_label n outs) y ↔ Repeats (Unit {0}) (EdgeWord outs n) y
unfolding SelfLabel Runs
LoopWord-iff n outs y d = go (self_loop_label n outs) (self_loop_label-SelfLabel n outs d)
  where
    go :
        (o : Option CeNode)
        → SelfLabel n outs o
        → LoopWord o y ↔ Repeats (Unit {0}) (EdgeWord outs n) y
    go none s = (λ e. skip tt e, no_rounds (EdgeWord outs n) s y)
    go (some x) s =
        let same : Agree (Unit {0}) (RunsAll (Unit {0}) (cons x nil)) (EdgeWord outs n) = λ w. (
          λ r. (s w).0 ((RunsAll-single (Unit {0}) x w).0 r),
          λ r. (RunsAll-single (Unit {0}) x w).1 ((s w).1 r),
        ) in
        (
          Repeats-Agree (Unit {0}) (RunsAll (Unit {0}) (cons x nil)) (EdgeWord outs n) same y,
          Repeats-Agree (Unit {0}) (EdgeWord outs n) (RunsAll (Unit {0}) (cons x nil))
              (λ w. ((same w).1, (same w).0)) y,
        )
