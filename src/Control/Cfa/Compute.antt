-- ===== src/Control/Cfa/Compute.antt =====
-- CFA.h: `compute`, the expression of an automaton.
use mathlib.Core.List.{append-nil}
use dg.Base.{
  ℕ, ◌≡◌, ◌≢◌, refl, sym, ◌∙◌, ap, subst, true, false, ◌||◌, some, List, [], ◌∷◌, ◌++◌, ◌==◌, ◌⊎◌,
  inl, inr, ◌↔◌, Bool-cases, has_elem, arith,
}
use dg.Control.{CeNode, simplify}
use dg.Control.Words.{Runs}
use dg.Control.Simplify.{Runs-simplify}
use dg.Control.Cfa.{
  Cfa, is_empty, only_self_loop, self_loop_label, reroute_all, eliminate, eliminate_all, end_loops,
  compute,
}
use dg.Control.Cfa.Edges.{Word, EdgeWord, Edge, Route, done, step}
use dg.Control.Cfa.Add.{IsCfa}
use dg.Control.Cfa.Reroute.{reroute_all_empty}
use dg.Control.Cfa.Eliminate.{successors-forget, eliminate_all_lem}

eliminate_empty :
    (n : ℕ) (g : Cfa) (a : ℕ) → g.successors a ≡ [] → (eliminate n g).successors a ≡ []
unfolding eliminate
eliminate_empty n g a h =
    let outs = g.successors n in
    elim (Bool-cases (is_empty outs || is_empty (g.predecessors n) || only_self_loop n outs)) [
      | inl e ↦ rw e h
      | inr e ↦ rw e (elim (Bool-cases (n == a)) [
        | inl t ↦ rw t refl
        | inr t ↦
            let g' = reroute_all n (self_loop_label n outs) outs (g.predecessors n) g in
            rw t (
              successors-forget n outs g' a
              ∙ reroute_all_empty n (self_loop_label n outs) outs (g.predecessors n) g a h)
      ])
    ]

eliminate_all_empty :
    (ns : List ℕ) (g : Cfa) (a : ℕ) → g.successors a ≡ [] → (eliminate_all ns g).successors a ≡ []
unfolding eliminate_all
eliminate_all_empty [] g a h = h
eliminate_all_empty (n ∷ ns) g a h =
    eliminate_all_empty ns (eliminate n g) a (eliminate_empty n g a h)

-- None of the nodes is its own predecessor.
unfoldable pub NoSelfLoops : List ℕ → Cfa → Type 0
NoSelfLoops ns g = (n : ℕ) → has_elem n ns ≡ true → has_elem n (g.predecessors n) ≡ false

end_loops_none : (end : ℕ) (ns : List ℕ) (g : Cfa) → NoSelfLoops ns g → end_loops end ns g ≡ g
unfolding end_loops NoSelfLoops
end_loops_none end [] g h = refl
end_loops_none end (n ∷ ns) g h =
    rw (h n (ground arith)) (end_loops_none end ns g λ m t. h m (ground arith))

module _ (root end : ℕ) (apart : root ≢ end) (l : CeNode) (g : Cfa) (last : g.successors end ≡ [])
    (only : g.successors root ≡ (end, l) ∷ []) where
  nothing_behind : (c : ℕ) (v : List ℕ) → c ≡ end → Route (Edge g) end c v → v ≡ []
  unfolding EdgeWord
  nothing_behind c v z (done e k) = k
  nothing_behind c v z (step d u v' e edge rest) =
      absurd (subst (λ x. EdgeWord x d u) (ap g.successors z ∙ last) edge)

  last_words : (w : List ℕ) → Route (Edge g) end root w ↔ Word l w
  unfolding EdgeWord
  last_words w = (
    to,
    λ r.
        step end w [] (sym (append-nil w))
          (subst (λ x. EdgeWord x end w) (sym only) (inl (refl, r))) (done refl refl),
  )
    where
      to : Route (Edge g) end root w → Word l w
      to (done e k) = absurd (apart e)
      to (step c u v e edge rest) =
          let first : (end ≡ c) × Word l u ⊎ ⊥ = subst (λ x. EdgeWord x c u) only edge in
          elim first [
            | inl (z, r) ↦
                let empty = nothing_behind c v (sym z) rest in
                subst (Word l) (sym (e ∙ ap (λ k. u ++ k) empty ∙ append-nil u)) r
            | inr r ↦ absurd r
          ]

not_empty : (es : List (ℕ × CeNode)) → es ≢ [] → is_empty es ≡ false
not_empty [] h = absurd (h refl)
not_empty (e ∷ es) h = refl

-- Where the elimination of the nodes leaves no node with an edge to itself, and leaves the root one
-- edge, which goes to the end, `compute` returns an expression, and its words are those of the paths
-- of the automaton from the root to the end (loops may be skipped). The root and the end are not
-- among the nodes, the end has no successors, the edges from a node go to different nodes, and these
-- know of it.
pub compute_lem :
    (root end : ℕ) (nodes : List ℕ) (g : Cfa) (l : CeNode) (w : List ℕ)
    → IsCfa g
    → root ≢ end
    → has_elem root nodes ≡ false
    → has_elem end nodes ≡ false
    → g.successors end ≡ []
    → NoSelfLoops nodes (eliminate_all nodes g)
    → (eliminate_all nodes g).successors root ≡ (end, l) ∷ []
    → (e : CeNode) × (compute root end nodes g ≡ some e)
      × (Runs (Unit {0}) e w ↔ Route (Edge g) end root w)
unfolding compute
compute_lem root end nodes g l w i apart out out' last loops only =
    let g' = eliminate_all nodes g in
    let started : is_empty (g.successors root) ≡ false =
      not_empty (g.successors root) λ z. cc (eliminate_all_empty nodes g root z, only) in
    let (_, (to, from)) = eliminate_all_lem nodes g root end w i out out' in
    let (edge, path) =
      last_words root end apart l g' (eliminate_all_empty nodes g end last) only w in
    let (less, more) = Runs-simplify (Unit {0}) l w in
    (
      simplify l,
      rw (started, end_loops_none end nodes g' loops, only) refl,
      (λ r. from (path (less r)), λ p. more (edge (to p))),
    )
