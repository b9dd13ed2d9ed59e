-- ===== src/Samples/Expressions.antt =====
-- Control expressions and automata at concrete inputs.
use dg.Base.{ℕ, ◌≡◌, refl, true, some, List, [], ◌∷◌, ◌↔◌, has_elem, arith}
use dg.Control.{
  CeNode, label, seq, branch, loop, eps, nil, cons, Visits, simplify, compute_sets, seq_visits,
  branch_visits,
}
use dg.Control.Words.{Runs}
use dg.Control.Simplify
use dg.Control.Normal
use dg.Control.Normal.{IsSimple}
use dg.Control.Exact
use dg.Control.Exact.{HasSets}
use dg.Control.Describes.{With, Without}
use dg.Control.Cfa.{Cfa, add_successor, eliminate, eliminate_all, compute}
use dg.Control.Cfa.Edges.{Route, Edge}
use dg.Control.Cfa.Add
use dg.Control.Cfa.Add.{IsCfa}
use dg.Control.Cfa.Eliminate
use dg.Control.Cfa.Compute
use dg.Control.Cfa.Compute.{NoSelfLoops}

-- 1 (2 | 3 3), inside a sequence of one node
abbrev choice : CeNode
choice =
    seq (cons (label 1) (cons (branch (cons (label 2) (cons (seq (cons (label 3) nil)) nil))) nil))

Runs-simplify_example : Runs ⊥ (simplify choice) (1 ∷ 3 ∷ []) ↔ Runs ⊥ choice (1 ∷ 3 ∷ [])
Runs-simplify_example = Simplify.Runs-simplify ⊥ choice (1 ∷ 3 ∷ [])

simplify-IsSimple_example :
    IsSimple (simplify choice) × (simplify (simplify choice) ≡ simplify choice)
simplify-IsSimple_example = Normal.simplify-IsSimple choice

abbrev choice_visits : Visits
choice_visits = record { always = 1 ∷ []; sometimes = 2 ∷ 3 ∷ [] }

compute_choice : compute_sets choice ≡ some choice_visits
unfolding compute_sets seq_visits branch_visits
compute_choice = refl

-- The edges 0 → 2 → 3 → 4 → 1, where 3 has an edge to itself.
abbrev empty_cfa : Cfa
empty_cfa = record { successors = λ n. []; predecessors = λ n. [] }

abbrev line : Cfa
line =
    add_successor 4 (1, eps)
      (add_successor 3 (4, label 4)
        (add_successor 3 (3, label 3)
          (add_successor 2 (3, label 3) (add_successor 0 (2, label 2) empty_cfa))))

compute_sets_lem_example :
    ((has_elem 1 choice_visits.always ≡ true)
      ↔ ((w : List ℕ) → Runs ⊥ choice w → has_elem 1 w ≡ true))
    × ((has_elem 1 choice_visits.sometimes ≡ true)
        ↔ (With (Runs ⊥ choice) 1 × Without (Runs ⊥ choice) 1))
compute_sets_lem_example = Exact.compute_sets_lem choice choice_visits compute_choice 1

compute_sets_iff_example : ((v : Visits) × (compute_sets choice ≡ some v)) ↔ HasSets choice
compute_sets_iff_example = Exact.compute_sets_iff choice

empty_cfa-IsCfa : IsCfa empty_cfa
empty_cfa-IsCfa = record { distinct = λ a. tt; known = λ a c h. cc }

line-IsCfa : IsCfa line
line-IsCfa = Add.add_successor-IsCfa 4 1 eps _ (
    Add.add_successor-IsCfa 3 4 (label 4) _ (
      Add.add_successor-IsCfa 3 3 (label 3) _ (
        Add.add_successor-IsCfa 2 3 (label 3) _
          (Add.add_successor-IsCfa 0 2 (label 2) empty_cfa empty_cfa-IsCfa))))

eliminate_lem_example :
    IsCfa (eliminate 3 line)
    × (Route (Edge line) 4 2 (3 ∷ 3 ∷ 4 ∷ [])
        ↔ Route (Edge (eliminate 3 line)) 4 2 (3 ∷ 3 ∷ 4 ∷ []))
eliminate_lem_example =
    Eliminate.eliminate_lem 3 line 2 4 (3 ∷ 3 ∷ 4 ∷ []) line-IsCfa (omega arith) (omega arith)

line_loops : NoSelfLoops (2 ∷ 3 ∷ 4 ∷ []) (eliminate_all (2 ∷ 3 ∷ 4 ∷ []) line)
unfolding NoSelfLoops eliminate_all add_successor
line_loops n h = ground arith

-- The label that the elimination leaves on the edge from the root to the end.
abbrev line_label : CeNode
line_label = seq (
    cons
      (seq (
        cons (seq (cons (label 2) (cons (label 3) nil)))
          (cons (loop (cons (label 3) nil)) (cons (label 4) nil))))
      (cons eps nil))

line_only : (eliminate_all (2 ∷ 3 ∷ 4 ∷ []) line).successors 0 ≡ (1, line_label) ∷ []
unfolding eliminate_all add_successor
line_only = refl

line_last : line.successors 1 ≡ []
unfolding add_successor
line_last = refl

compute_lem_example :
    (e : CeNode) × (compute 0 1 (2 ∷ 3 ∷ 4 ∷ []) line ≡ some e)
    × (Runs (Unit {0}) e (2 ∷ 3 ∷ 4 ∷ []) ↔ Route (Edge line) 1 0 (2 ∷ 3 ∷ 4 ∷ []))
compute_lem_example =
    Compute.compute_lem 0 1 (2 ∷ 3 ∷ 4 ∷ []) line line_label (2 ∷ 3 ∷ 4 ∷ []) line-IsCfa
      (omega arith) refl refl line_last line_loops line_only
