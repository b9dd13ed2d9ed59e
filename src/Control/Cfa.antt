-- ===== src/Control/Cfa.antt =====
-- include/dg/analysis/ControlExpression/CFA.h: automata whose edges are labelled by control
-- expressions, and the elimination of their nodes. Nodes are numbers.
pub mod Edges
pub mod Merge
pub mod Add
pub mod Thru
pub mod Kleene
pub mod Self
pub mod Reroute
pub mod Eliminate
pub mod Compute
use dg.Base.{
  ℕ, Bool, true, false, ◌||◌, ◌&&◌, Option, none, some, List, [], ◌∷◌, ◌++◌, ◌==◌, if◌then◌else◌,
  length, without, has_elem,
}
use dg.Base.Sets.{insert}
use dg.Control.{CeNode, label, seq, branch, loop, eps, CeNodes, nil, cons, append, simplify}

-- The lists `successors` and the sets `predecessors` of all nodes.
pub record Cfa : Type 0 where
  pub successors : ℕ → List (ℕ × CeNode)
  pub predecessors : ℕ → List ℕ

abbrev pub put {ℓ} : {V : Type ℓ} → ℕ → V → (ℕ → V) → ℕ → V
put n v f k = if n == k then v else f k

-- There is an edge to the node.
abbrev pub has_target : ℕ → List (ℕ × CeNode) → Bool
has_target c [] = false
has_target c ((t, l) ∷ es) = t == c || has_target c es

-- The label of an edge that gets another branch.
unfoldable pub add_branch : CeNode → CeNode → CeNode
add_branch (branch cs) new = branch (append cs (cons new nil))
add_branch old new = branch (cons old (cons new nil))

-- The loop of `addSuccessor`, where it finds an edge to the same node.
unfoldable pub merge_edge : ℕ → CeNode → List (ℕ × CeNode) → List (ℕ × CeNode)
unfolding add_branch
merge_edge c new [] = []
merge_edge c new ((t, l) ∷ es) =
    let rest = merge_edge c new es in if t == c then (t, add_branch l new) ∷ es else (t, l) ∷ rest

-- `addSuccessor(EdgeT)` of the node `n`
unfoldable pub add_successor : ℕ → ℕ × CeNode → Cfa → Cfa
unfolding merge_edge
add_successor n (c, l) g =
    if has_target c (g.successors n)
    then record g { successors = put n (merge_edge c l (g.successors n)) g.successors }
    else record g {
      successors = put n (g.successors n ++ (c, l) ∷ []) g.successors;
      predecessors = put c (insert n (g.predecessors c)) g.predecessors;
    }

unfoldable pub add_successors : ℕ → List (ℕ × CeNode) → Cfa → Cfa
unfolding add_successor
add_successors n [] g = g
add_successors n (e ∷ es) g = add_successors n es (add_successor n e g)

-- `addSuccessor(CFANode *)`, where the label of a node is `name`
unfoldable pub add_node_successor : (ℕ → ℕ) → ℕ → ℕ → Cfa → Cfa
add_node_successor name n c g = add_successor n (c, label (name c)) g

-- `getSelfLoopLabel`
unfoldable pub self_loop_label : ℕ → List (ℕ × CeNode) → Option CeNode
self_loop_label n [] = none
self_loop_label n ((t, l) ∷ es) = let rest = self_loop_label n es in if t == n then some l else rest

-- The rest of a new label: the self-loop, if there is any, and the label of the successor edge.
abbrev pub loop_then : Option CeNode → CeNode → CeNodes
loop_then none l = cons l nil
loop_then (some s) l = cons (loop (cons s nil)) (cons l nil)

-- The inner loop of `eliminate` over the successors, for one edge to the node.
unfoldable pub through : ℕ → Option CeNode → CeNode → List (ℕ × CeNode) → List (ℕ × CeNode)
through n self l [] = []
through n self l ((t, m) ∷ outs) =
    let rest = through n self l outs in
    if t == n then rest else (t, seq (cons l (loop_then self m))) ∷ rest

-- The loop of `eliminate` over the edges of a predecessor: the new edges, and those that stay.
unfoldable pub new_edges :
    ℕ → Option CeNode → List (ℕ × CeNode) → List (ℕ × CeNode) → List (ℕ × CeNode)
unfolding through
new_edges n self outs [] = []
new_edges n self outs ((t, l) ∷ es) =
    let rest = new_edges n self outs es in if t == n then through n self l outs ++ rest else rest

unfoldable pub kept_edges : ℕ → List (ℕ × CeNode) → List (ℕ × CeNode)
kept_edges n [] = []
kept_edges n ((t, l) ∷ es) = let rest = kept_edges n es in if t == n then rest else (t, l) ∷ rest

-- A round of the loop of `eliminate` over the predecessors.
unfoldable pub reroute : ℕ → Option CeNode → List (ℕ × CeNode) → ℕ → Cfa → Cfa
unfolding new_edges kept_edges add_successors
reroute n self outs pred g =
    if pred == n
    then g
    else add_successors pred (new_edges n self outs (g.successors pred))
        (record g { successors = put pred (kept_edges n (g.successors pred)) g.successors })

unfoldable pub reroute_all : ℕ → Option CeNode → List (ℕ × CeNode) → List ℕ → Cfa → Cfa
unfolding reroute
reroute_all n self outs [] g = g
reroute_all n self outs (p ∷ ps) g = reroute_all n self outs ps (reroute n self outs p g)

-- The loop that erases the node from the predecessors of its successors.
unfoldable pub forget : ℕ → List (ℕ × CeNode) → Cfa → Cfa
forget n [] g = g
forget n ((t, l) ∷ es) g =
    forget n es (record g { predecessors = put t (without n (g.predecessors t)) g.predecessors })

-- The only edge of the node goes to itself.
abbrev pub only_self_loop : ℕ → List (ℕ × CeNode) → Bool
only_self_loop n ((t, l) ∷ []) = t == n
only_self_loop n es = false

abbrev pub is_empty {ℓ} : {A : Type ℓ} → List A → Bool
is_empty [] = true
is_empty (x ∷ xs) = false

-- `eliminate`
unfoldable pub eliminate : ℕ → Cfa → Cfa
unfolding reroute_all forget self_loop_label
eliminate n g =
    let outs = g.successors n in
    if is_empty outs || is_empty (g.predecessors n) || only_self_loop n outs
    then g
    else (let g' =
          forget n outs (reroute_all n (self_loop_label n outs) outs (g.predecessors n) g) in
        record { successors = put n [] g'.successors; predecessors = put n [] g'.predecessors })

-- The first loop of `compute`.
unfoldable pub eliminate_all : List ℕ → Cfa → Cfa
unfolding eliminate
eliminate_all [] g = g
eliminate_all (n ∷ ns) g = eliminate_all ns (eliminate n g)

-- `addNode`, where `root` and `end` are the nodes of the automaton itself
unfoldable pub add_node : (ℕ → ℕ) → ℕ → ℕ → ℕ → Cfa → Cfa
unfolding add_node_successor
add_node name root end n g =
    let g' = if is_empty (g.predecessors n) then add_node_successor name root n g else g in
    if is_empty (g'.successors n) then add_successor n (end, eps) g' else g'

-- The second loop of `compute`, for the nodes that are left with an edge to themselves.
unfoldable pub end_loops : ℕ → List ℕ → Cfa → Cfa
unfolding eliminate add_successor
end_loops end [] g = g
end_loops end (n ∷ ns) g =
    end_loops end ns
      (if has_elem n (g.predecessors n) then eliminate n (add_successor n (end, eps) g) else g)

-- The only edge of the root gives the expression; `none` is an assertion that fails.
unfoldable pub root_expression : List (ℕ × CeNode) → Option CeNode
root_expression ((t, l) ∷ []) = some (simplify l)
root_expression es = none

-- `compute`
unfoldable pub compute : ℕ → ℕ → List ℕ → Cfa → Option CeNode
unfolding eliminate_all end_loops root_expression
compute root end nodes g =
    if is_empty (g.successors root)
    then none
    else root_expression ((end_loops end nodes (eliminate_all nodes g)).successors root)
