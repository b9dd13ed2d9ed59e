-- ===== src/Samples/Walks.antt =====
-- A walk over a graph of three nodes: include/dg/analysis/NodesWalk.h.
use dg.Base.{ℕ, ◌≡◌, ◌<◌, true, List, [], ◌∷◌, ◌==◌, has_elem, if◌then◌else◌, arith}
use dg.Adt.Queue.{fifo}
use dg.Walk.{run}
use dg.Walk.Correct.{Finishes, run-Finishes}

-- 0 to 1 and 2, 1 to 0, and 2 to itself.
abbrev three_nodes : ℕ → List ℕ
three_nodes n = if n == 0 then 1 ∷ 2 ∷ [] else if n == 1 then 0 ∷ [] else 2 ∷ []

small_starts : (v : ℕ) → has_elem v (1 ∷ []) ≡ true → v < 3
small_starts v t = ground arith

small_successors : (u v : ℕ) → has_elem v (three_nodes u) ≡ true → v < 3
small_successors u v t = ground arith

run-Finishes_example :
    Finishes fifo three_nodes
      (1 ∷ [])
      3
      small_starts
      small_successors
      (run fifo three_nodes 4 (1 ∷ []))
run-Finishes_example =
    run-Finishes fifo three_nodes (1 ∷ []) 3 small_starts small_successors 4 (omega arith)
