-- ===== src/Samples/Flows.antt =====
-- The analysis of reaching definitions at concrete inputs.
use dg.Base.{
  ℕ, ◌<◌, has_elem, arith, Bool-cases, inr, ◌≡◌, ◌≢◌, refl, true, false, [], ◌∷◌, ◌==◌,
  if◌then◌else◌, ◌||◌, ◌&&◌, some, inl,
}
use dg.Offset.{unknown}
use dg.Subgraph.{Subgraph}
use dg.Subgraph.Edges.{Mirrors}
use dg.RdMap.{
  DefSite, NodesSet, nodes_at, skip, strong_update, judge, overwrites_whole, site_eq,
  unknown_memory,
}
use dg.RdMap.Nodes.{knows}
use dg.Reaching.{State, Analysis, add_def, has_site, is_overwritten, process_node, run}
use dg.Reaching.Growth.{IsState}
use dg.Reaching.Run
use dg.Reaching.Nodes
use dg.Reaching.Process

-- The nodes 1, 2 and 3, where control flows from 1 and from 2 to 3.
abbrev join : Subgraph
join = record {
  successors = λ n. if n == 3 then [] else 3 ∷ [];
  predecessors = λ n. if n == 3 then 1 ∷ 2 ∷ [] else [];
  operands = λ n. [];
  users = λ n. [];
}

abbrev analysis : Analysis
analysis = record {
  graph = join;
  info = record { size = λ n. 8; is_dyn_alloc = λ n. false };
  strong_update_unknown = false;
  max_set_size = unknown;
}

abbrev low_half : DefSite
low_half = record { target = 7; offset = 0; len = 4 }

abbrev high_half : DefSite
high_half = record { target = 7; offset = 4; len = 4 }

abbrev by_two : NodesSet
by_two = record { nodes = 2 ∷ []; is_unknown_set = false }

-- Node 2 writes the upper half of the memory 7, and node 3 overwrites the lower half.
abbrev writes : State
writes n = record {
  defs = [];
  overwritten = if n == 3 then low_half ∷ [] else [];
  uses = [];
  def_map = if n == 2 then (high_half, by_two) ∷ [] else [];
}

left_in : strong_update analysis.info (some (writes 3).overwritten) false high_half ≢ skip
unfolding strong_update judge overwrites_whole
left_in = λ e. cc

process_node_new_example :
    knows (nodes_at high_half ((process_node analysis 3 writes).0 3).def_map) 2 ≡ true
process_node_new_example =
    Process.process_node_new analysis 3 2 2 high_half by_two writes refl refl (inl refl) left_in
      refl

add_def_lem_example :
    (knows (nodes_at high_half (add_def 2 low_half true (writes 2)).def_map) 2 ≡ (
      if site_eq low_half high_half
      then 2 == 2 || 2 == unknown_memory
      else knows (nodes_at high_half (writes 2).def_map) 2))
    × (has_site high_half (add_def 2 low_half true (writes 2)).defs
        ≡ (site_eq low_half high_half || has_site high_half (writes 2).defs))
    × (is_overwritten high_half (add_def 2 low_half true (writes 2))
        ≡ (true && site_eq low_half high_half || is_overwritten high_half (writes 2)))
add_def_lem_example = Nodes.add_def_lem 2 2 low_half high_half true (writes 2)

-- The nodes 1, 2 and 3, where control flows from 1 to 2, and between 2 and 3 both ways.
abbrev cycle : Analysis
cycle = record analysis {
  graph = record {
    successors =
        λ n. if n == 1 then 2 ∷ [] else if n == 2 then 3 ∷ [] else if n == 3 then 2 ∷ [] else [];
    predecessors = λ n. if n == 2 then 1 ∷ 3 ∷ [] else if n == 3 then 2 ∷ [] else [];
    operands = λ n. [];
    users = λ n. [];
  };
}

cycle-Mirrors : Mirrors cycle.graph
cycle-Mirrors a b = ground arith

cycle_small : (u v : ℕ) → has_elem v (cycle.graph.successors u) ≡ true → v < 4
cycle_small u v t = ground arith

abbrev by_one : NodesSet
by_one = record { nodes = 1 ∷ []; is_unknown_set = false }

-- Node 1 writes the upper half of the memory 7.
abbrev first_writes : State
first_writes n = record {
  defs = [];
  overwritten = [];
  uses = [];
  def_map = if n == 1 then (high_half, by_one) ∷ [] else [];
}

first_writes-IsState : IsState cycle 4 4 (omega arith) (high_half ∷ []) first_writes
first_writes-IsState k = elim (Bool-cases (k == 1)) [
  | inl e ↦ rw e ((refl, ((omega arith, tt), λ v t. ground arith), refl), tt)
  | inr e ↦ rw e tt
]

run-Solved_example :
    (st : State) × (run cycle 8 21 1 first_writes ≡ some st)
    × Run.Solved cycle 4 8
        (omega arith)
        cycle_small
        4
        1
        (omega arith)
        (high_half ∷ [])
        (omega arith)
        cycle-Mirrors
        first_writes
        st
run-Solved_example =
    Run.run-Solved cycle 4 8 (omega arith) cycle_small 4 1 (omega arith) (high_half ∷ [])
      (omega arith) cycle-Mirrors 21 first_writes first_writes-IsState (omega arith)
