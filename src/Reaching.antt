-- ===== src/Reaching.antt =====
-- include/dg/analysis/ReachingDefinitions/ReachingDefinitions.h and
-- lib/analysis/ReachingDefinitions/ReachingDefinitions.cpp: the nodes of the graph with what they
-- define, overwrite and use, and the analysis that runs over their maps.
pub mod Nodes
pub mod Process
pub mod Growth
pub mod Rounds
pub mod Run
use dg.Base.{
  ℕ, zero, suc, Bool, true, false, Option, none, some, List, [], ◌∷◌, ◌&&◌, ◌||◌, ◌==◌,
  if◌then◌else◌, reverse_onto,
}
use dg.Offset.{Offset, is_unknown, in_range}
use dg.Adt.Queue.{fifo}
use dg.Walk
use dg.Subgraph.{Subgraph}
use dg.RdMap.{
  DefSite, site_eq, site_lt, RdMap, update, merge, MergeOptions, NodeInfo, unknown_memory, wrap_add,
}

-- `DefSiteSetT`: a `std::set`, as the list of its sites in their order.
unfoldable pub insert_site : DefSite → List DefSite → List DefSite
insert_site d [] = d ∷ []
insert_site d (c ∷ cs) =
    if site_lt d c then d ∷ c ∷ cs else if site_eq c d then c ∷ cs else c ∷ insert_site d cs

unfoldable pub has_site : DefSite → List DefSite → Bool
has_site d [] = false
has_site d (c ∷ cs) = site_eq c d || has_site d cs

-- The fields of `RDNode` that the analysis reads and writes.
pub record RdNode : Type 0 where
  pub defs : List DefSite
  pub overwritten : List DefSite
  pub uses : List DefSite
  pub def_map : RdMap

-- `addDef(const DefSite&, bool)` of the node with the number `this`
unfoldable pub add_def : ℕ → DefSite → Bool → RdNode → RdNode
add_def this d strong n = record n {
  defs = insert_site d n.defs;
  overwritten = if strong then insert_site d n.overwritten else n.overwritten;
  def_map = (update d this n.def_map).0;
}

-- `addDefs`
unfoldable pub add_defs : ℕ → List DefSite → RdNode → RdNode
add_defs this [] n = n
add_defs this (d ∷ ds) n = add_defs this ds (add_def this d false n)

-- `addOverwrites`
unfoldable pub add_overwrites : DefSite → RdNode → RdNode
add_overwrites d n = record n { overwritten = insert_site d n.overwritten }

-- `isOverwritten`
unfoldable pub is_overwritten : DefSite → RdNode → Bool
is_overwritten d n = has_site d n.overwritten

-- `addUse` and `addUses`
unfoldable pub add_use : DefSite → RdNode → RdNode
add_use d n = record n { uses = insert_site d n.uses }

unfoldable pub add_uses : List DefSite → RdNode → RdNode
add_uses [] n = n
add_uses (d ∷ ds) n = add_uses ds (add_use d n)

-- The test of the loops of `defines`.
abbrev pub defines_at : ℕ → Offset → DefSite → Bool
defines_at target off d =
    d.target == target && (is_unknown off || in_range off d.offset (wrap_add d.offset d.len))

-- `defines`
unfoldable pub defines : ℕ → Offset → List DefSite → Bool
unfolding in_range
defines target off [] = false
defines target off (d ∷ ds) = defines_at target off d || defines target off ds

-- `usesUnknown`
unfoldable pub uses_unknown : List DefSite → Bool
uses_unknown [] = false
uses_unknown (d ∷ ds) = d.target == unknown_memory || uses_unknown ds

abbrev pub State : Type 0
State = ℕ → RdNode

-- The graph, and the options of the analysis.
pub record Analysis : Type 0 where
  pub graph : Subgraph
  pub info : NodeInfo
  pub strong_update_unknown : Bool
  pub max_set_size : ℕ

-- A write to the map of a node.
abbrev pub with_map : ℕ → RdMap → State → State
with_map node m st k = if node == k then record (st k) { def_map = m } else st k

module _ (A : Analysis) where
  abbrev pub merge_options : List DefSite → MergeOptions
  merge_options over = record {
    info = A.info;
    no_update = some over;
    strong_update_unknown = A.strong_update_unknown;
    max_set_size = A.max_set_size;
    merge_unknown = false;
  }

  -- The call of `merge`, which does nothing where the maps are the same object.
  unfoldable pub merge_from : ℕ → ℕ → State → RdMap × Bool
  merge_from node n st =
      if node == n
      then ((st node).def_map, false)
      else merge (merge_options (st node).overwritten) (st node).def_map (st n).def_map

  -- The loop of `processNode` over the predecessors.
  unfoldable pub merge_all : ℕ → List ℕ → State → State × Bool
  merge_all node [] st = (st, false)
  merge_all node (n ∷ ns) st =
      let (m, changed) = merge_from node n st in
      let (st', changed') = merge_all node ns (with_map node m st) in (st', changed || changed')

  -- `processNode`
  unfoldable pub process_node : ℕ → State → State × Bool
  process_node node st = merge_all node (A.graph.predecessors node) st

  -- The loop of `run` over the nodes to process: the new state, and `changed`.
  unfoldable pub iterate : List ℕ → State → State × List ℕ
  iterate [] st = (st, [])
  iterate (cur ∷ to_process) st =
      let (st', c) = process_node cur st in
      let (st'', changed) = iterate to_process st' in (st'', if c then cur ∷ changed else changed)

  -- `getNodes`: the nodes reachable from the start nodes, in the order of a breadth-first walk.
  unfoldable pub get_nodes : ℕ → List ℕ → Option (List ℕ)
  get_nodes fuel starts = elim (Walk.run fifo A.graph.successors fuel starts) [
    | none ↦ none
    | some w ↦ some (reverse_onto w.called [])
  ]

  -- The outer loop of `run`. `none` means that the fuel ran out.
  unfoldable pub run_rounds : ℕ → ℕ → List ℕ → State → Option State
  run_rounds walk_fuel zero to_process st = none
  run_rounds walk_fuel (suc rounds) to_process st =
      let (st', changed) = iterate to_process st in
      elim changed [
        | [] ↦ some st'
        | n ∷ ns ↦ elim (get_nodes walk_fuel (n ∷ ns)) [
          | none ↦ none
          | some nodes ↦ run_rounds walk_fuel rounds nodes st'
        ]
      ]

  -- `run`
  unfoldable pub run : ℕ → ℕ → ℕ → State → Option State
  run walk_fuel rounds root st = elim (get_nodes walk_fuel (root ∷ [])) [
    | none ↦ none
    | some nodes ↦ run_rounds walk_fuel rounds nodes st
  ]
