-- ===== src/PointerAnalysis/Fixpoint.antt =====
-- include/dg/analysis/PointsTo/PointerAnalysis.h: the queue of the nodes to process and the loop that
-- runs to a fixpoint, with `getNodes` of PointerSubgraph.h.
use dg.Base.{ℕ, zero, suc, Bool, true, false, Option, none, some, List, [], ◌∷◌}
use dg.Base.{if◌then◌else◌, length, ltb, reverse_onto}
use dg.Offset.{unknown}
use dg.Adt.Queue.{fifo}
use dg.Walk
use dg.PointerAnalysis.{NodeType, Program, State, write}
use dg.PointerAnalysis.Process.{process_node}

abbrev is_gep : NodeType → Bool
is_gep NodeType.gep = true
is_gep _ = false

module _ (A : Program) where
  -- `getNodes`: the nodes reachable from the start nodes, in the order of a breadth-first walk.
  unfoldable pub get_nodes : ℕ → List ℕ → Option (List ℕ)
  get_nodes fuel starts = elim (Walk.run fifo A.graph.successors fuel starts) [
    | none ↦ none
    | some w ↦ some (reverse_onto w.called [])
  ]

  -- `iteration`: the new state and `changed`; `beforeProcessed` and `afterProcessed` do nothing.
  unfoldable pub iterate : List ℕ → State A → Option (State A × List ℕ)
  iterate [] st = some (st, [])
  iterate (cur ∷ to_process) st = elim (process_node A cur st) [
    | none ↦ none
    | some (st', enq) ↦ elim (iterate to_process st') [
      | none ↦ none
      | some (st'', changed) ↦ some (st'', if enq then cur ∷ changed else changed)
    ]
  ]

  -- `queue_changed`: the nodes to process next.
  unfoldable pub queue_changed : ℕ → List ℕ → Option (List ℕ)
  queue_changed fuel [] = some []
  queue_changed fuel (n ∷ changed) = get_nodes fuel (n ∷ changed)

  -- The loops of `preprocessGEPs` over a component, and over all components.
  unfoldable pub widen_geps : List ℕ → State A → State A
  widen_geps [] st = st
  widen_geps (n ∷ scc) st = widen_geps scc (
      if is_gep (A.node_type n)
      then record st { gep_offset = write st.gep_offset n unknown }
      else st)

  unfoldable pub preprocess_geps : List (List ℕ) → State A → State A
  preprocess_geps [] st = st
  preprocess_geps (scc ∷ sccs) st =
      preprocess_geps sccs (if ltb 1 (length scc) then widen_geps scc st else st)

  -- `preprocess`
  unfoldable pub preprocess : List (List ℕ) → State A → State A
  preprocess sccs st = if A.preprocess_geps then preprocess_geps sccs st else st

  -- The loop of `run`. `none` means an abort, or that the fuel ran out.
  unfoldable pub run_rounds : ℕ → ℕ → List ℕ → State A → Option (State A)
  run_rounds walk_fuel zero to_process st = none
  run_rounds walk_fuel (suc rounds) to_process st = elim (iterate to_process st) [
    | none ↦ none
    | some (st', changed) ↦ elim (queue_changed walk_fuel changed) [
      | none ↦ none
      | some [] ↦ some st'
      | some (n ∷ ns) ↦ run_rounds walk_fuel rounds (n ∷ ns) st'
    ]
  ]

  -- `run`, with `initialize_queue`
  unfoldable pub run : ℕ → ℕ → List (List ℕ) → ℕ → State A → Option (State A)
  run walk_fuel rounds sccs root st = elim (get_nodes walk_fuel (root ∷ [])) [
    | none ↦ none
    | some to_process ↦ run_rounds walk_fuel rounds to_process (preprocess sccs st)
  ]
