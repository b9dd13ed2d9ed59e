-- ===== src/PointerAnalysis/Process.antt =====
-- lib/analysis/PointsTo/PointerAnalysis.cpp: `processNode`.
use dg.Base.{ℕ, false, not, ◌&&◌, some}
use dg.Base.{if◌then◌else◌}
use dg.Base.Steps.{Step, idle, pure_step, both, each}
use dg.PointsTo.{Pointer}
use dg.PointerAnalysis.{NodeType, Program, State, write}
use dg.PointerAnalysis.Memory.{
  get_operand, add_pointer, add_pointers, add_pointers_at, is_function, get_memory_objects, item_at,
}
use dg.PointerAnalysis.Memory.{can_be_dereferenced, handle_fork, handle_join}
use dg.PointerAnalysis.Load.{process_load, process_gep}
use dg.PointerAnalysis.Copy.{process_memcpy}

module _ (A : Program) where
  -- The case `STORE`
  unfoldable pub store_pointer : ℕ → Pointer → Step (State A)
  store_pointer node p st =
      let (st', objects) = get_memory_objects A p st in
      if not (can_be_dereferenced A p)
      then some (st, false)
      else each (λ o s. some (add_pointers_at A o p.offset (s.points_to (get_operand A node 0)) s))
          objects st'

  unfoldable pub process_store : ℕ → Step (State A)
  process_store node st =
      each (store_pointer node) (A.sets.pointers (st.points_to (get_operand A node 1))) st

  -- The case `PHI`: the sets of all operands
  unfoldable pub add_operand_set : ℕ → ℕ → Step (State A)
  add_operand_set node op st = some (add_pointers A node (st.points_to op) st)

  unfoldable pub process_phi : ℕ → Step (State A)
  process_phi node = each (add_operand_set node) (A.graph.operands node)

  -- The first loop of the case `CALL_RETURN`
  unfoldable pub invalidate_pointer : ℕ → Pointer → Step (State A)
  invalidate_pointer node p =
      if not (can_be_dereferenced A p)
      then idle
      else if not (A.is_heap p.target) && not (A.is_global p.target)
      then pure_step (add_pointer A node (record { target = A.invalidated_node; offset = 0 }))
      else idle

  unfoldable pub invalidate_operand : ℕ → ℕ → Step (State A)
  invalidate_operand node op st =
      each (invalidate_pointer node) (A.sets.pointers (st.points_to op)) st

  unfoldable pub process_call_return : ℕ → Step (State A)
  process_call_return node =
      both
        (if A.invalidate_nodes
          then each (invalidate_operand node) (A.graph.operands node)
          else idle)
        (process_phi node)

  -- The case `CALL_FUNCPTR`, where `functionPointerCall` builds no graph
  unfoldable pub call_pointer : ℕ → Pointer → Step (State A)
  call_pointer node p =
      if not A.invalidate_nodes && not (is_function (A.node_type p.target))
      then idle
      else pure_step (add_pointer A node p)

  unfoldable pub process_call_funcptr : ℕ → Step (State A)
  process_call_funcptr node st =
      each (call_pointer node) (A.sets.pointers (st.points_to (get_operand A node 0))) st

  -- The case `INVALIDATE_LOCALS`
  unfoldable pub process_invalidate_locals : ℕ → Step (State A)
  process_invalidate_locals node st =
      let exit = item_at (A.graph.successors (get_operand A node 0)) 0 in
      some (record st { parents = write st.parents node (st.parents exit) }, false)

  -- The cases of `processNode`
  unfoldable pub process_type : NodeType → ℕ → Step (State A)
  process_type NodeType.load node = process_load A node
  process_type NodeType.store node = process_store node
  process_type NodeType.invalidate_locals node = process_invalidate_locals node
  process_type NodeType.gep node = process_gep A node
  process_type NodeType.cast node = add_operand_set node (get_operand A node 0)
  process_type NodeType.call_return node = process_call_return node
  process_type NodeType.return node = process_phi node
  process_type NodeType.phi node = process_phi node
  process_type NodeType.call_funcptr node = process_call_funcptr node
  process_type NodeType.fork node = handle_fork A
  process_type NodeType.join node = handle_join A
  process_type NodeType.memcpy node = process_memcpy A node
  process_type _ node = idle

  -- `processNode`
  unfoldable pub process_node : ℕ → Step (State A)
  unfolding process_type
  process_node node = process_type (A.node_type node) node
