-- ===== src/PointerAnalysis/Grows/Node.antt =====
-- PointerAnalysis.cpp: `processNode`.
use dg.Base.{ℕ, Bool, ◌≡◌, some}
use dg.PointsTo.Sets.{SetLaws}
use dg.PointerAnalysis.{NodeType, Program, State}
use dg.PointerAnalysis.Memory.{get_operand}
use dg.PointerAnalysis.Process.{process_node, process_type}
use dg.PointerAnalysis.Progress.{Progress}
use dg.PointerAnalysis.Grows.{Proceeds, idle-Proceeds}
use dg.PointerAnalysis.Grows.Load.{process_load-Proceeds, process_gep-Proceeds}
use dg.PointerAnalysis.Grows.Copy.{process_memcpy-Proceeds}
use dg.PointerAnalysis.Grows.Gather.{
  process_store-Proceeds, add_operand_set-Proceeds, process_phi-Proceeds,
  process_call_return-Proceeds, process_call_funcptr-Proceeds, process_invalidate_locals-Proceeds,
}

module _ (A : Program) (laws : SetLaws A.sets) where
  pub process_type-Proceeds :
      (type : NodeType) (node : ℕ) → Proceeds A laws (process_type A type node)
  unfolding process_type
  process_type-Proceeds NodeType.load node = process_load-Proceeds A laws node
  process_type-Proceeds NodeType.store node = process_store-Proceeds A laws node
  process_type-Proceeds NodeType.invalidate_locals node =
      process_invalidate_locals-Proceeds A laws node
  process_type-Proceeds NodeType.gep node = process_gep-Proceeds A laws node
  process_type-Proceeds NodeType.cast node =
      add_operand_set-Proceeds A laws node (get_operand A node 0)
  process_type-Proceeds NodeType.call_return node = process_call_return-Proceeds A laws node
  process_type-Proceeds NodeType.return node = process_phi-Proceeds A laws node
  process_type-Proceeds NodeType.phi node = process_phi-Proceeds A laws node
  process_type-Proceeds NodeType.call_funcptr node = process_call_funcptr-Proceeds A laws node
  process_type-Proceeds NodeType.fork node = idle-Proceeds A laws
  process_type-Proceeds NodeType.join node = idle-Proceeds A laws
  process_type-Proceeds NodeType.memcpy node = process_memcpy-Proceeds A laws node
  process_type-Proceeds _ node = idle-Proceeds A laws

  -- No set of a node and no set at an offset of an object loses a pointer that it may point to when a
  -- node is processed, and where no change is reported every set has the pointers that it had.
  pub process_node-Progress :
      (node : ℕ) (s t : State A) (c : Bool) → process_node A node s ≡ some (t, c) → Progress A c s t
  unfolding process_node
  process_node-Progress node = process_type-Proceeds (A.node_type node) node
