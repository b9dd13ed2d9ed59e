-- ===== src/PointerAnalysis.antt =====
-- The data of the pointer analysis: include/dg/analysis/PointsTo/PSNode.h, MemoryObject.h,
-- PointerSubgraph.h and the options. A node is a number, 0 stands for no node.
pub mod Memory
pub mod Load
pub mod Copy
pub mod Process
pub mod Progress
pub mod Grows
pub mod Inclusion
pub mod Nulls
pub mod Stable
pub mod Closed
pub mod Fixpoint
pub mod Iterate
pub mod Bounds
use dg.Base.{ℕ, Bool, true, false, List, [], ◌∷◌, ◌==◌, if◌then◌else◌}
use dg.Offset.{Offset, unknown}
use dg.PointsTo.{Pointer}
use dg.PointsTo.Sets.{PointsToSets}
use dg.Subgraph.{Subgraph}

-- `PSNodeType`
pub data NodeType : Type 0 where
  alloc : NodeType
  dyn_alloc : NodeType
  load : NodeType
  store : NodeType
  gep : NodeType
  phi : NodeType
  cast : NodeType
  function : NodeType
  call : NodeType
  call_funcptr : NodeType
  call_return : NodeType
  entry : NodeType
  return : NodeType
  fork : NodeType
  join : NodeType
  invalidate_locals : NodeType
  free : NodeType
  invalidate_object : NodeType
  constant : NodeType
  noop : NodeType
  memcpy : NodeType
  null_addr : NodeType
  unknown_mem : NodeType
  invalidated : NodeType

-- What a run of the analysis does not change: the class of the sets, the graph, and the fields of the
-- nodes that are set when it is built; `unknown_memory`, `null_ptr` and `invalidated_node` are
-- `UNKNOWN_MEMORY`, `NULLPTR` and `INVALIDATED`.
pub record Program : Type 1 where
  pub sets : PointsToSets
  pub graph : Subgraph
  pub node_type : ℕ → NodeType
  pub node_size : ℕ → ℕ
  pub is_heap : ℕ → Bool
  pub is_global : ℕ → Bool
  pub len : ℕ → Offset
  pub unknown_memory : ℕ
  pub null_ptr : ℕ
  pub invalidated_node : ℕ
  pub field_sensitivity : Offset
  pub invalidate_nodes : Bool
  pub preprocess_geps : Bool

-- `MemoryObject::pointsTo`
abbrev pub MemoryObject : Program → Type 0
MemoryObject A = List (Offset × A.sets.Carrier)

-- What a run changes: the sets of the nodes, the memory objects (an object that is not in
-- `memory_objects` has not been created, and is empty), and the other fields of the nodes.
pub record State (A : Program) : Type 0 where
  pub points_to : ℕ → A.sets.Carrier
  pub objects : ℕ → MemoryObject A
  pub memory_objects : List ℕ
  pub zero_initialized : ℕ → Bool
  pub parents : ℕ → ℕ
  pub gep_offset : ℕ → Offset

-- A write to the field of a node.
abbrev pub write {ℓ} : {V : Type ℓ} → (ℕ → V) → ℕ → V → ℕ → V
write f k v n = if k == n then v else f n

-- `UnknownPointer` and `NullPointer`
abbrev pub unknown_pointer : Program → Pointer
unknown_pointer A = record { target = A.unknown_memory; offset = unknown }

abbrev pub null_pointer : Program → Pointer
null_pointer A = record { target = A.null_ptr; offset = 0 }
