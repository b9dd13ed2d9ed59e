-- ===== src/PointerAnalysis/Memory.antt =====
-- The memory of the pointer analysis: PSNode.h and MemoryObject.h, `addPointsTo`, and
-- include/dg/analysis/PointsTo/PointerAnalysisFI.h, `getMemoryObjects`, with `canBeDereferenced` of
-- lib/analysis/PointsTo/PointerAnalysis.cpp and the hooks of PointerAnalysis.h that the
-- flow-insensitive analysis leaves as they are.
use dg.Base.{ℕ, zero, suc, Bool, true, false, not, ◌||◌, ◌&&◌, none, some, List, [], ◌∷◌, ◌++◌}
use dg.Base.{◌==◌, if◌then◌else◌, has_elem}
use dg.Base.Steps.{Step, idle}
use dg.Base.Maps.{find, put}
use dg.Offset.{Offset}
use dg.PointsTo.{Pointer}
use dg.PointerAnalysis.{NodeType, Program, MemoryObject, State, write}

-- `getOperand`; the index is asserted to be in range.
abbrev pub item_at : List ℕ → ℕ → ℕ
item_at [] i = 0
item_at (x ∷ xs) zero = x
item_at (x ∷ xs) (suc i) = item_at xs i

abbrev pub is_function : NodeType → Bool
is_function NodeType.function = true
is_function _ = false

-- `(*begin()).target`
abbrev pub first_target : List Pointer → ℕ
first_target [] = 0
first_target (p ∷ ps) = p.target

module _ (A : Program) where
  abbrev pub get_operand : ℕ → ℕ → ℕ
  get_operand n i = item_at (A.graph.operands n) i

  -- `PSNode::addPointsTo` of a pointer and of a set
  unfoldable pub add_pointer : ℕ → Pointer → State A → State A × Bool
  add_pointer n p st =
      let (s, changed) = A.sets.add p (st.points_to n) in
      (record st { points_to = write st.points_to n s }, changed)

  unfoldable pub add_pointers : ℕ → A.sets.Carrier → State A → State A × Bool
  add_pointers n ptrs st =
      let (s, changed) = A.sets.union (st.points_to n) ptrs in
      (record st { points_to = write st.points_to n s }, changed)

  -- The set at an offset of an object; `pointsTo[off]` makes an empty one where there is none.
  abbrev pub set_at : Offset → MemoryObject A → A.sets.Carrier
  set_at off o = elim (find off o) [ none ↦ A.sets.no_pointers | some s ↦ s ]

  -- `MemoryObject::addPointsTo` of a pointer and of a set
  unfoldable pub add_pointer_at : ℕ → Offset → Pointer → State A → State A × Bool
  add_pointer_at o off p st =
      let (s, changed) = A.sets.add p (set_at off (st.objects o)) in
      (record st { objects = write st.objects o (put off s (st.objects o)) }, changed)

  unfoldable pub add_pointers_at : ℕ → Offset → A.sets.Carrier → State A → State A × Bool
  add_pointers_at o off ptrs st =
      let (s, changed) = A.sets.union (set_at off (st.objects o)) ptrs in
      if A.sets.is_empty ptrs
      then (st, false)
      else (record st { objects = write st.objects o (put off s (st.objects o)) }, changed)

  -- The allocation that `getMemoryObjects` looks at.
  abbrev pub allocation_of : NodeType → List Pointer → ℕ → ℕ
  allocation_of NodeType.cast ps n = get_operand n 0
  allocation_of NodeType.gep ps n = get_operand n 0
  allocation_of NodeType.constant ps n = first_target ps
  allocation_of _ ps n = n

  unfoldable pub allocation : State A → ℕ → ℕ
  allocation st n = allocation_of (A.node_type n) (A.sets.pointers (st.points_to n)) n

  -- `getMemoryObjects`: the object is created at its first use.
  unfoldable pub get_memory_objects : Pointer → State A → State A × List ℕ
  get_memory_objects p st =
      let n = allocation st p.target in
      if is_function (A.node_type n)
      then (st, [])
      else if has_elem n st.memory_objects
      then (st, n ∷ [])
      else (record st { memory_objects = st.memory_objects ++ n ∷ [] }, n ∷ [])

  -- `canBeDereferenced`
  abbrev pub can_be_dereferenced : Pointer → Bool
  can_be_dereferenced p =
      not (p.target == A.null_ptr || p.target == A.unknown_memory)
      && (not (p.target == A.invalidated_node) && not (p.target == A.unknown_memory))
      && not (is_function (A.node_type p.target))

  -- `error` and `errorEmptyPointsTo`, `handleFork` and `handleJoin`
  abbrev pub error : Step (State A)
  error = idle

  abbrev pub error_empty_points_to : Step (State A)
  error_empty_points_to = idle

  abbrev pub handle_fork : Step (State A)
  handle_fork = idle

  abbrev pub handle_join : Step (State A)
  handle_join = idle
