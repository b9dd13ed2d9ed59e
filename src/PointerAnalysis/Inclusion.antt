-- ===== src/PointerAnalysis/Inclusion.antt =====
-- PointerAnalysis.cpp: what each kind of node demands of the sets.
use dg.Base.{ℕ, Bool, true, not, ◌||◌, ◌&&◌, ◌≡◌, List, All}
use dg.Base.{◌==◌}
use dg.Offset.{Offset, unknown, is_unknown}
use dg.PointsTo.{Pointer}
use dg.PointsTo.Sets.{covers}
use dg.PointerAnalysis.{NodeType, Program, State, unknown_pointer}
use dg.PointerAnalysis.Memory.{get_operand, can_be_dereferenced, allocation, is_function}
use dg.PointerAnalysis.Load.{gep_result}
use dg.PointerAnalysis.Copy.{is_copied, copied_offset}
use dg.PointerAnalysis.Progress.{node_pointers, cell_pointers}

abbrev pub implies : Bool → Bool → Bool
implies a b = not a || b

-- Every pointer that the first may point to, the second may point to.
abbrev pub IsIncluded : List Pointer → List Pointer → Type 0
IsIncluded ps qs = (q : Pointer) → implies (covers ps q) (covers qs q) ≡ true

module _ (A : Program) where
  -- The pointer has memory that can be accessed.
  unfoldable pub has_memory : State A → Pointer → Bool
  has_memory st p =
      can_be_dereferenced A p && not (is_function (A.node_type (allocation A st p.target)))

  -- The cell at an offset of the memory of a pointer.
  abbrev pub cell_of : State A → Pointer → Offset → List Pointer
  cell_of st p off = cell_pointers A st (allocation A st p.target) off

  -- A load over a pointer yields what is stored at its offset, at the unknown offset, and anywhere
  -- where its own offset is not known; over an unknown pointer, it yields an unknown pointer.
  abbrev pub Loads : ℕ → Pointer → State A → Type 0
  Loads node p st =
      ((off : Offset) (q : Pointer)
        → implies
            (has_memory st p
              && ((is_unknown p.offset || (off == p.offset || is_unknown off))
                  && covers (cell_of st p off) q))
            (covers (node_pointers A st node) q)
          ≡ true)
      × (implies (p.target == A.unknown_memory)
            (covers (node_pointers A st node) (unknown_pointer A))
          ≡ true)

  -- A store over a pointer stores the pointers of the value at its offset.
  abbrev pub Stores : ℕ → Pointer → State A → Type 0
  Stores node p st =
      (q : Pointer)
      → implies (has_memory st p && covers (node_pointers A st (get_operand A node 0)) q)
          (covers (cell_of st p p.offset) q)
        ≡ true

  -- A shift of a pointer yields the shifted pointer, which has an unknown offset where that of the
  -- pointer or that of the shift is unknown.
  abbrev pub Shifts : ℕ → Pointer → State A → Type 0
  Shifts node p st =
      (covers (node_pointers A st node) (gep_result A p (st.gep_offset node)) ≡ true)
      × (implies (is_unknown p.offset || is_unknown (st.gep_offset node))
            (covers (node_pointers A st node) (record p { offset = unknown }))
          ≡ true)

  -- A copy from one pointer to another stores what is in range at the offset that it is shifted to.
  abbrev pub Copies : ℕ → Pointer → Pointer → State A → Type 0
  Copies node sp dp st =
      (off : Offset) (q : Pointer)
      → implies
          (has_memory st sp
            && (has_memory st dp
                && (is_copied A sp.offset (A.len node) off && covers (cell_of st sp off) q)))
          (covers
            (cell_of st dp (copied_offset A sp.offset dp.offset (allocation A st dp.target) off)) q)
        ≡ true

  -- A call over a pointer to a function yields it.
  abbrev pub Calls : ℕ → Pointer → State A → Type 0
  Calls node p st =
      implies (A.invalidate_nodes || is_function (A.node_type p.target))
        (covers (node_pointers A st node) p)
      ≡ true

  abbrev pub Gathers : ℕ → ℕ → State A → Type 0
  Gathers node op st = IsIncluded (node_pointers A st op) (node_pointers A st node)

  -- A return from a call invalidates pointers to memory that is neither on the heap nor global.
  abbrev pub Invalidates : ℕ → Pointer → State A → Type 0
  Invalidates node p st =
      implies
        (A.invalidate_nodes
          && (can_be_dereferenced A p && (not (A.is_heap p.target) && not (A.is_global p.target))))
        (covers (node_pointers A st node) (record { target = A.invalidated_node; offset = 0 }))
      ≡ true

  -- What a node of each kind demands.
  abbrev pub IsClosed : NodeType → ℕ → State A → Type 0
  IsClosed NodeType.load node st =
      All (λ p. Loads node p st) (node_pointers A st (get_operand A node 0))
  IsClosed NodeType.store node st =
      All (λ p. Stores node p st) (node_pointers A st (get_operand A node 1))
  IsClosed NodeType.gep node st =
      All (λ p. Shifts node p st) (node_pointers A st (get_operand A node 0))
  IsClosed NodeType.cast node st = Gathers node (get_operand A node 0) st
  IsClosed NodeType.call_return node st =
      All (λ op. Gathers node op st × All (λ p. Invalidates node p st) (node_pointers A st op))
        (A.graph.operands node)
  IsClosed NodeType.return node st = All (λ op. Gathers node op st) (A.graph.operands node)
  IsClosed NodeType.phi node st = All (λ op. Gathers node op st) (A.graph.operands node)
  IsClosed NodeType.call_funcptr node st =
      All (λ p. Calls node p st) (node_pointers A st (get_operand A node 0))
  IsClosed NodeType.memcpy node st =
      All (λ sp. All (λ dp. Copies node sp dp st) (node_pointers A st (get_operand A node 1)))
        (node_pointers A st (get_operand A node 0))
  IsClosed _ node st = Unit
