-- ===== src/PointerAnalysis/Closed.antt =====
-- PointerAnalysis.cpp: `processNode` where it changes nothing.
use dg.Base.{ℕ, Bool, true, false, ◌≡◌, List, [], ◌∷◌, none, some, All, arith, refl}
use dg.Base.Maps.{find}
use dg.Offset.{Offset}
use dg.PointsTo.{Pointer}
use dg.PointsTo.Sets.{covers, SetLaws}
use dg.PointerAnalysis.{NodeType, Program, State}
use dg.PointerAnalysis.Memory.{get_operand}
use dg.PointerAnalysis.Progress.{node_pointers, cell_pointers}
use dg.PointerAnalysis.Inclusion.{implies, Loads, Shifts}
use dg.PointerAnalysis.Stable.{implies_intro, Same}
use dg.PointerAnalysis.Inclusion.{IsClosed, Loads, Stores, Shifts, Calls, Copies}
use dg.PointerAnalysis.Process.{process_node, process_type}
use dg.PointerAnalysis.Grows.Node.{process_node-Progress}
use dg.PointerAnalysis.Stable.Load.{
  process_load-Loads, process_gep-Shifts, Loads-later, Shifts-later,
}
use dg.PointerAnalysis.Stable.Gather.{
  add_operand_set-Gathers, process_phi-Gathers, process_store-Stores, process_call_return-Returns,
  process_call_funcptr-Calls, Stores-later, Gathers-later, Invalidates-operand, Calls-later,
}
use dg.PointerAnalysis.Stable.Copy.{empty_cell}
use dg.PointerAnalysis.Stable.Memcpy.{
  Fits, Fits-after, OffsetsFit, Copies-later, process_memcpy-Copies,
}
use dg.Base.{◌≤◌, ◌<◌, ◌^◌, All-map}
use dg.PointerAnalysis.Nulls.{Below, NullLoads, NullCopies, HasNulls}
use dg.PointerAnalysis.Nulls.Load.{NullLoads-later, process_load-NullLoads}
use dg.PointerAnalysis.Nulls.Memcpy.{NullCopies-later, process_memcpy-NullCopies}

find_above :
    {V : Type 0} (k : ℕ) (o : List (Offset × V))
    → All (λ e. e.0 < 2 ^ 64) o
    → 2 ^ 64 ≤ k
    → find k o ≡ none
find_above k [] all big = refl
find_above k ((j, v) ∷ o) (lt, all) big = ground (arith, find_above k o all big)

module _ (A : Program) (laws : SetLaws A.sets) where
  pub OffsetsFit-Fits : (s : State A) → OffsetsFit A s → Fits A laws s
  OffsetsFit-Fits s fit o k q big =
      empty_cell A laws k (s.objects o) q (find_above k (s.objects o) (fit o) big)

  process_type-IsClosed :
      (type : NodeType) (node : ℕ) (s t : State A)
      → Same A s t
      → Fits A laws t
      → process_type A type node s ≡ some (t, false)
      → IsClosed A type node t
  unfolding process_type
  process_type-IsClosed NodeType.load node s t same fits = process_load-Loads A laws node s t same
  process_type-IsClosed NodeType.store node s t same fits =
      process_store-Stores A laws node s t same
  process_type-IsClosed NodeType.gep node s t same fits = process_gep-Shifts A laws node s t same
  process_type-IsClosed NodeType.cast node s t same fits =
      add_operand_set-Gathers A laws node (get_operand A node 0) s t same
  process_type-IsClosed NodeType.call_return node s t same fits =
      process_call_return-Returns A laws node s t
  process_type-IsClosed NodeType.return node s t same fits = process_phi-Gathers A laws node s t
  process_type-IsClosed NodeType.phi node s t same fits = process_phi-Gathers A laws node s t
  process_type-IsClosed NodeType.call_funcptr node s t same fits =
      process_call_funcptr-Calls A laws node s t same
  process_type-IsClosed NodeType.memcpy node s t same fits =
      process_memcpy-Copies A laws node s t same fits
  process_type-IsClosed _ node s t same fits = λ h. tt

  -- Pointers of a node for which something stays true.
  list_later :
      (P : Pointer → State A → Type 0) (op : ℕ) (s t : State A)
      → Same A s t
      → ((p : Pointer) → P p s → P p t)
      → All (λ p. P p s) (node_pointers A s op)
      → All (λ p. P p t) (node_pointers A t op)
  list_later P op s t same f all =
      rw (same.nodes_same refl op) (All-map _ _ (node_pointers A s op) f all)

  pub IsClosed-later :
      (type : NodeType) (node : ℕ) (s t : State A)
      → Same A s t
      → IsClosed A type node s
      → IsClosed A type node t
  IsClosed-later NodeType.load node s t same =
      list_later (Loads A node) (get_operand A node 0) s t same
        (λ p. Loads-later A laws node p s t same)
  IsClosed-later NodeType.store node s t same =
      list_later (Stores A node) (get_operand A node 1) s t same
        (λ p. Stores-later A laws node p s t same)
  IsClosed-later NodeType.gep node s t same =
      list_later (Shifts A node) (get_operand A node 0) s t same
        (λ p. Shifts-later A laws node p s t same)
  IsClosed-later NodeType.cast node s t same =
      Gathers-later A laws node (get_operand A node 0) s t same
  IsClosed-later NodeType.call_return node s t same =
      All-map _ _ (A.graph.operands node) (λ op (g, i).
        (Gathers-later A laws node op s t same g, Invalidates-operand A laws node op s t same i))
  IsClosed-later NodeType.return node s t same =
      All-map _ _ (A.graph.operands node) (λ op. Gathers-later A laws node op s t same)
  IsClosed-later NodeType.phi node s t same =
      All-map _ _ (A.graph.operands node) (λ op. Gathers-later A laws node op s t same)
  IsClosed-later NodeType.call_funcptr node s t same =
      list_later (Calls A node) (get_operand A node 0) s t same
        (λ p. Calls-later A laws node p s t same)
  IsClosed-later NodeType.memcpy node s t same =
      list_later
        (λ sp st. All (λ dp. Copies A node sp dp st) (node_pointers A st (get_operand A node 1)))
        (get_operand A node 0) s t same
        (λ sp.
          list_later (Copies A node sp) (get_operand A node 1) s t same
            (λ dp. Copies-later A laws node sp dp s t same))
  IsClosed-later _ node s t same = λ h. tt

  pub process_node-Fits :
      (node : ℕ) (s t : State A)
      → Fits A laws s
      → process_node A node s ≡ some (t, false)
      → IsClosed A (A.node_type node) node t
  unfolding process_node
  process_node-Fits node s t fits h =
      let same = process_node-Progress A laws node s t false h in
      process_type-IsClosed (A.node_type node) node s t same (Fits-after A laws s t same fits) h

  process_type-HasNulls :
      (type : NodeType) (node : ℕ) (z : ℕ → Bool) (s t : State A)
      → Same A s t
      → Below A z s
      → process_type A type node s ≡ some (t, false)
      → HasNulls A type z node t
  unfolding process_type
  process_type-HasNulls NodeType.load node z s t same below =
      process_load-NullLoads A laws z node s t same below
  process_type-HasNulls NodeType.memcpy node z s t same below =
      process_memcpy-NullCopies A laws z node s t same below
  process_type-HasNulls _ node z s t same below = λ h. tt

  pub HasNulls-later :
      (type : NodeType) (node : ℕ) (z : ℕ → Bool) (s t : State A)
      → Same A s t
      → HasNulls A type z node s
      → HasNulls A type z node t
  HasNulls-later NodeType.load node z s t same =
      list_later (NullLoads A z node) (get_operand A node 0) s t same
        (λ p. NullLoads-later A laws z node p s t same)
  HasNulls-later NodeType.memcpy node z s t same =
      list_later
        (λ sp st.
          All (λ dp. NullCopies A z node sp dp st) (node_pointers A st (get_operand A node 1)))
        (get_operand A node 0) s t same
        (λ sp.
          list_later (NullCopies A z node sp) (get_operand A node 1) s t same
            (λ dp. NullCopies-later A laws z node sp dp s t same))
  HasNulls-later _ node z s t same = λ h. tt

  pub process_node-HasNulls :
      (node : ℕ) (z : ℕ → Bool) (s t : State A)
      → Below A z s
      → process_node A node s ≡ some (t, false)
      → HasNulls A (A.node_type node) z node t
  unfolding process_node
  process_node-HasNulls node z s t below h =
      process_type-HasNulls (A.node_type node) node z s t
        (process_node-Progress A laws node s t false h) below h

  -- Where processing a node reports no change, the sets have what the node demands of them: a load
  -- has what it may read, what a store or a copy writes is in the memory, and so on for each kind
  -- of node. Where memory is zero initialised before, a load over it has null if the memory has no
  -- object or nothing at the offset, and the destination of a copy from it is zero initialised
  -- where the whole is copied, and has null at its unknown offset otherwise. The sets obey the laws
  -- of points-to sets, and all offsets of the memory objects are below 2 ^ 64.
  pub process_node-IsClosed :
      (node : ℕ) (s t : State A)
      → OffsetsFit A s
      → process_node A node s ≡ some (t, false)
      → IsClosed A (A.node_type node) node t
        × HasNulls A (A.node_type node) s.zero_initialized node t
  process_node-IsClosed node s t fit h = (
    process_node-Fits node s t (OffsetsFit-Fits s fit) h,
    process_node-HasNulls node s.zero_initialized s t (λ n e. e) h,
  )

  -- Processing a node takes no pointer away: what a set of a node may point to before, and what a
  -- set at an offset of a memory object may point to before, it may point to afterwards. The sets
  -- obey the laws of points-to sets, and the code does not abort.
  pub process_node_grows :
      (node : ℕ) (s t : State A) (c : Bool) (n o : ℕ) (off : Offset) (q : Pointer)
      → process_node A node s ≡ some (t, c)
      → (implies (covers (node_pointers A s n) q) (covers (node_pointers A t n) q) ≡ true)
        × (implies (covers (cell_pointers A s o off) q) (covers (cell_pointers A t o off) q) ≡ true)
  process_node_grows node s t c n o off q h =
      let progress = process_node-Progress A laws node s t c h in
      (implies_intro _ _ (progress.nodes_grow n q), implies_intro _ _ (progress.cells_grow o off q))
