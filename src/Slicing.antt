-- ===== src/Slicing.antt =====
-- include/dg/analysis/Slicing.h: the marking of the nodes of a slice, by the walk of
-- include/dg/analysis/legacy/NodesWalk.h along dependencies. Nodes, blocks and graphs are numbers.
pub mod Marked
pub mod Listed
pub mod Depends
pub mod Walks
pub mod Mark
use dg.Base.{
  ℕ, zero, suc, ◌+◌, Bool, true, false, Option, none, some, List, [], ◌∷◌, ◌++◌, ◌==◌,
  if◌then◌else◌,
}
use dg.Base.Sets.{insert}
use dg.Adt.Queue.{fifo}
use dg.Walk.{Walk, nothing_done, offer}

-- The edges of the dependence graphs: of nodes, and the control dependencies of blocks. A node may be
-- in a block and in a graph, `entry` is the entry node of a graph, and a block has a first and a last
-- node.
pub record Dependences : Type 0 where
  pub control : ℕ → List ℕ
  pub rev_control : ℕ → List ℕ
  pub data_deps : ℕ → List ℕ
  pub rev_data : ℕ → List ℕ
  pub user : ℕ → List ℕ
  pub interference : ℕ → List ℕ
  pub rev_interference : ℕ → List ℕ
  pub block : ℕ → Option ℕ
  pub graph : ℕ → Option ℕ
  pub entry : ℕ → ℕ
  pub control_deps : ℕ → List ℕ
  pub rev_control_deps : ℕ → List ℕ
  pub first_node : ℕ → ℕ
  pub last_node : ℕ → ℕ

-- `slice_id` of nodes, blocks and graphs, and `markedBlocks`.
pub record Slices : Type 0 where
  pub node_slice : ℕ → ℕ
  pub block_slice : ℕ → ℕ
  pub graph_slice : ℕ → ℕ
  pub marked_blocks : List ℕ

abbrev pub map_all : (ℕ → ℕ) → List ℕ → List ℕ
map_all f [] = []
map_all f (x ∷ xs) = f x ∷ map_all f xs

-- A write to a field of an element that may be there.
abbrev pub set_at : Option ℕ → ℕ → (ℕ → ℕ) → ℕ → ℕ
set_at none v f k = f k
set_at (some n) v f k = if n == k then v else f k

abbrev pub insert_at : Option ℕ → List ℕ → List ℕ
insert_at none xs = xs
insert_at (some b) xs = insert b xs

module _ (D : Dependences) where
  -- `processBBlockCDs` and `processBBlockRevCDs`
  unfoldable pub block_cds : Option ℕ → List ℕ
  block_cds none = []
  block_cds (some b) = map_all D.first_node (D.control_deps b)

  unfoldable pub block_rev_cds : Option ℕ → List ℕ
  block_rev_cds none = []
  block_rev_cds (some b) = map_all D.last_node (D.rev_control_deps b)

  -- The nodes that the loop of `walk` offers for a node, by the options of `WalkAndMark`.
  unfoldable pub edges : Bool → ℕ → List ℕ
  unfolding block_cds block_rev_cds
  edges true n = D.control n ++ (block_cds (D.block n) ++ (D.data_deps n ++ D.interference n))
  edges false n =
      D.rev_control n
      ++ (block_rev_cds (D.block n)
          ++ (D.rev_data n ++ (D.user n ++ (D.interference n ++ D.rev_interference n))))

  -- What `markSlice` enqueues: backwards, the entry of the node's graph.
  unfoldable pub entry_of : Bool → Option ℕ → List ℕ
  entry_of true g = []
  entry_of false none = []
  entry_of false (some g) = D.entry g ∷ []

  -- All that is enqueued for a node: by the callback, then by the walk.
  unfoldable pub next_nodes : Bool → ℕ → List ℕ
  unfolding edges entry_of
  next_nodes forward n = entry_of forward (D.graph n) ++ edges forward n

  -- `markSlice`, the writes
  unfoldable pub mark_slice : Bool → ℕ → ℕ → Slices → Slices
  mark_slice forward id n s = record {
    node_slice = set_at (some n) id s.node_slice;
    block_slice = set_at (D.block n) id s.block_slice;
    graph_slice = set_at (D.graph n) id s.graph_slice;
    marked_blocks = if forward then insert_at (D.block n) s.marked_blocks else s.marked_blocks;
  }

  -- The loop of `walk` with `markSlice`. `none` means that the fuel ran out.
  unfoldable pub mark_loop : Bool → ℕ → ℕ → Walk → Slices → Option Slices
  unfolding mark_slice next_nodes
  mark_loop forward id zero w s = elim w.queue [ [] ↦ some s | _ ∷ _ ↦ none ]
  mark_loop forward id (suc fuel) w s = elim w.queue [
    | [] ↦ some s
    | n ∷ rest ↦
        mark_loop forward id fuel
          (offer fifo (next_nodes forward) (next_nodes forward n)
            (record w { queue = rest; called = n ∷ w.called }))
          (mark_slice forward id n s)
  ]

  -- `WalkAndMark::mark`. An element that is enqueued again in the same walk is skipped, also at the
  -- start.
  unfoldable pub walk_and_mark : Bool → ℕ → ℕ → List ℕ → Slices → Option Slices
  unfolding mark_loop
  walk_and_mark forward id fuel starts s =
      mark_loop forward id fuel (offer fifo (next_nodes forward) starts nothing_done) s

  -- The last nodes of the blocks that the marked blocks are control dependent on; the assertion that
  -- these blocks have several successors is left out.
  unfoldable pub branchings : List ℕ → List ℕ
  branchings [] = []
  branchings (b ∷ bs) = map_all D.last_node (D.rev_control_deps b) ++ branchings bs

  -- `Slicer::mark`, behind the choice of the slice id. Each `WalkAndMark` starts with no marked
  -- blocks.
  unfoldable pub mark : Bool → ℕ → ℕ → ℕ → Slices → Option Slices
  unfolding walk_and_mark branchings
  mark forward id fuel start s =
      elim (walk_and_mark forward id fuel (start ∷ []) (record s { marked_blocks = [] })) [
        | none ↦ none
        | some t ↦
            if forward
            then elim (branchings t.marked_blocks) [
              | [] ↦ some t
              | n ∷ ns ↦ walk_and_mark false id fuel (n ∷ ns) (record t { marked_blocks = [] })
            ]
            else some t
      ]

-- The slice id of `mark`: a new one where none is given.
unfoldable pub slice_id : ℕ → ℕ → ℕ × ℕ
slice_id counter id = if id == 0 then (counter + 1, counter + 1) else (counter, id)
