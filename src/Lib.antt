-- ===== src/Lib.antt =====
-- A model of the core of dg, a library that builds dependence graphs of programs and slices them.
--
-- The parts. The analyses of the library keep sets of numbers (include/dg/ADT): words of bits, a
-- sparse bitvector over words, and a set of numbers that starts as a word and is lifted to a
-- bitvector. The points-to sets of the pointer analysis (include/dg/analysis/PointsTo) store their
-- pointers in such bitvectors; the analysis itself (lib/analysis/PointsTo/PointerAnalysis.cpp)
-- runs over a graph of nodes (include/dg/analysis/SubgraphNode.h) and adds pointers to the sets of
-- the nodes and to the memory objects until nothing changes. Graphs are walked with a queue
-- (include/dg/analysis/NodesWalk.h over include/dg/ADT/Queue.h). The reaching-definitions analysis
-- keeps a map from definition sites to nodes (RDMap.h, BasicRDMap.cpp) and a map of disjoint
-- intervals (DisjunctiveIntervalMap.h). The slicer (include/dg/analysis/Slicing.h) marks the nodes
-- of a slice by a walk along the dependencies. Control expressions
-- (include/dg/analysis/ControlExpression) are regular expressions of the control flow, computed
-- from an automaton by the elimination of its nodes.
--
-- The files.
--   Base: numbers, lists, bits of a word, association lists for `std::map` and ascending lists for
--     `std::set`.
--   Offset: include/dg/analysis/Offset.h. `add`, `sub`, `in_range` and `is_unknown` are
--     `operator+`, `operator-`, `inRange` and `isUnknown`.
--   Adt.Bits, Adt.ShiftedBits: include/dg/ADT/Bits.h. `get`, `set`, `size` and `may_contain` are
--     the methods; `find_next`, `next` and `begin` are the iterator's, and `elements` is what a
--     range-based for loop visits.
--   Adt.Bitvector: include/dg/ADT/Bitvector.h. `set`, `union`, `unset`, `get` and `size` are the
--     methods, `union` being `set` of another bitvector; `settle` and `next_in` are `operator++`.
--   Adt.NumberSet: include/dg/ADT/NumberSet.h, with `lift` for `_lift`.
--   Adt.Queue: include/dg/ADT/Queue.h, as the interface that a walk takes.
--   Walk: include/dg/analysis/NodesWalk.h. `run`, `run_loop` and `enqueue` are `run`, `_run` and
--     `_enqueue`; the result keeps the nodes that the callback got.
--   Intervals: include/dg/analysis/ReachingDefinitions/DisjunctiveIntervalMap.h. `add_interval` is
--     `_add`, `split_ext_borders` is `splitExtBorders`, `le`, `overlaps` and `overlaps_full` are
--     the queries.
--   PointsTo: include/dg/analysis/PointsTo/Pointer.h, with PointsTo.Simple for
--     SimplePointsToSet.h, PointsTo.Separate for SeparateOffsetsPointsToSet.h and PointsTo.Small
--     for SmallOffsetsPointsToSet.h; `union` is `add` of another set. PointsTo.Refines compares
--     two.
--   PointsTo.Sets: the interface of points-to sets that the analysis takes. PointsTo.Single is
--     SingleBitvectorPointsToSet.h, the choice of PointsToSet.h, with its tables of numbers in
--     PointsTo.Ids; PointsTo.Simple.Instance fills the interface.
--   Subgraph: include/dg/analysis/SubgraphNode.h. The functions have the names of the methods;
--     Subgraph.Edges, Subgraph.Insert and Subgraph.Isolate are about edges, Subgraph.Users and
--     Subgraph.Replace about operands and users.
--   PointerAnalysis: include/dg/analysis/PointsTo/PSNode.h, MemoryObject.h, PointerAnalysis.h and
--     PointerAnalysisFI.h, and lib/analysis/PointsTo/PointerAnalysis.cpp. PointerAnalysis.Memory,
--     Load, Copy and Process have `getMemoryObjects`, `processLoad` with `processGep`,
--     `processMemcpy` and `processNode`; PointerAnalysis.Fixpoint has `iteration` as `iterate`,
--     `queue_changed` and `run`. The other children are proofs: Progress and Grows of what every
--     step keeps, Inclusion, Stable, Closed and Iterate of what holds where nothing changes,
--     Nulls of zero initialised memory, Bounds of offsets.
--   RdMap: include/dg/analysis/ReachingDefinitions/RDMap.h and
--     lib/analysis/ReachingDefinitions/BasicRDMap.cpp. `add`, `update`, `get` and `merge` are the
--     methods of `BasicRDMap`; `strong_update` decides what `merge` leaves out.
--   Reaching: include/dg/analysis/ReachingDefinitions/ReachingDefinitions.h and
--     lib/analysis/ReachingDefinitions/ReachingDefinitions.cpp. `process_node` is `processNode`,
--     `iterate` the loop of `run` over the nodes to process, `overwritten` the field `overwrites`.
--     Reaching.Process is about a node, Growth and Rounds about a round, over RdMap.Growth, and
--     Run about `run`, over Walk.Distinct.
--   Slicing: `Slicer::mark` and `WalkAndMark` of include/dg/analysis/Slicing.h over the walk of
--     include/dg/analysis/legacy/NodesWalk.h; `mark_slice` is `markSlice`, `next_nodes` what a
--     round of `walk` enqueues. Slicing.Depends has
--     the relation of dependences on its own; Slicing.Marked, Listed and Walks are about the loop,
--     Slicing.Mark about `mark`.
--   Control: include/dg/analysis/ControlExpression/CENode.h, with `compute_sets` for the methods
--     `computeSets` of all classes. Control.Words says which words an expression describes;
--     Simplify, Normal and Exact are about `simplify` and `computeSets`.
--   Control.Cfa: include/dg/analysis/ControlExpression/CFA.h. The functions have the names of the
--     methods; `reroute` is a round of `eliminate`. Edges has the paths of an automaton, Merge and
--     Add those after `addSuccessor`, Thru, Self, Kleene and Reroute the parts of `eliminate`,
--     Eliminate and Compute the whole.
--   Samples: the theorems at concrete inputs.
--
-- Conventions. A method that changes an object returns the new object, with its result beside it.
-- Nodes are numbers. Numbers are natural numbers; words of a bitvector are below 2 ^ 64 as an
-- invariant, and the sums that may wrap around in `merge`, `processGep` and `processMemcpy` are
-- taken modulo 2 ^ 64. The positions in a points-to set and the shifts of bits are not bounded; the
-- points of intervals are offsets, whose sums and differences are those of Offset. A step of the
-- pointer analysis returns no state where the code calls `abort`. A loop over a points-to set runs
-- over the pointers that it had at the start, and no node but a phi has itself as an operand; the
-- loop of `processMemcpy` over the entries of an object sees the entries that it adds. The
-- operands that the code asserts are there, and that the targets of pointers with memory are
-- allocations. In Control, a failing assertion of `computeSets` and `compute` is `none`, and a set
-- of labels is the ascending list of them. The slicer and the automata take their sets of nodes in
-- an order that is given, where the code takes that of the addresses; a graph that has nodes has
-- an entry node, and a block has nodes.
--
-- Fuel. The iteration over a word has a round for each of its 64 bits and one more, the iteration
-- over a bitvector 64 rounds for each word, and the count of bits 64 rounds; the results on
-- iteration and size say that this is enough. The loop of `processMemcpy` over the entries has 2 ^
-- 64 rounds, one for each offset. A walk takes its fuel as an argument, and the result on walks
-- says how much is enough; the results on `mark` do so for the walks of the slicer; the result on
-- `run` of the analysis of reaching definitions bounds its rounds and those of its walks; the
-- rounds of `run` of the pointer analysis are an argument that no result bounds.
--
-- Not modelled: the translation from LLVM (lib/llvm, include/dg/llvm), since LLVM is not in the
-- repository; printing and the tools; the static tables that number the nodes of the points-to
-- sets with separate and with small offsets; the flow-sensitive pointer analysis and the overrides
-- of the hooks, which build graphs from LLVM; the sparse graph of definitions; the dependence
-- graph and the part of the slicer that removes nodes from it; the paths of control expressions.

pub mod Base
pub mod Offset
pub mod Adt
pub mod Intervals
pub mod Walk
pub mod PointsTo
pub mod RdMap
pub mod Control
pub mod Slicing
pub mod Reaching
pub mod Subgraph
pub mod PointerAnalysis
mod Samples
