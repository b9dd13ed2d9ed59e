-- ===== src/Samples/Nodes.antt =====
-- The pointer analysis at concrete inputs: lib/analysis/PointsTo/PointerAnalysis.cpp.
use dg.Base.{
  ℕ, ◌≡◌, ◌⊎◌, ◌||◌, ◌<◌, ◌+◌, ◌%◌, ◌^◌, refl, true, false, [], ◌∷◌, ◌==◌, if◌then◌else◌, arith,
  All, Option, none, some,
}
use dg.Base.Steps.{if-branch, each, both}
use dg.Offset.{is_unknown, unknown}
use dg.PointsTo.{Pointer}
use dg.PointsTo.Sets.{covers}
use dg.PointsTo.Simple
use dg.PointsTo.Simple.Instance.{simple_sets, simple_laws}
use dg.PointerAnalysis.{NodeType, Program, State}
use dg.PointerAnalysis.Memory.{get_memory_objects, allocation, add_pointers, add_pointers_at}
use dg.PointerAnalysis.Load.{process_load, load_pointer, load_object, load_entry, gep_result}
use dg.PointerAnalysis.Copy.{copied_offset, is_copied}
use dg.PointerAnalysis.Process.{process_node, process_type, process_store, store_pointer}
use dg.PointerAnalysis.Fixpoint.{iterate}
use dg.PointerAnalysis.Inclusion.{IsClosed, implies}
use dg.PointerAnalysis.Progress.{node_pointers, cell_pointers}
use dg.PointerAnalysis.Stable.Memcpy.{OffsetsFit}
use dg.PointerAnalysis.Nulls.{HasNulls}
use dg.PointerAnalysis.Closed
use dg.PointerAnalysis.Iterate
use dg.PointerAnalysis.Bounds

-- The nodes 1 and 2 are allocations, 3 stores the address of 1 to 2, and 4 loads it from there.
abbrev kinds : ℕ → NodeType
kinds n = if n == 3 then NodeType.store else if n == 4 then NodeType.load else NodeType.alloc

abbrev program : Program
program = record {
  sets = simple_sets;
  graph = record {
    successors = λ n. if n == 3 then 4 ∷ [] else [];
    predecessors = λ n. if n == 4 then 3 ∷ [] else [];
    operands = λ n. if n == 3 then 1 ∷ 2 ∷ [] else if n == 4 then 2 ∷ [] else [];
    users = λ n. if n == 1 then 3 ∷ [] else if n == 2 then 3 ∷ 4 ∷ [] else [];
  };
  node_type = kinds;
  node_size = λ n. 8;
  is_heap = λ n. false;
  is_global = λ n. false;
  len = λ n. unknown;
  unknown_memory = 11;
  null_ptr = 10;
  invalidated_node = 12;
  field_sensitivity = unknown;
  invalidate_nodes = false;
  preprocess_geps = true;
}

-- The set of one pointer.
abbrev just : ℕ → simple_sets.Carrier
just n = (record { target = n; offset = 0 } ∷ [], (tt, tt))

-- The fixpoint.
abbrev settled : State program
settled = record {
  points_to = λ n. if n == 2 then just 2 else just 1;
  objects = λ n. if n == 2 then (0, just 1) ∷ [] else [];
  memory_objects = 2 ∷ [];
  zero_initialized = λ n. false;
  parents = λ n. 0;
  gep_offset = λ n. 0;
}

settled-OffsetsFit : OffsetsFit program settled
settled-OffsetsFit o =
    if-branch (All (λ e. e.0 < 2 ^ 64)) (o == 2) (λ e. (omega arith, tt)) (λ e. tt)

-- The state that a step gives, if it gives one.
abbrev state_of {ℓ} : {C : Type ℓ} → Option (State program × C) → State program
state_of none = settled
state_of (some (t, c)) = t

abbrev after_load : State program
after_load = state_of (process_node program 4 settled)

load_is_quiet : process_node program 4 settled ≡ some (after_load, false)
unfolding process_node process_type process_load load_pointer load_object load_entry each both
    get_memory_objects allocation add_pointers Simple.union Simple.union_loop
load_is_quiet = refl

process_node-IsClosed_example :
    IsClosed program NodeType.load 4 after_load
    × HasNulls program NodeType.load settled.zero_initialized 4 after_load
process_node-IsClosed_example =
    Closed.process_node-IsClosed program simple_laws 4 settled after_load settled-OffsetsFit
      load_is_quiet

process_node_grows_example :
    (implies
        (covers (node_pointers program settled 4) (record { target = 1; offset = 0 }))
        (covers (node_pointers program after_load 4) (record { target = 1; offset = 0 }))
      ≡ true)
    × (implies
          (covers (cell_pointers program settled 2 0) (record { target = 1; offset = 0 }))
          (covers (cell_pointers program after_load 2 0) (record { target = 1; offset = 0 }))
        ≡ true)
process_node_grows_example =
    Closed.process_node_grows program simple_laws 4 settled after_load false 4 2 0
      (record { target = 1; offset = 0 }) load_is_quiet

after_round : State program
after_round = state_of (iterate program (3 ∷ 4 ∷ []) settled)

round_is_quiet : iterate program (3 ∷ 4 ∷ []) settled ≡ some (after_round, [])
unfolding after_round iterate process_node process_type process_load load_pointer load_object
    load_entry process_store store_pointer each both get_memory_objects allocation add_pointers
    add_pointers_at Simple.union Simple.union_loop
round_is_quiet = refl

iterate-IsClosed_example :
    All
      (λ n.
        IsClosed program (program.node_type n) n after_round
        × HasNulls program (program.node_type n) settled.zero_initialized n after_round)
      (3 ∷ 4 ∷ [])
iterate-IsClosed_example =
    Iterate.iterate-IsClosed program simple_laws (3 ∷ 4 ∷ []) settled after_round settled-OffsetsFit
      round_is_quiet

copied_offset_lem_example :
    (copied_offset program 4 0 2 6 ≡ unknown)
    ⊎ ((4 + copied_offset program 4 0 2 6 ≡ 0 + 6)
        × (copied_offset program 4 0 2 6 < 8)
        × (copied_offset program 4 0 2 6 < unknown))
copied_offset_lem_example =
    Bounds.copied_offset_lem program 4 0 unknown 2 6 (omega arith) (omega arith) (omega arith)
      (unfold is_copied in ground arith)

abbrev pointer_to_one : Pointer
pointer_to_one = record { target = 1; offset = 4 }

gep_result_lem_example :
    ((gep_result program pointer_to_one 2).target ≡ 1)
    × (((gep_result program pointer_to_one 2).offset ≡ unknown)
        ⊎ (((is_unknown 4 || is_unknown 2) ≡ false)
            × ((gep_result program pointer_to_one 2).offset ≡ (4 + 2) % 2 ^ 64)
            × (((gep_result program pointer_to_one 2).offset ≡ 0)
                ⊎ ((gep_result program pointer_to_one 2).offset < 8))
            × ((gep_result program pointer_to_one 2).offset < unknown)))
gep_result_lem_example = Bounds.gep_result_lem program pointer_to_one 2
