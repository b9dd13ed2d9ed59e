-- ===== src/Samples/Slices.antt =====
-- The marking of slices at concrete inputs.
use dg.Base.{
  ℕ, ◌≡◌, ◌<◌, Bool, true, false, some, none, [], ◌∷◌, ◌==◌, ◌⊎◌, has_elem, if◌then◌else◌, arith,
}
use dg.Slicing.{Dependences, Slices, next_nodes, edges, entry_of, block_cds, block_rev_cds, mark}
use dg.Slicing.Mark
use dg.Slicing.Listed.{Marks}
use dg.Slicing.Depends.{Needs, IsAffected, IsNode, BranchOf}

-- Data goes from 1 to 2 to 3; 2 is in the block 5, which depends on the block 6 that ends with 4.
abbrev chain : Dependences
chain = record {
  control = λ n. [];
  rev_control = λ n. [];
  data_deps = λ n. if n == 1 then 2 ∷ [] else if n == 2 then 3 ∷ [] else [];
  rev_data = λ n. if n == 2 then 1 ∷ [] else if n == 3 then 2 ∷ [] else [];
  user = λ n. [];
  interference = λ n. [];
  rev_interference = λ n. [];
  block = λ n. if n == 2 then some 5 else none;
  graph = λ n. some 0;
  entry = λ g. 0;
  control_deps = λ b. [];
  rev_control_deps = λ b. if b == 5 then 6 ∷ [] else [];
  first_node = λ b. 4;
  last_node = λ b. 4;
}

abbrev unmarked : Slices
unmarked = record {
  node_slice = λ n. 0;
  block_slice = λ b. 0;
  graph_slice = λ g. 0;
  marked_blocks = [];
}

chain_small : (forward : Bool) (u v : ℕ) → has_elem v (next_nodes chain forward u) ≡ true → v < 5
unfolding next_nodes edges entry_of block_cds block_rev_cds
chain_small true u v h = ground arith
chain_small false u v h = ground arith

mark_backward_example :
    (t : Slices) × (mark chain false 1 5 2 unmarked ≡ some t)
    × Marks chain (Needs chain (IsNode 2)) 1 unmarked t
mark_backward_example =
    Mark.mark_backward chain 5 1 5 2 unmarked (chain_small false) (omega arith) (omega arith)

chain_branches : (b c : ℕ) → has_elem c (chain.rev_control_deps b) ≡ true → chain.last_node c < 5
chain_branches b c h = omega arith

mark_forward_example :
    (t : Slices) × (mark chain true 1 5 2 unmarked ≡ some t)
    × Marks chain
        (λ v. IsAffected chain 2 v ⊎ Needs chain (BranchOf chain (IsAffected chain 2)) v)
        1
        unmarked
        t
mark_forward_example =
    Mark.mark_forward chain 5 1 5 2 unmarked chain_small chain_branches (omega arith) (omega arith)
