-- ===== src/Samples/Graphs.antt =====
-- The edits of a graph at concrete inputs: include/dg/analysis/SubgraphNode.h.
use dg.Base.{
  ℕ, ◌≡◌, refl, true, List, [], ◌∷◌, ◌==◌, if◌then◌else◌, ◌||◌, ◌+◌, ◌*◌, count, has_elem, replace,
  arith,
}
use dg.Subgraph.{Subgraph, Store, insert_after, isolate, replace_all_uses_with}
use dg.Subgraph.Edges.{Mirrors}
use dg.Subgraph.Insert
use dg.Subgraph.Isolate
use dg.Subgraph.Replace
use dg.Subgraph.Users.{UsersMirror}

-- A list for one node, and nothing for the others.
abbrev at : ℕ → List ℕ → Store
at n xs m = if n == m then xs else []

-- The nodes 1, 2 and 3 in a row; 3 uses 1 twice, and node 4 has no edges.
abbrev row : Subgraph
row = record {
  successors = λ n. if 1 == n then 2 ∷ [] else at 2 (3 ∷ []) n;
  predecessors = λ n. if 2 == n then 1 ∷ [] else at 3 (2 ∷ []) n;
  operands = at 3 (1 ∷ 1 ∷ []);
  users = at 1 (3 ∷ []);
}

row-Mirrors : Mirrors row
row-Mirrors a b = ground arith

row-UsersMirror : UsersMirror row
row-UsersMirror a u = ground arith

insert_after_lem_example :
    Mirrors (insert_after 4 1 row)
    × ((a b : ℕ)
        → count b ((insert_after 4 1 row).successors a) ≡ (
            if a == 1
            then (if 4 == b then 1 else 0)
            else if a == 4
            then count b (row.successors 1)
            else count b (row.successors a)))
insert_after_lem_example = Insert.insert_after_lem 4 1 row (omega arith) refl refl row-Mirrors

isolate_lem_example :
    Mirrors (isolate 2 row)
    × ((a b : ℕ)
        → count b ((isolate 2 row).successors a) ≡ (
            if a == 2 || b == 2
            then 0
            else count b (row.successors a)
              + count 2 (row.successors a) * count b (row.successors 2)))
isolate_lem_example = Isolate.isolate_lem 2 row row-Mirrors refl

replace_all_uses_with_lem_example :
    UsersMirror (replace_all_uses_with 1 2 true row)
    × ((a u : ℕ)
        → has_elem a ((replace_all_uses_with 1 2 true row).operands u)
          ≡ has_elem a (replace 1 2 (row.operands u)))
replace_all_uses_with_lem_example =
    Replace.replace_all_uses_with_lem 1 2 (omega arith) true row row-UsersMirror
