-- ===== src/Subgraph.antt =====
-- include/dg/analysis/SubgraphNode.h: the edges and operands of the nodes of a graph. The vectors of
-- all nodes are one store, from the number of a node to its vector.
pub mod Edges
pub mod Insert
pub mod Isolate
pub mod Replace
pub mod Users
use dg.Base.{ℕ, Bool, true, false, not, ◌||◌, List, [], ◌∷◌, ◌++◌, Option, none, some}
use dg.Base.{◌==◌, if◌then◌else◌, has_elem, without, replace, length}
use dg.Base.Sets.{insert}

abbrev pub Store : Type 0
Store = ℕ → List ℕ

-- A write to the vector of a node.
abbrev pub put_at : Store → ℕ → List ℕ → Store
put_at f k v n = if k == n then v else f n

pub record Subgraph : Type 0 where
  pub successors : Store
  pub predecessors : Store
  pub operands : Store
  pub users : Store

-- `addSuccessor` of the node `n`
unfoldable pub add_successor : ℕ → ℕ → Subgraph → Subgraph
add_successor n succ g = record g {
  successors = put_at g.successors n (g.successors n ++ succ ∷ []);
  predecessors = put_at g.predecessors succ (g.predecessors succ ++ n ∷ []);
}

-- `getSingleSuccessorOrNull`, and `getSingleSuccessor` where there is one
unfoldable pub single : List ℕ → Option ℕ
single (x ∷ []) = some x
single xs = none

-- `replaceSingleSuccessor`; the assertion demands that there is one successor.
unfoldable pub replace_single_successor : ℕ → ℕ → Subgraph → Subgraph
unfolding add_successor single
replace_single_successor n succ g = elim (single (g.successors n)) [
  | none ↦ g
  | some old ↦ add_successor n succ (record g {
    successors = put_at g.successors n [];
    predecessors = put_at g.predecessors old (without n (g.predecessors old));
  })
]

-- A loop that writes to the vector of each node of a list.
unfoldable pub for_each : (List ℕ → List ℕ) → List ℕ → Store → Store
for_each f [] s = s
for_each f (x ∷ xs) s = for_each f xs (put_at s x (f (s x)))

-- `insertAfter` of the node `n` after the node `m`
unfoldable pub insert_after : ℕ → ℕ → Subgraph → Subgraph
unfolding add_successor for_each
insert_after n m g =
    let swapped = record g {
      successors = put_at (put_at g.successors n (g.successors m)) m (g.successors n);
    } in
    let linked = add_successor m n swapped in
    record linked {
      predecessors = for_each (replace m n) (linked.successors n) linked.predecessors;
    }

-- `insertBefore` of the node `n` before the node `m`
unfoldable pub insert_before : ℕ → ℕ → Subgraph → Subgraph
unfolding add_successor for_each
insert_before n m g =
    let swapped = record g {
      predecessors = put_at (put_at g.predecessors n (g.predecessors m)) m (g.predecessors n);
    } in
    let linked = add_successor n m swapped in
    record linked { successors = for_each (replace m n) (linked.predecessors n) linked.successors }

-- The inner and the outer loop that connect predecessors to successors.
unfoldable pub connect_to : ℕ → List ℕ → Subgraph → Subgraph
unfolding add_successor
connect_to pred [] g = g
connect_to pred (succ ∷ succs) g = connect_to pred succs (add_successor pred succ g)

unfoldable pub connect : List ℕ → List ℕ → Subgraph → Subgraph
unfolding connect_to
connect [] succs g = g
connect (pred ∷ preds) succs g = connect preds succs (connect_to pred succs g)

-- The first two loops of `isolate`
unfoldable pub detach : ℕ → Subgraph → Subgraph
unfolding for_each
detach n g =
    let cut = record g { successors = for_each (without n) (g.predecessors n) g.successors } in
    record cut { predecessors = for_each (without n) (cut.successors n) cut.predecessors }

-- `isolate`
unfoldable pub isolate : ℕ → Subgraph → Subgraph
isolate n g =
    let detached = detach n g in
    let joined = connect (detached.predecessors n) (detached.successors n) detached in
    record joined {
      successors = put_at joined.successors n [];
      predecessors = put_at joined.predecessors n [];
    }

-- `addUser`
unfoldable pub add_user : ℕ → ℕ → Subgraph → Subgraph
add_user n user g =
    if has_elem user (g.users n)
    then g
    else record g { users = put_at g.users n (g.users n ++ user ∷ []) }

-- `std::find` with `erase`: the first occurrence is taken out.
abbrev pub erase_first : ℕ → List ℕ → List ℕ
erase_first a [] = []
erase_first a (x ∷ xs) = if x == a then xs else x ∷ erase_first a xs

-- `removeUser`
unfoldable pub remove_user : ℕ → ℕ → Subgraph → Subgraph
remove_user n user g = record g { users = put_at g.users n (erase_first user (g.users n)) }

-- `addOperand`
unfoldable pub add_operand : ℕ → ℕ → Subgraph → Subgraph
add_operand n operand g =
    add_user operand n (record g { operands = put_at g.operands n (g.operands n ++ operand ∷ []) })

-- The loop of `removeAllOperands`
unfoldable pub remove_users : ℕ → List ℕ → Subgraph → Subgraph
remove_users n [] g = g
remove_users n (operand ∷ operands) g = remove_users n operands (remove_user operand n g)

-- `removeAllOperands`
unfoldable pub remove_all_operands : ℕ → Subgraph → Subgraph
remove_all_operands n g =
    let removed = remove_users n (g.operands n) g in
    record removed { operands = put_at removed.operands n [] }

-- `std::set` of the operands, in the order of the nodes
abbrev pub set_of : List ℕ → List ℕ
set_of [] = []
set_of (x ∷ xs) = insert x (set_of xs)

-- `removeDuplicitOperands`: the new operands, and whether one was there twice.
unfoldable pub remove_duplicit_operands : ℕ → Subgraph → Subgraph × Bool
remove_duplicit_operands n g =
    let ops = set_of (g.operands n) in
    if length ops == length (g.operands n)
    then (g, false)
    else (record g { operands = put_at g.operands n ops }, true)

-- The inner loop of `replaceAllUsesWith` over the operands of a user
unfoldable pub replace_operand : ℕ → ℕ → ℕ → Subgraph → Subgraph
replace_operand n new user g =
    if has_elem n (g.operands user)
    then add_user new user
        (record g { operands = put_at g.operands user (replace n new (g.operands user)) })
    else g

-- A round of the loop of `replaceAllUsesWith`
unfoldable pub replace_use : ℕ → ℕ → Bool → ℕ → Subgraph → Subgraph
replace_use n new remove_dupl user g =
    let replaced = replace_operand n new user g in
    if remove_dupl then (remove_duplicit_operands user replaced).0 else replaced

unfoldable pub replace_uses : ℕ → ℕ → Bool → List ℕ → Subgraph → Subgraph
replace_uses n new remove_dupl [] g = g
replace_uses n new remove_dupl (user ∷ users) g =
    replace_uses n new remove_dupl users (replace_use n new remove_dupl user g)

-- `replaceAllUsesWith`
unfoldable pub replace_all_uses_with : ℕ → ℕ → Bool → Subgraph → Subgraph
replace_all_uses_with n new remove_dupl g =
    let replaced = replace_uses n new remove_dupl (g.users n) g in
    record replaced { users = put_at replaced.users n [] }
