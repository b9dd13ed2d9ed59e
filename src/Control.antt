-- ===== src/Control.antt =====
-- include/dg/analysis/ControlExpression/CENode.h: expressions over the labels of blocks, their
-- simplification, and the sets of labels that every run or some run of an expression visits.
-- Labels are numbers; a set of nodes that is compared by labels is the ascending list of the labels.
pub mod Words
pub mod Simplify
pub mod Normal
pub mod Labels
pub mod Describes
pub mod Sets
pub mod Exact
pub mod Cfa
use dg.Base.{ℕ, Bool, true, false, not, Option, none, some, List, [], ◌∷◌, has_elem, if◌then◌else◌}
use dg.Base.Sets.{insert}

-- `CELabel`, `CESeq`, `CEBranch`, `CELoop` and `CEEps`, with the list of children
mutual
  pub data CeNode : Type 0 where
    label : ℕ → CeNode
    seq : CeNodes → CeNode
    branch : CeNodes → CeNode
    loop : CeNodes → CeNode
    eps : CeNode

  pub data CeNodes : Type 0 where
    nil : CeNodes
    cons : CeNode → CeNodes → CeNodes

-- `CENodeType`
pub data CeNodeType : Type 0 where
  label_type seq_type branch_type loop_type eps_type : CeNodeType

abbrev pub append : CeNodes → CeNodes → CeNodes
append nil ds = ds
append (cons c cs) ds = cons c (append cs ds)

-- The nodes that take the place of a child in `new_children`, in a node of the given type.
unfoldable pub merged : CeNodeType → CeNode → CeNodes
merged seq_type (seq cs) = cs
merged loop_type (seq cs) = cs
merged t (seq (cons c nil)) = cons c nil
merged seq_type eps = nil
merged t c = cons c nil

-- The loop of `simplify` over the children.
unfoldable pub new_children : CeNodeType → CeNodes → CeNodes
new_children t nil = nil
new_children t (cons c cs) = append (merged t c) (new_children t cs)

-- `simplify`
unfoldable mutual
  pub simplify : CeNode → CeNode
  simplify (label l) = label l
  simplify (seq cs) = seq (new_children seq_type (simplify_all cs))
  simplify (branch cs) = branch (new_children branch_type (simplify_all cs))
  simplify (loop cs) = loop (new_children loop_type (simplify_all cs))
  simplify eps = eps

  pub simplify_all : CeNodes → CeNodes
  simplify_all nil = nil
  simplify_all (cons c cs) = cons (simplify c) (simplify_all cs)

-- `alwaysVisits` and `sometimesVisits`
pub record Visits : Type 0 where
  pub always : List ℕ
  pub sometimes : List ℕ

-- The elements of the first set that the second one has, and that it does not have:
-- `std::set_intersection` and `std::set_difference`.
unfoldable pub intersection : List ℕ → List ℕ → List ℕ
intersection [] ys = []
intersection (x ∷ xs) ys = let rest = intersection xs ys in if has_elem x ys then x ∷ rest else rest

unfoldable pub difference : List ℕ → List ℕ → List ℕ
difference [] ys = []
difference (x ∷ xs) ys = let rest = difference xs ys in if has_elem x ys then rest else x ∷ rest

-- The loops that insert all elements, and those that `alwaysVisits` does not have.
unfoldable pub insert_visits : List ℕ → List ℕ → List ℕ
insert_visits [] out = out
insert_visits (x ∷ xs) out = insert_visits xs (insert x out)

unfoldable pub insert_others : List ℕ → List ℕ → List ℕ → List ℕ
insert_others always [] out = out
insert_others always (x ∷ xs) out =
    insert_others always xs (if has_elem x always then out else insert x out)

-- `pruneSometimesVisits`
unfoldable pub prune : Visits → Visits
unfolding difference
prune v = record v { sometimes = difference v.sometimes v.always }

-- The loop of `CESeq::computeSets` and `CELoop::computeSets` over the children.
unfoldable pub union_visits : List Visits → Visits → Visits
unfolding insert_visits insert_others
union_visits [] v = v
union_visits (c ∷ cs) v =
    let always = insert_visits c.always v.always in
    union_visits cs
      (record { always = always; sometimes = insert_others always c.sometimes v.sometimes })

-- The loops of `CEBranch::computeSets` over the children: `alwaysVisits`, then `sometimesVisits`.
unfoldable pub common_visits : List Visits → List ℕ → List ℕ
unfolding intersection
common_visits [] always = always
common_visits (c ∷ cs) always = common_visits cs (intersection always c.always)

unfoldable pub other_visits : List ℕ → List Visits → List ℕ → List ℕ
unfolding insert_others
other_visits always [] out = out
other_visits always (c ∷ cs) out =
    other_visits always cs (insert_others always c.sometimes (insert_others always c.always out))

-- What is computed from the sets of the children; `none` is the assertion that there are any.
unfoldable pub seq_visits : List Visits → Option Visits
unfolding union_visits prune
seq_visits [] = none
seq_visits (c ∷ cs) = some (prune (union_visits (c ∷ cs) (record { always = []; sometimes = [] })))

unfoldable pub branch_visits : List Visits → Option Visits
unfolding common_visits other_visits prune
branch_visits [] = none
branch_visits (c ∷ cs) =
    let always = common_visits cs c.always in
    some (prune (record { always = always; sometimes = other_visits always (c ∷ cs) [] }))

-- `computeSets`, on nodes whose sets are empty. `CEEps` has the method of the base class, whose
-- assertion fails.
unfoldable mutual
  pub compute_sets : CeNode → Option Visits
  compute_sets (label l) = some (record { always = l ∷ []; sometimes = [] })
  compute_sets (seq cs) = elim (compute_all cs) [ none ↦ none | some vs ↦ seq_visits vs ]
  compute_sets (branch cs) = elim (compute_all cs) [ none ↦ none | some vs ↦ branch_visits vs ]
  compute_sets (loop cs) = elim (compute_all cs) [ none ↦ none | some vs ↦ seq_visits vs ]
  compute_sets eps = none

  pub compute_all : CeNodes → Option (List Visits)
  compute_all nil = some []
  compute_all (cons c cs) = elim (compute_sets c) [
    | none ↦ none
    | some v ↦ elim (compute_all cs) [ none ↦ none | some vs ↦ some (v ∷ vs) ]
  ]
