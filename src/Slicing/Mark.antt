-- ===== src/Slicing/Mark.antt =====
-- Slicing.h: `mark`, and what it marks.
use dg.Base.{
  ◌↔◌, Bool-cases, has_elem-append, ℕ, ◌≤◌, ◌<◌, ◌≡◌, subst, Bool, true, false, some, List, [], ◌∷◌,
  ◌++◌, ◌⊎◌, has_elem, arith, List-cases, inl, inr,
}
use mathlib.Core.Bool.{So-prop}
use mathlib.Core.Logic.{∥∥₁_elim}
use dg.Slicing.{Dependences, Slices, next_nodes, branchings, mark}
use dg.Slicing.Listed.{Leads, Marks, Listed-append, Listed-Marks}
use dg.Slicing.Walks.{
  walk_and_mark_lem, cleared-Listed, mark_back, mark_ahead_none, mark_ahead_more, Leads-nowhere,
  either_iff, marks-BlocksOf, branchings_small,
}
use dg.Slicing.Depends.{
  Needs, IsAffected, IsNode, BranchOf, backward_iff, backward_one_iff, forward_iff, branchings_iff,
}

module _ (D : Dependences) where
  -- What a walk called, by the property that the dependences describe.
  called_iff :
      {P Q : ℕ → Type 0} (called : List ℕ)
      → ((v : ℕ) → (has_elem v called ≡ true) ↔ ∥ P v ∥₁)
      → ((v : ℕ) → ∥ P v ∥₁ ↔ ∥ Q v ∥₁)
      → (v : ℕ) → (has_elem v called ≡ true) ↔ ∥ Q v ∥₁
  called_iff called a b v = (λ h. (b v).0 ((a v).0 h), λ t. (a v).1 ((b v).1 t))

  -- Where all nodes are numbers below `n`, and the fuel is `n` or more, marking for a backward slice
  -- ends, and gives the slice id to exactly the nodes that the start depends on in any number of
  -- steps (by control, itself or by its block, by data, as a user, or by interference either way),
  -- where the entry of its graph counts as one that a node depends on; and to the blocks and the
  -- graphs of these nodes. All other slice ids stay.
  pub mark_backward :
      (n id fuel start : ℕ) (s : Slices)
      → ((u v : ℕ) → has_elem v (next_nodes D false u) ≡ true → v < n)
      → start < n
      → n ≤ fuel
      → (t : Slices) × (mark D false id fuel start s ≡ some t)
        × Marks D (Needs D (IsNode start)) id s t
  mark_backward n id fuel start s small low k =
      let (t, called, e, m, same) =
        walk_and_mark_lem D n false id small fuel (start ∷ []) (record s { marked_blocks = [] })
          (λ v h. ground arith) k in
      (
        t,
        mark_back D id fuel start s t e,
        Listed-Marks D id called s t (Needs D (IsNode start))
            (called_iff called same (backward_one_iff D start))
            (cleared-Listed D n false id small called s t m),
      )

  -- Where all nodes are numbers below `n`, and the fuel is `n` or more, marking for a forward slice
  -- ends, and gives the slice id to exactly the nodes that the start affects in any number of steps
  -- (by control, itself or as the first node of a block, by data, or by interference), and to those
  -- that a backward slice keeps for the last nodes of the blocks that the blocks of the affected nodes
  -- are control dependent on; and to the blocks and the graphs of all these nodes. All other slice
  -- ids stay.
  pub mark_forward :
      (n id fuel start : ℕ) (s : Slices)
      → ((forward : Bool) (u v : ℕ) → has_elem v (next_nodes D forward u) ≡ true → v < n)
      → ((b c : ℕ) → has_elem c (D.rev_control_deps b) ≡ true → D.last_node c < n)
      → start < n
      → n ≤ fuel
      → (t : Slices) × (mark D true id fuel start s ≡ some t)
        × Marks D (λ v. IsAffected D start v ⊎ Needs D (BranchOf D (IsAffected D start)) v) id s t
  mark_forward n id fuel start s small low_branch low k =
      let (t, called, e, m, same) =
        walk_and_mark_lem D n true id (small true) fuel (start ∷ [])
          (record s { marked_blocks = [] }) (λ v h. ground arith) k in
      let bs = branchings D t.marked_blocks in
      let (u, called', e', m', same') =
        walk_and_mark_lem D n false id (small false) fuel bs (record t { marked_blocks = [] })
          (branchings_small D n low_branch t.marked_blocks) k in
      let first = cleared-Listed D n true id (small true) called s t m in
      let second = cleared-Listed D n false id (small false) called' t u m' in
      let blocks = marks-BlocksOf D id start s t called m same in
      let begins = branchings_iff D start t.marked_blocks blocks in
      let ahead = called_iff called same (forward_iff D start) in
      let back =
        called_iff called' same' (backward_iff D bs (BranchOf D (IsAffected D start)) begins) in
      let both =
        either_iff D called called' (IsAffected D start) (Needs D (BranchOf D (IsAffected D start)))
          ahead back in
      let P = λ (v : ℕ). IsAffected D start v ⊎ Needs D (BranchOf D (IsAffected D start)) v in
      elim (List-cases bs) [
        | inl z ↦ (
          t,
          mark_ahead_none D id fuel start s t e z,
          Listed-Marks D id called s t P
              (λ v. (
                λ h. ∥∥₁_elim ((ahead v).0 h) (hlevel) (λ p. ∣ inl p ∣₁),
                λ h. elim (Bool-cases (has_elem v called)) [
                  | inl c ↦ c
                  | inr c ↦
                      let there = (both v).1 h in
                      let behind : has_elem v called' ≡ true =
                        ground (arith, has_elem-append v called called') in
                      ∥∥₁_elim ((same' v).0 behind) (So-prop _)
                        (λ q. absurd (Leads-nowhere D false v (subst (λ x. Leads D false x v) z q)))
                ],
              ))
              first,
        )
        | inr (x, xs, z) ↦ (
          u,
          mark_ahead_more D id fuel start x xs s t u e z e',
          Listed-Marks D id (called ++ called') s u P both
              (Listed-append D id called called' s t u first second),
        )
      ]
