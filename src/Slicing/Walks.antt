-- ===== src/Slicing/Walks.antt =====
-- Slicing.h: the walk that marks, and the two walks of a forward slice.
use dg.Base.{
  ℕ, ◌≤◌, ◌<◌, ◌≡◌, refl, sym, ◌∙◌, ap, subst, Bool, true, false, Option, none, some, List, [], ◌∷◌,
  ◌++◌, ◌↔◌, ◌⊎◌, has_elem, arith, inl, inr, Bool-cases, has_elem-append,
}
use mathlib.Core.Bool.{So-prop}
use mathlib.Core.Logic.{∥∥₁_elim}
use dg.Adt.Queue.{fifo}
use dg.Walk.{nothing_done, offer}
use dg.Walk.Reach.{Reach, offer-Offered, visited-le}
use dg.Walk.Correct.{run_loop-Finishes, nothing_done-Inv}
use dg.Slicing.{Dependences, Slices, map_all, next_nodes, walk_and_mark, branchings, mark}
use dg.Slicing.Marked.{Marked, Marked-nothing, mark_loop-Marked}
use dg.Slicing.Listed.{of_any-true, of_any_search, Leads, Listed}

module _ (D : Dependences) where
  module _ (n : ℕ) (forward : Bool) (id : ℕ)
      (small : (u v : ℕ) → has_elem v (next_nodes D forward u) ≡ true → v < n) where
    -- The walk from small start nodes ends, and marks what the dependences lead to.
    pub walk_and_mark_lem :
        (fuel : ℕ) (starts : List ℕ) (s : Slices)
        → ((v : ℕ) → has_elem v starts ≡ true → v < n)
        → n ≤ fuel
        → (t : Slices) × (called : List ℕ) × (walk_and_mark D forward id fuel starts s ≡ some t)
          × Marked D forward id s called t
          × ((v : ℕ) → (has_elem v called ≡ true) ↔ ∥ Leads D forward starts v ∥₁)
    unfolding walk_and_mark
    walk_and_mark_lem fuel starts s low k =
        let next = next_nodes D forward in
        let start = offer fifo next starts nothing_done in
        let o =
          offer-Offered fifo next starts starts nothing_done (λ v t. Reach.begin v t)
            (nothing_done-Inv fifo next starts n low small) in
        let room = visited-le fifo next starts n low small start o.inv in
        let (end, e, reached) =
          run_loop-Finishes fifo next starts n low small fuel start
            (
              o.inv,
              λ u v t r. cc (ap (has_elem u) o.called_eq, t),
              λ v t. ground (arith, o.visited_eq v),
            )
            (omega (arith, o.work, room)) in
        let (t, h, m) =
          mark_loop-Marked D forward id s fuel start s end
            (subst (λ x. Marked D forward id s x s) (sym o.called_eq)
              (Marked-nothing D forward id s))
            e in
        (t, end.called, h, m, reached)

    pub cleared-Listed :
        (called : List ℕ) (s t : Slices)
        → Marked D forward id (record s { marked_blocks = [] }) called t
        → Listed D id called s t
    cleared-Listed called s t m = record { nodes = m.nodes; blocks = m.blocks; graphs = m.graphs }

  pub mark_back :
      (id fuel start : ℕ) (s t : Slices)
      → walk_and_mark D false id fuel (start ∷ []) (record s { marked_blocks = [] }) ≡ some t
      → mark D false id fuel start s ≡ some t
  unfolding mark
  mark_back id fuel start s t e =
      ap (λ o. elim o as (λ _. Option Slices) [ none ↦ none | some t ↦ some t ]) e

  pub mark_ahead :
      (id fuel start : ℕ) (s t : Slices)
      → walk_and_mark D true id fuel (start ∷ []) (record s { marked_blocks = [] }) ≡ some t
      → mark D true id fuel start s ≡ elim (branchings D t.marked_blocks) as (λ _. Option Slices) [
        | [] ↦ some t
        | n ∷ ns ↦ walk_and_mark D false id fuel (n ∷ ns) (record t { marked_blocks = [] })
      ]
  unfolding mark
  mark_ahead id fuel start s t e =
      ap
        (λ o. elim o as (λ _. Option Slices) [
          | none ↦ none
          | some t ↦ elim (branchings D t.marked_blocks) as (λ _. Option Slices) [
            | [] ↦ some t
            | n ∷ ns ↦ walk_and_mark D false id fuel (n ∷ ns) (record t { marked_blocks = [] })
          ]
        ])
        e

  pub mark_ahead_none :
      (id fuel start : ℕ) (s t : Slices)
      → walk_and_mark D true id fuel (start ∷ []) (record s { marked_blocks = [] }) ≡ some t
      → branchings D t.marked_blocks ≡ []
      → mark D true id fuel start s ≡ some t
  mark_ahead_none id fuel start s t e z = mark_ahead id fuel start s t e ∙ rw z refl

  pub mark_ahead_more :
      (id fuel start n : ℕ) (ns : List ℕ) (s t u : Slices)
      → walk_and_mark D true id fuel (start ∷ []) (record s { marked_blocks = [] }) ≡ some t
      → branchings D t.marked_blocks ≡ n ∷ ns
      → walk_and_mark D false id fuel
          (branchings D t.marked_blocks)
          (record t { marked_blocks = [] })
        ≡ some u
      → mark D true id fuel start s ≡ some u
  mark_ahead_more id fuel start n ns s t u e z h = mark_ahead id fuel start s t e ∙ rw z (rw z at h)

  pub Leads-nowhere : (forward : Bool) (v : ℕ) → ¬ Leads D forward [] v
  Leads-nowhere forward v (Reach.begin w t) = cc
  Leads-nowhere forward v (Reach.step u w r t) = Leads-nowhere forward u r

  pub either_iff :
      (xs ys : List ℕ) (P Q : ℕ → Type 0)
      → ((v : ℕ) → (has_elem v xs ≡ true) ↔ ∥ P v ∥₁)
      → ((v : ℕ) → (has_elem v ys ≡ true) ↔ ∥ Q v ∥₁)
      → (v : ℕ) → (has_elem v (xs ++ ys) ≡ true) ↔ ∥ P v ⊎ Q v ∥₁
  either_iff xs ys P Q a b v = (
    λ h. elim (Bool-cases (has_elem v xs)) [
      | inl t ↦ ∥∥₁_elim ((a v).0 t) (hlevel) (λ p. ∣ inl p ∣₁)
      | inr t ↦
          ∥∥₁_elim ((b v).0 (ground (arith, has_elem-append v xs ys))) (hlevel) (λ q. ∣ inr q ∣₁)
    ],
    λ t. ∥∥₁_elim t (So-prop _) (λ r. elim r [
      | inl p ↦ ground (arith, has_elem-append v xs ys, (a v).1 ∣ p ∣₁)
      | inr q ↦ ground (arith, has_elem-append v xs ys, (b v).1 ∣ q ∣₁)
    ]),
  )

  -- The blocks of the nodes that a forward walk leads to.
  abbrev pub BlocksOf : ℕ → List ℕ → Type 0
  BlocksOf start blocks =
      (b : ℕ)
      → (has_elem b blocks ≡ true)
        ↔ ∥ ((v : ℕ) × Leads D true (start ∷ []) v × (D.block v ≡ some b)) ∥₁

  pub marks-BlocksOf :
      (id start : ℕ) (s t : Slices) (called : List ℕ)
      → Marked D true id (record s { marked_blocks = [] }) called t
      → ((v : ℕ) → (has_elem v called ≡ true) ↔ ∥ Leads D true (start ∷ []) v ∥₁)
      → BlocksOf start t.marked_blocks
  marks-BlocksOf id start s t called m same b = (
    λ h.
        let (v, t', e) = of_any_search D.block b called (ground (arith, m.marks b)) in
        ∥∥₁_elim ((same v).0 t') (hlevel) (λ p. ∣ (v, p, e) ∣₁),
    λ h. ∥∥₁_elim h (So-prop _) (λ (v, p, e).
        ground (arith, m.marks b, of_any-true D.block b v called ((same v).1 ∣ p ∣₁) e)),
  )

  pub has_elem-map_all :
      (f : ℕ → ℕ) (n : ℕ) (xs : List ℕ)
      → ((x : ℕ) → has_elem x xs ≡ true → f x < n)
      → (v : ℕ) → has_elem v (map_all f xs) ≡ true
      → v < n
  has_elem-map_all f n [] h v t = cc
  has_elem-map_all f n (x ∷ xs) h v t =
      ground (arith, h x, has_elem-map_all f n xs (λ y u. h y (ground arith)) v)

  pub branchings_small :
      (n : ℕ)
      → ((b c : ℕ) → has_elem c (D.rev_control_deps b) ≡ true → D.last_node c < n)
      → (bs : List ℕ) (v : ℕ) → has_elem v (branchings D bs) ≡ true
      → v < n
  unfolding branchings
  branchings_small n h [] v t = cc
  branchings_small n h (b ∷ bs) v t =
      let here = map_all D.last_node (D.rev_control_deps b) in
      elim (Bool-cases (has_elem v here)) [
        | inl u ↦ has_elem-map_all D.last_node n (D.rev_control_deps b) (h b) v u
        | inr u ↦
            branchings_small n h bs v (ground (arith, has_elem-append v here (branchings D bs)))
      ]
