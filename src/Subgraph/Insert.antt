-- ===== src/Subgraph/Insert.antt =====
-- SubgraphNode.h: `insertAfter` and `insertBefore`.
use dg.Base.{ℕ, ◌+◌, ◌≡◌, ◌≢◌, refl, sym, ap, ◌&&◌, List, []}
use dg.Base.{◌==◌, if◌then◌else◌, replace, count, count-replace, has_elem-count, arith}
use dg.Subgraph.{Store, put_at, Subgraph, add_successor, insert_after, insert_before}
use dg.Subgraph.Edges.{Mirrors, successors-add_successor, predecessors-add_successor, for_each_lem}

replace_twice :
    (a b c : ℕ) (xs : List ℕ)
    → a ≢ b
    → count c (replace a b (replace a b xs)) ≡ count c (replace a b xs)
replace_twice a b c xs h = ground (
  arith,
  count-replace a b c (replace a b xs) h,
  count-replace a b c xs h,
  count-replace a b a xs h,
  count-replace a b b xs h,
)

-- The vectors of two nodes are exchanged.
abbrev swapped : ℕ → ℕ → Store → Store
swapped n m s = put_at (put_at s n (s m)) m (s n)

swapped_lem :
    (n m : ℕ) (s : Store) (a b : ℕ)
    → count b (swapped n m s a)
      ≡ (if a == m then count b (s n) else if a == n then count b (s m) else count b (s a))
swapped_lem n m s a b = ground arith

-- The graph behind the first two steps of an insertion after a node.
abbrev linked_after : ℕ → ℕ → Subgraph → Subgraph
linked_after n m g = add_successor m n (record g { successors = swapped n m g.successors })

module _ (n m : ℕ) (g : Subgraph) (apart : n ≢ m) (no_succ : g.successors n ≡ [])
    (no_pred : g.predecessors n ≡ []) (mir : Mirrors g) where
  successors-insert_after :
      (a b : ℕ)
      → count b ((insert_after n m g).successors a) ≡ (
          if a == m
          then (if n == b then 1 else 0)
          else if a == n
          then count b (g.successors m)
          else count b (g.successors a))
  unfolding insert_after
  successors-insert_after a b =
      let link =
        successors-add_successor m n a b (record g { successors = swapped n m g.successors }) in
      ground (arith, link, swapped_lem n m g.successors a b, ap (count b) no_succ)

  predecessors-insert_after :
      (a b : ℕ)
      → count a ((insert_after n m g).predecessors b) ≡ (
          if count b (g.successors m) == 0
          then count a (g.predecessors b) + (if m == a && n == b then 1 else 0)
          else count a (replace m n ((linked_after n m g).predecessors b)))
  unfolding insert_after
  predecessors-insert_after a b =
      let moved =
        for_each_lem (replace m n) a (λ xs. replace_twice m n a xs (λ e. apart (sym e)))
          ((linked_after n m g).successors n) (linked_after n m g).predecessors b in
      let link =
        successors-add_successor m n n b (record g { successors = swapped n m g.successors }) in
      let back =
        predecessors-add_successor m n a b (record g { successors = swapped n m g.successors }) in
      ground (
        arith,
        moved,
        link,
        back,
        has_elem-count b ((linked_after n m g).successors n),
        swapped_lem n m g.successors n b,
      )

  -- The predecessors of a node behind the first two steps.
  linked_predecessors :
      (a b : ℕ)
      → count a ((linked_after n m g).predecessors b)
        ≡ count a (g.predecessors b) + (if m == a && n == b then 1 else 0)
  linked_predecessors a b =
      predecessors-add_successor m n a b (record g { successors = swapped n m g.successors })

  insert_after-Mirrors : Mirrors (insert_after n m g)
  insert_after-Mirrors a b = ground (
    arith,
    successors-insert_after a b,
    predecessors-insert_after a b,
    count-replace m n a ((linked_after n m g).predecessors b) (λ e. apart (sym e)),
    linked_predecessors n b,
    linked_predecessors m b,
    linked_predecessors a b,
    mir a b,
    mir n b,
    mir m b,
    ap (count b) no_succ,
    ap (count a) no_pred,
    mir m n,
    mir a n,
    ap (count m) no_pred,
  )

  -- Inserting a node without edges after another node, where the predecessors mirror the
  -- successors, keeps the mirror; the new node is the only successor of the other one and has the
  -- successors that it had, and the successors of all other nodes stay.
  pub insert_after_lem :
      Mirrors (insert_after n m g)
      × ((a b : ℕ)
          → count b ((insert_after n m g).successors a) ≡ (
              if a == m
              then (if n == b then 1 else 0)
              else if a == n
              then count b (g.successors m)
              else count b (g.successors a)))
  insert_after_lem = (insert_after-Mirrors, successors-insert_after)

-- The graph with all edges turned round.
abbrev flipped : Subgraph → Subgraph
flipped g = record g { successors = g.predecessors; predecessors = g.successors }

flipped-insert_after :
    (n m : ℕ) (g : Subgraph) → insert_before n m g ≡ flipped (insert_after n m (flipped g))
unfolding insert_before insert_after add_successor
flipped-insert_after n m g = refl

-- Inserting a node without edges before another node, where the predecessors mirror the successors,
-- keeps the mirror; the new node is the only predecessor of the other one and has the predecessors
-- that it had.
pub insert_before_lem :
    (n m : ℕ) (g : Subgraph)
    → n ≢ m
    → g.successors n ≡ []
    → g.predecessors n ≡ []
    → Mirrors g
    → Mirrors (insert_before n m g)
      × ((a b : ℕ)
          → count b ((insert_before n m g).predecessors a) ≡ (
              if a == m
              then (if n == b then 1 else 0)
              else if a == n
              then count b (g.predecessors m)
              else count b (g.predecessors a)))
insert_before_lem n m g apart no_succ no_pred mir =
    let (kept, edges) =
      insert_after_lem n m (flipped g) apart no_pred no_succ (λ a b. sym (mir b a)) in
    rw (flipped-insert_after n m g) (λ a b. sym (kept b a), edges)
