-- ===== src/Subgraph/Isolate.antt =====
-- SubgraphNode.h: `isolate`.
use dg.Base.{ℕ, ◌+◌, ◌*◌, ◌≡◌, refl, sym, ◌∙◌, ◌||◌, List, [], ◌∷◌}
use dg.Base.{
  ◌==◌, if◌then◌else◌, without, count, count-without, has_elem-count, arith, Bool-cases, inl, inr,
}
use dg.Subgraph.{Subgraph, add_successor, for_each, connect_to, connect, detach, isolate}
use dg.Subgraph.Edges.{
  Mirrors, successors-add_successor, predecessors-add_successor, for_each_lem, without_twice,
}

successors-connect_to :
    (pred : ℕ) (succs : List ℕ) (g : Subgraph) (a b : ℕ)
    → count b ((connect_to pred succs g).successors a)
      ≡ count b (g.successors a) + (if pred == a then count b succs else 0)
unfolding connect_to
successors-connect_to pred [] g a b = ground arith
successors-connect_to pred (x ∷ succs) g a b = ground (
  arith,
  successors-connect_to pred succs (add_successor pred x g) a b,
  successors-add_successor pred x a b g,
)

predecessors-connect_to :
    (pred : ℕ) (succs : List ℕ) (g : Subgraph) (a b : ℕ)
    → count a ((connect_to pred succs g).predecessors b)
      ≡ count a (g.predecessors b) + (if pred == a then count b succs else 0)
unfolding connect_to
predecessors-connect_to pred [] g a b = ground arith
predecessors-connect_to pred (x ∷ succs) g a b = ground (
  arith,
  predecessors-connect_to pred succs (add_successor pred x g) a b,
  predecessors-add_successor pred x a b g,
)

successors-connect :
    (preds succs : List ℕ) (g : Subgraph) (a b : ℕ)
    → count b ((connect preds succs g).successors a)
      ≡ count b (g.successors a) + count a preds * count b succs
unfolding connect
successors-connect [] succs g a b = omega arith
successors-connect (x ∷ preds) succs g a b = grind (
  arith,
  successors-connect preds succs (connect_to x succs g) a b,
  successors-connect_to x succs g a b,
)

predecessors-connect :
    (preds succs : List ℕ) (g : Subgraph) (a b : ℕ)
    → count a ((connect preds succs g).predecessors b)
      ≡ count a (g.predecessors b) + count a preds * count b succs
unfolding connect
predecessors-connect [] succs g a b = omega arith
predecessors-connect (x ∷ preds) succs g a b = grind (
  arith,
  predecessors-connect preds succs (connect_to x succs g) a b,
  predecessors-connect_to x succs g a b,
)

module _ (n : ℕ) (g : Subgraph) (mir : Mirrors g) (no_loop : count n (g.successors n) ≡ 0) where
  successors-detach :
      (a b : ℕ)
      → count b ((detach n g).successors a) ≡ (if b == n then 0 else count b (g.successors a))
  unfolding detach
  successors-detach a b = ground (
    arith,
    for_each_lem (without n) b (without_twice n b) (g.predecessors n) g.successors a,
    count-without n b (g.successors a),
    has_elem-count a (g.predecessors n),
    mir a n,
  )

  predecessors-detach :
      (a b : ℕ)
      → count a ((detach n g).predecessors b) ≡ (if a == n then 0 else count a (g.predecessors b))
  unfolding detach
  predecessors-detach a b = ground (
    arith,
    for_each_lem (without n) a (without_twice n a)
        (for_each (without n) (g.predecessors n) g.successors n) g.predecessors b,
    count-without n a (g.predecessors b),
    has_elem-count b (for_each (without n) (g.predecessors n) g.successors n),
    successors-detach n b,
    mir n b,
    no_loop,
  )

  -- The edges of the graph without the node: those that there were, and one for each pair of an edge
  -- to the node and an edge from it.
  abbrev left : ℕ → ℕ → ℕ
  left a b =
      if a == n || b == n
      then 0
      else count b (g.successors a) + count n (g.successors a) * count b (g.successors n)

  -- The edges that join the predecessors of the node to its successors.
  joined_lem :
      (a b : ℕ)
      → count a ((detach n g).predecessors n) * count b ((detach n g).successors n)
        ≡ (if a == n || b == n then 0 else count n (g.successors a) * count b (g.successors n))
  joined_lem a b =
      rw (predecessors-detach a n, successors-detach n b, sym (mir a n))
        (elim (Bool-cases (a == n)) [
          | inl e ↦ rw e (omega arith)
          | inr e ↦ elim (Bool-cases (b == n)) [
            | inl f ↦ rw (e, f) (omega arith)
            | inr f ↦ rw (e, f) refl
          ]
        ])

  successors-isolate : (a b : ℕ) → count b ((isolate n g).successors a) ≡ left a b
  unfolding isolate
  successors-isolate a b =
      let joined =
        successors-connect ((detach n g).predecessors n) ((detach n g).successors n) (detach n g) a
          b in
      ground (arith, joined, joined_lem a b, successors-detach a b)

  predecessors-isolate : (a b : ℕ) → count a ((isolate n g).predecessors b) ≡ left a b
  unfolding isolate
  predecessors-isolate a b =
      let joined =
        predecessors-connect ((detach n g).predecessors n) ((detach n g).successors n) (detach n g)
          a b in
      ground (arith, joined, joined_lem a b, predecessors-detach a b, mir a b)

  -- Taking out a node without an edge to itself, where the predecessors mirror the successors,
  -- keeps the mirror; no edge from or to the node is left, and two other nodes have the edges that
  -- they had and one more for each pair of an edge to the node and an edge from it.
  pub isolate_lem :
      Mirrors (isolate n g) × ((a b : ℕ) → count b ((isolate n g).successors a) ≡ left a b)
  isolate_lem = (λ a b. successors-isolate a b ∙ sym (predecessors-isolate a b), successors-isolate)
