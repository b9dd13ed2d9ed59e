-- ===== src/Subgraph/Edges.antt =====
-- SubgraphNode.h: the predecessors mirror the successors, under every edit of the edges.
use dg.Base.{ℕ, ◌+◌, ◌≡◌, refl, ◌&&◌, List, [], ◌∷◌, some}
use dg.Base.{
  ◌==◌, if◌then◌else◌, has_elem, without, count, count-append, count-without, arith, Bool-cases,
  inl, inr,
}
use dg.Subgraph.{Store, put_at, Subgraph, add_successor, single, replace_single_successor, for_each}

-- Every edge stands as often among the successors of its start as among the predecessors of its end.
abbrev pub Mirrors : Subgraph → Type 0
Mirrors g = (a b : ℕ) → count b (g.successors a) ≡ count a (g.predecessors b)

pub successors-add_successor :
    (n succ a b : ℕ) (g : Subgraph)
    → count b ((add_successor n succ g).successors a)
      ≡ count b (g.successors a) + (if n == a && succ == b then 1 else 0)
unfolding add_successor
successors-add_successor n succ a b g = elim (Bool-cases (n == a)) [
  | inl e ↦ let z : n ≡ a = ground arith in rw (e, count-append, z) (ground arith)
  | inr e ↦ rw e (ground arith)
]

pub predecessors-add_successor :
    (n succ a b : ℕ) (g : Subgraph)
    → count a ((add_successor n succ g).predecessors b)
      ≡ count a (g.predecessors b) + (if n == a && succ == b then 1 else 0)
unfolding add_successor
predecessors-add_successor n succ a b g = elim (Bool-cases (succ == b)) [
  | inl e ↦ let z : succ ≡ b = ground arith in rw (e, count-append, z) (ground arith)
  | inr e ↦ rw e (ground arith)
]

-- A new edge is mirrored.
pub add_successor-Mirrors :
    (n succ : ℕ) (g : Subgraph) → Mirrors g → Mirrors (add_successor n succ g)
add_successor-Mirrors n succ g m a b =
    omega
      (arith, successors-add_successor n succ a b g, predecessors-add_successor n succ a b g, m a b)

pub single_lem :
    (xs : List ℕ) (x b : ℕ) → single xs ≡ some x → count b xs ≡ (if x == b then 1 else 0)
unfolding single
single_lem [] x b h = cc
single_lem (y ∷ []) x b h = ground arith
single_lem (y ∷ z ∷ xs) x b h = cc

pub put_at_lem :
    (s : Store) (k : ℕ) (v : List ℕ) (n b : ℕ)
    → count b (put_at s k v n) ≡ (if k == n then count b v else count b (s n))
put_at_lem s k v n b = ground arith

-- The graph without the edge to the only successor.
abbrev unlinked : ℕ → ℕ → Subgraph → Subgraph
unlinked n old g = record g {
  successors = put_at g.successors n [];
  predecessors = put_at g.predecessors old (without n (g.predecessors old));
}

unlinked-Mirrors :
    (n old : ℕ) (g : Subgraph)
    → single (g.successors n) ≡ some old
    → Mirrors g
    → Mirrors (unlinked n old g)
unlinked-Mirrors n old g one m a b = elim (Bool-cases (n == a)) [
  | inl e ↦
      let z : n ≡ a = ground arith in
      (ground (
        arith,
        put_at_lem g.predecessors old (without n (g.predecessors old)) b a,
        count-without n a (g.predecessors old),
        single_lem (g.successors n) old b one,
        m n b,
      ))
  | inr e ↦ ground (
    arith,
    put_at_lem g.predecessors old (without n (g.predecessors old)) b a,
    count-without n a (g.predecessors old),
    m a b,
  )
]

replace_single_successor-eq :
    (n succ old : ℕ) (g : Subgraph)
    → single (g.successors n) ≡ some old
    → replace_single_successor n succ g ≡ add_successor n succ (unlinked n old g)
unfolding replace_single_successor
replace_single_successor-eq n succ old g one = rw (one, replace_single_successor)

-- Replacing the successor of a node that has exactly one, where the predecessors mirror the
-- successors, keeps the mirror; that edge is the only one from the node, and no edge from another
-- node changes.
pub replace_single_successor_lem :
    (n succ old : ℕ) (g : Subgraph)
    → single (g.successors n) ≡ some old
    → Mirrors g
    → Mirrors (replace_single_successor n succ g)
      × ((a b : ℕ)
          → count b ((replace_single_successor n succ g).successors a)
            ≡ (if n == a then (if succ == b then 1 else 0) else count b (g.successors a)))
replace_single_successor_lem n succ old g one m =
    rw (replace_single_successor-eq n succ old g one) (
      add_successor-Mirrors n succ (unlinked n old g) (unlinked-Mirrors n old g one m),
      λ a b. ground (arith, successors-add_successor n succ a b (unlinked n old g)),
    )

-- What a loop with an idempotent write does to each vector.
pub for_each_lem :
    (f : List ℕ → List ℕ) (c : ℕ) (h : (xs : List ℕ) → count c (f (f xs)) ≡ count c (f xs))
    (nodes : List ℕ) (s : Store) (a : ℕ)
    → count c (for_each f nodes s a)
      ≡ (if has_elem a nodes then count c (f (s a)) else count c (s a))
unfolding for_each
for_each_lem f c h [] s a = refl
for_each_lem f c h (x ∷ nodes) s a =
    let ih = for_each_lem f c h nodes (put_at s x (f (s x))) a in
    elim (Bool-cases (x == a)) [
      | inl e ↦ let z : x ≡ a = ground arith in ground (arith, ih, h (s a), z)
      | inr e ↦ ground (arith, ih)
    ]

pub without_twice :
    (a c : ℕ) (xs : List ℕ) → count c (without a (without a xs)) ≡ count c (without a xs)
without_twice a c xs = ground (arith, count-without a c (without a xs), count-without a c xs)
