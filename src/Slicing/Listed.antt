-- ===== src/Slicing/Listed.antt =====
-- Slicing.h: the slice ids of the nodes of a list and of their blocks and graphs.
use dg.Base.{
  ℕ, ◌≡◌, ◌≢◌, refl, ◌∙◌, ap, Bool, true, ◌||◌, Option, some, List, [], ◌∷◌, ◌++◌, ◌==◌, ◌↔◌,
  has_elem, if◌then◌else◌, arith, inl, inr, Bool-cases, Option-cases, has_elem-append,
}
use mathlib.Core.Logic.{∥∥₁_elim}
use dg.Adt.Queue.{fifo}
use dg.Walk.Reach.{Reach}
use dg.Slicing.{Dependences, Slices, next_nodes}
use dg.Slicing.Marked.{of_any, is_it}

pub of_any-true :
    (f : ℕ → Option ℕ) (b v : ℕ) (ns : List ℕ)
    → has_elem v ns ≡ true
    → f v ≡ some b
    → of_any f b ns ≡ true
of_any-true f b v [] h e = cc
of_any-true f b v (n ∷ ns) h e = elim (Bool-cases (n == v)) [
  | inl t ↦
      let z : n ≡ v = ground arith in
      let self : (b == b) ≡ true = ground arith in
      let here : is_it (f n) b ≡ true = rw (ap f z ∙ e) self in ground arith
  | inr t ↦ ground (arith, of_any-true f b v ns)
]

pub of_any_search :
    (f : ℕ → Option ℕ) (b : ℕ) (ns : List ℕ)
    → of_any f b ns ≡ true
    → (v : ℕ) × (has_elem v ns ≡ true) × (f v ≡ some b)
of_any_search f b [] h = cc
of_any_search f b (n ∷ ns) h = elim (Option-cases (f n)) [
  | inl e ↦ let (v, t, z) = of_any_search f b ns (rw e at h) in (v, ground arith, z)
  | inr (c, e) ↦ elim (Bool-cases (c == b)) [
    | inl t ↦ let z : c ≡ b = ground arith in (n, ground arith, e ∙ ap some z)
    | inr t ↦
        let (v, u, z) = of_any_search f b ns (ground (arith, h, ap (λ o. is_it o b) e)) in
        (v, ground arith, z)
  ]
]

pub of_any-append :
    (f : ℕ → Option ℕ) (b : ℕ) (ns ms : List ℕ)
    → of_any f b (ns ++ ms) ≡ (of_any f b ns || of_any f b ms)
of_any-append f b [] ms = refl
of_any-append f b (n ∷ ns) ms = ground (arith, of_any-append f b ns ms)

pub not_both : {A : Type 0} → ∥ A ∥₁ → ¬ ¬ A
not_both t n = ∥∥₁_elim t (hlevel) (λ a. n a)

module _ (D : Dependences) where
  -- The nodes that dependences lead to from the start nodes: those that depend on them, or those that
  -- they depend on, with what is kept for these.
  abbrev pub Leads : Bool → List ℕ → ℕ → Type 0
  Leads forward starts v = Reach fifo (next_nodes D forward) starts v

  -- The nodes with the property are marked, with their blocks and graphs, and nothing else changes.
  pub record Marks (P : ℕ → Type 0) (id : ℕ) (before after : Slices) : Type 0 where
    pub node : (v : ℕ) → P v → after.node_slice v ≡ id
    pub block : (v b : ℕ) → P v → D.block v ≡ some b → after.block_slice b ≡ id
    pub graph : (v g : ℕ) → P v → D.graph v ≡ some g → after.graph_slice g ≡ id
    pub other_node : (v : ℕ) → ¬ P v → after.node_slice v ≡ before.node_slice v
    pub other_block :
        (b : ℕ) → ((v : ℕ) → P v → D.block v ≢ some b) → after.block_slice b ≡ before.block_slice b
    pub other_graph :
        (g : ℕ) → ((v : ℕ) → P v → D.graph v ≢ some g) → after.graph_slice g ≡ before.graph_slice g

  -- The nodes of a list are marked.
  pub record Listed (id : ℕ) (called : List ℕ) (s t : Slices) : Type 0 where
    pub nodes : (v : ℕ) → t.node_slice v ≡ (if has_elem v called then id else s.node_slice v)
    pub blocks :
        (b : ℕ) → t.block_slice b ≡ (if of_any D.block b called then id else s.block_slice b)
    pub graphs :
        (g : ℕ) → t.graph_slice g ≡ (if of_any D.graph g called then id else s.graph_slice g)

  pub Listed-append :
      (id : ℕ) (xs ys : List ℕ) (s t u : Slices)
      → Listed id xs s t
      → Listed id ys t u
      → Listed id (xs ++ ys) s u
  Listed-append id xs ys s t u a b = record {
    nodes = λ v. ground (arith, a.nodes v, b.nodes v, has_elem-append v xs ys);
    blocks = λ k. ground (arith, a.blocks k, b.blocks k, of_any-append D.block k xs ys);
    graphs = λ g. ground (arith, a.graphs g, b.graphs g, of_any-append D.graph g xs ys);
  }

  pub Listed-Marks :
      (id : ℕ) (called : List ℕ) (s t : Slices) (P : ℕ → Type 0)
      → ((v : ℕ) → (has_elem v called ≡ true) ↔ ∥ P v ∥₁)
      → Listed id called s t
      → Marks P id s t
  Listed-Marks id called s t P same l = record {
    node = λ v p. ground (arith, l.nodes v, (same v).1 ∣ p ∣₁);
    block =
        λ v b p e. ground (arith, l.blocks b, of_any-true D.block b v called ((same v).1 ∣ p ∣₁) e);
    graph =
        λ v g p e. ground (arith, l.graphs g, of_any-true D.graph g v called ((same v).1 ∣ p ∣₁) e);
    other_node = λ v n. elim (Bool-cases (has_elem v called)) [
      | inl h ↦ absurd (not_both ((same v).0 h) n)
      | inr h ↦ ground (arith, l.nodes v)
    ];
    other_block = λ b n. elim (Bool-cases (of_any D.block b called)) [
      | inl h ↦
          let (v, t', e) = of_any_search D.block b called h in
          absurd (not_both ((same v).0 t') (λ p. n v p e))
      | inr h ↦ ground (arith, l.blocks b)
    ];
    other_graph = λ g n. elim (Bool-cases (of_any D.graph g called)) [
      | inl h ↦
          let (v, t', e) = of_any_search D.graph g called h in
          absurd (not_both ((same v).0 t') (λ p. n v p e))
      | inr h ↦ ground (arith, l.graphs g)
    ];
  }
