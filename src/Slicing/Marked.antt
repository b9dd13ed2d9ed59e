-- ===== src/Slicing/Marked.antt =====
-- Slicing.h: the slice ids that the loop of a walk leaves.
use dg.Base.{
  ℕ, zero, suc, ◌≡◌, refl, sym, subst, ◌∙◌, Bool, false, ◌||◌, ◌&&◌, Option, none, some, List, [],
  ◌∷◌, ◌==◌, has_elem, if◌then◌else◌, arith, List-cases, inl, inr, Bool-cases,
}
use dg.Base.Sets.{has_elem-insert}
use dg.Base.Steps.{some_inj}
use dg.Adt.Queue.{fifo}
use dg.Walk.{Walk, enqueue, offer, run_loop, round}
use dg.Slicing.{Dependences, Slices, set_at, insert_at, next_nodes, mark_slice, mark_loop}

abbrev pub is_it : Option ℕ → ℕ → Bool
is_it none b = false
is_it (some c) b = c == b

-- The element is that of some node of the list.
abbrev pub of_any : (ℕ → Option ℕ) → ℕ → List ℕ → Bool
of_any f b [] = false
of_any f b (n ∷ ns) = is_it (f n) b || of_any f b ns

set_at_iff :
    (o : Option ℕ) (v : ℕ) (f : ℕ → ℕ) (k : ℕ) → set_at o v f k ≡ (if is_it o k then v else f k)
set_at_iff none v f k = refl
set_at_iff (some c) v f k = refl

has_elem-insert_at :
    (o : Option ℕ) (xs : List ℕ) (b : ℕ)
    → has_elem b (insert_at o xs) ≡ (is_it o b || has_elem b xs)
has_elem-insert_at none xs b = refl
has_elem-insert_at (some c) xs b = has_elem-insert c b xs

called-offer :
    (successors : ℕ → List ℕ) (ss : List ℕ) (w : Walk)
    → (offer fifo successors ss w).called ≡ w.called
unfolding offer enqueue
called-offer successors [] w = refl
called-offer successors (x ∷ ss) w =
    called-offer successors ss (if has_elem x w.visited then w else enqueue fifo successors x w)
    ∙ ground arith

module _ (D : Dependences) (forward : Bool) (id : ℕ) (before : Slices) where
  -- The nodes of the list were marked, with their blocks and graphs, and nothing else was.
  pub record Marked (called : List ℕ) (s : Slices) : Type 0 where
    pub nodes : (v : ℕ) → s.node_slice v ≡ (if has_elem v called then id else before.node_slice v)
    pub blocks :
        (b : ℕ) → s.block_slice b ≡ (if of_any D.block b called then id else before.block_slice b)
    pub graphs :
        (g : ℕ) → s.graph_slice g ≡ (if of_any D.graph g called then id else before.graph_slice g)
    pub marks :
        (b : ℕ)
        → has_elem b s.marked_blocks
          ≡ (forward && of_any D.block b called || has_elem b before.marked_blocks)

  pub Marked-nothing : Marked [] before
  Marked-nothing = record {
    nodes = λ v. refl;
    blocks = λ b. refl;
    graphs = λ g. refl;
    marks = λ b. ground arith;
  }

  mark_slice-Marked :
      (n : ℕ) (called : List ℕ) (s : Slices)
      → Marked called s
      → Marked (n ∷ called) (mark_slice D forward id n s)
  unfolding mark_slice
  mark_slice-Marked n called s m = record {
    nodes = λ v. ground (arith, m.nodes v);
    blocks = λ b. set_at_iff (D.block n) id s.block_slice b ∙ ground (arith, m.blocks b);
    graphs = λ g. set_at_iff (D.graph n) id s.graph_slice g ∙ ground (arith, m.graphs g);
    marks = λ b. elim (Bool-cases forward) [
      | inl e ↦
          rw e (has_elem-insert_at (D.block n) s.marked_blocks b ∙ ground (arith, m.marks b, e))
      | inr e ↦ rw e (ground (arith, m.marks b, e))
    ];
  }

  -- Where the walk ends, so does the marking, and it marked the nodes that the walk called.
  pub mark_loop-Marked :
      (fuel : ℕ) (w : Walk) (s : Slices) (end : Walk)
      → Marked w.called s
      → run_loop fifo (next_nodes D forward) fuel w ≡ some end
      → (t : Slices) × (mark_loop D forward id fuel w s ≡ some t) × Marked end.called t
  unfolding mark_loop run_loop round
  mark_loop-Marked zero w s end m e = elim (List-cases w.queue) [
    | inl z ↦
        let same = some_inj w end (rw (z, run_loop) at e) in
        (s, rw (z, mark_loop) refl, subst (λ x. Marked x.called s) same m)
    | inr (n, rest, z) ↦ cc (rw (z, run_loop) at e)
  ]
  mark_loop-Marked (suc fuel) w s end m e = elim (List-cases w.queue) [
    | inl z ↦
        let same = some_inj w end (rw (z, run_loop) at e) in
        (s, rw (z, mark_loop) refl, subst (λ x. Marked x.called s) same m)
    | inr (n, rest, z) ↦
        let popped : Walk = record w { queue = rest; called = n ∷ w.called } in
        let w' = offer fifo (next_nodes D forward) (next_nodes D forward n) popped in
        let m' =
          subst (λ x. Marked x (mark_slice D forward id n s))
            (sym (called-offer (next_nodes D forward) (next_nodes D forward n) popped))
            (mark_slice-Marked n w.called s m) in
        let (t, h, after) =
          mark_loop-Marked fuel w' (mark_slice D forward id n s) end m' (rw (z, run_loop) at e) in
        (t, rw (z, mark_loop) h, after)
  ]
