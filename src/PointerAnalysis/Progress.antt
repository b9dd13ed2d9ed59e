-- ===== src/PointerAnalysis/Progress.antt =====
-- What every step of the pointer analysis keeps, on PSNode.h and MemoryObject.h.
use dg.Base.{
  none, some, [], ◌∷◌, Bool-cases, inl, inr, ℕ, Bool, true, false, ◌||◌, ◌≡◌, refl, sym, ap, ◌∙◌,
  List, arith, subst, ap₂, has_elem,
}
use dg.Base.{◌==◌, if◌then◌else◌}
use dg.PointerAnalysis.Load.{no_entries}
use dg.Base.Maps.{find, put, find-put}
use dg.Base.Steps.{Composes, if-branch}
use dg.Offset.{Offset, is_unknown}
use dg.PointsTo.{Pointer}
use dg.PointsTo.Sets.{SetLaws, covers}
use dg.PointerAnalysis.{Program, MemoryObject, State, write}
use dg.PointerAnalysis.Memory.{
  add_pointer, add_pointers, add_pointer_at, add_pointers_at, set_at, get_memory_objects,
  is_function, allocation,
}

module _ (A : Program) where
  -- The pointers of a node, and those at an offset of an object.
  abbrev pub node_pointers : State A → ℕ → List Pointer
  node_pointers st n = A.sets.pointers (st.points_to n)

  abbrev pub cell_pointers : State A → ℕ → Offset → List Pointer
  cell_pointers st o off = A.sets.pointers (set_at A off (st.objects o))

  -- An object has no entry at an offset; at the unknown one, it has none at all.
  abbrev pub is_unwritten : Offset → MemoryObject A → Bool
  is_unwritten off o =
      if is_unknown off then no_entries o else elim (find off o) [ none ↦ true | some v ↦ false ]

  is_unwritten-put :
      (j off : Offset) (v : A.sets.Carrier) (o : MemoryObject A)
      → is_unwritten j (put off v o) ≡ true
      → is_unwritten j o ≡ true
  is_unwritten-put j off v [] h = elim (Bool-cases (is_unknown j)) [
    | inl e ↦ rw e refl
    | inr e ↦ rw e refl
  ]
  is_unwritten-put j off v ((k, w) ∷ o) h = elim (Bool-cases (is_unknown j)) [
    | inl e ↦ ground (arith, e)
    | inr e ↦ ground (arith, e, find-put j off v ((k, w) ∷ o))
  ]

  -- No set loses what it may point to, no memory is no longer zero initialized, and where nothing is
  -- said to have changed, no set has other pointers.
  pub record Progress (changed : Bool) (s t : State A) : Type 0 where
    pub nodes_grow :
        (n : ℕ) (q : Pointer)
        → covers (node_pointers s n) q ≡ true
        → covers (node_pointers t n) q ≡ true
    pub cells_grow :
        (o : ℕ) (off : Offset) (q : Pointer)
        → covers (cell_pointers s o off) q ≡ true
        → covers (cell_pointers t o off) q ≡ true
    pub zeros_grow : (n : ℕ) → s.zero_initialized n ≡ true → t.zero_initialized n ≡ true
    pub unwritten_before :
        (o : ℕ) (off : Offset)
        → is_unwritten off (t.objects o) ≡ true
        → is_unwritten off (s.objects o) ≡ true
    pub geps_same : (n : ℕ) → t.gep_offset n ≡ s.gep_offset n
    pub nodes_same : changed ≡ false → (n : ℕ) → node_pointers t n ≡ node_pointers s n
    pub cells_same :
        changed ≡ false → (o : ℕ) (off : Offset) → cell_pointers t o off ≡ cell_pointers s o off

  pub nothing-Progress : (c : Bool) (s : State A) → Progress c s s
  nothing-Progress c s = record {
    nodes_grow = λ n q h. h;
    cells_grow = λ o off q h. h;
    zeros_grow = λ n h. h;
    unwritten_before = λ o off h. h;
    geps_same = λ n. refl;
    nodes_same = λ e n. refl;
    cells_same = λ e o off. refl;
  }

  eq_lem : (n m : ℕ) → (n == m) ≡ true → n ≡ m
  eq_lem n m e = ground arith

  or_false : (a b : Bool) → (a || b) ≡ false → (a ≡ false) × (b ≡ false)
  or_false a b h = ground arith

  pub Progress-laws : Composes Progress
  Progress-laws = record {
    nothing = nothing-Progress false;
    compose = λ a b s m t p q. record {
      nodes_grow = λ n r h. q.nodes_grow n r (p.nodes_grow n r h);
      cells_grow = λ o off r h. q.cells_grow o off r (p.cells_grow o off r h);
      zeros_grow = λ n h. q.zeros_grow n (p.zeros_grow n h);
      unwritten_before = λ o off h. p.unwritten_before o off (q.unwritten_before o off h);
      geps_same = λ n. q.geps_same n ∙ p.geps_same n;
      nodes_same = λ e n. q.nodes_same (or_false a b e).1 n ∙ p.nodes_same (or_false a b e).0 n;
      cells_same =
          λ e o off. q.cells_same (or_false a b e).1 o off ∙ p.cells_same (or_false a b e).0 o off;
    };
  }

  -- The set of a node is replaced by one that covers it.
  grown_node :
      (n : ℕ) (v : A.sets.Carrier) (c : Bool) (s : State A)
      → ((q : Pointer) → covers (node_pointers s n) q ≡ true → covers (A.sets.pointers v) q ≡ true)
      → (c ≡ false → A.sets.pointers v ≡ node_pointers s n)
      → Progress c s (record s { points_to = write s.points_to n v })
  grown_node n v c s grows same = record {
    nodes_grow = λ m q h.
        if-branch (λ x. covers (A.sets.pointers x) q ≡ true) (n == m)
          (λ e. grows q (subst (λ x. covers (node_pointers s x) q ≡ true) (sym (eq_lem n m e)) h))
          (λ e. h);
    cells_grow = λ o off q h. h;
    zeros_grow = λ m h. h;
    unwritten_before = λ o off h. h;
    geps_same = λ m. refl;
    nodes_same = λ quiet m.
        if-branch (λ x. A.sets.pointers x ≡ node_pointers s m) (n == m)
          (λ e. same quiet ∙ ap (node_pointers s) (eq_lem n m e)) (λ e. refl);
    cells_same = λ quiet o off. refl;
  }

  same_cell :
      (s : State A) (o m : ℕ) (off j : Offset)
      → (o == m) ≡ true
      → (off == j) ≡ true
      → cell_pointers s o off ≡ cell_pointers s m j
  same_cell s o m off j e e' = ap₂ (cell_pointers s) (eq_lem o m e) (eq_lem off j e')

  pub set_at-put :
      (off j : Offset) (v : A.sets.Carrier) (o : MemoryObject A)
      → set_at A j (put off v o) ≡ (if off == j then v else set_at A j o)
  set_at-put off j v o = ground (arith, find-put j off v o)

  grown_cell :
      (o : ℕ) (off : Offset) (v : A.sets.Carrier) (c : Bool) (s : State A)
      → ((q : Pointer)
          → covers (cell_pointers s o off) q ≡ true
          → covers (A.sets.pointers v) q ≡ true)
      → (c ≡ false → A.sets.pointers v ≡ cell_pointers s o off)
      → Progress c s (record s { objects = write s.objects o (put off v (s.objects o)) })
  grown_cell o off v c s grows same = record {
    nodes_grow = λ m q h. h;
    cells_grow = λ m j q h.
        if-branch (λ x. covers (A.sets.pointers (set_at A j x)) q ≡ true) (o == m)
          (λ e. rw (set_at-put off j v (s.objects o)) (
            if-branch (λ x. covers (A.sets.pointers x) q ≡ true) (off == j)
              (λ e'. grows q (subst (λ x. covers x q ≡ true) (sym (same_cell s o m off j e e')) h))
              (λ e'. subst (λ x. covers (cell_pointers s x j) q ≡ true) (sym (eq_lem o m e)) h)))
          (λ e. h);
    zeros_grow = λ m h. h;
    unwritten_before = λ m j.
        if-branch (λ x. is_unwritten j x ≡ true → is_unwritten j (s.objects m) ≡ true) (o == m)
          (λ e h.
            is_unwritten-put j off v (s.objects m)
              (subst (λ x. is_unwritten j (put off v (s.objects x)) ≡ true) (eq_lem o m e) h))
          (λ e h. h);
    geps_same = λ m. refl;
    nodes_same = λ quiet m. refl;
    cells_same = λ quiet m j.
        if-branch (λ x. A.sets.pointers (set_at A j x) ≡ cell_pointers s m j) (o == m)
          (λ e. rw (set_at-put off j v (s.objects o)) (
            if-branch (λ x. A.sets.pointers x ≡ cell_pointers s m j) (off == j)
              (λ e'. same quiet ∙ same_cell s o m off j e e')
              (λ e'. ap (λ x. cell_pointers s x j) (eq_lem o m e))))
          (λ e. refl);
  }

  pub get_memory_objects-Progress :
      (p : Pointer) (s : State A) → Progress false s (get_memory_objects A p s).0
  unfolding get_memory_objects
  get_memory_objects-Progress p s =
      if-branch (λ (r : State A × List ℕ). Progress false s r.0)
        (is_function (A.node_type (allocation A s p.target))) (λ e. nothing-Progress false s)
        (λ e.
          if-branch (λ (r : State A × List ℕ). Progress false s r.0)
            (has_elem (allocation A s p.target) s.memory_objects) (λ e'. nothing-Progress false s)
            (λ e'. record {
              nodes_grow = λ n q h. h;
              cells_grow = λ o off q h. h;
              zeros_grow = λ n h. h;
              unwritten_before = λ o off h. h;
              geps_same = λ n. refl;
              nodes_same = λ quiet n. refl;
              cells_same = λ quiet o off. refl;
            }))

  module _ (laws : SetLaws A.sets) where
    pub add_pointer-Progress :
        (n : ℕ) (p : Pointer) (s : State A)
        → Progress (add_pointer A n p s).1 s (add_pointer A n p s).0
    unfolding add_pointer
    add_pointer-Progress n p s =
        grown_node n (A.sets.add p (s.points_to n)).0 (A.sets.add p (s.points_to n)).1 s
          (λ q. laws.add_old p q (s.points_to n)) (laws.add_same p (s.points_to n))

    pub add_pointers-Progress :
        (n : ℕ) (ptrs : A.sets.Carrier) (s : State A)
        → Progress (add_pointers A n ptrs s).1 s (add_pointers A n ptrs s).0
    unfolding add_pointers
    add_pointers-Progress n ptrs s =
        grown_node n (A.sets.union (s.points_to n) ptrs).0 (A.sets.union (s.points_to n) ptrs).1 s
          (laws.union_old (s.points_to n) ptrs) (laws.union_same (s.points_to n) ptrs)

    pub add_pointer_at-Progress :
        (o : ℕ) (off : Offset) (p : Pointer) (s : State A)
        → Progress (add_pointer_at A o off p s).1 s (add_pointer_at A o off p s).0
    unfolding add_pointer_at
    add_pointer_at-Progress o off p s =
        let old = set_at A off (s.objects o) in
        grown_cell o off (A.sets.add p old).0 (A.sets.add p old).1 s (λ q. laws.add_old p q old)
          (laws.add_same p old)

    pub add_pointers_at-Progress :
        (o : ℕ) (off : Offset) (ptrs : A.sets.Carrier) (s : State A)
        → Progress (add_pointers_at A o off ptrs s).1 s (add_pointers_at A o off ptrs s).0
    unfolding add_pointers_at
    add_pointers_at-Progress o off ptrs s =
        let old = set_at A off (s.objects o) in
        if-branch (λ (r : State A × Bool). Progress r.1 s r.0) (A.sets.is_empty ptrs)
          (λ e. nothing-Progress false s)
          (λ e.
            grown_cell o off (A.sets.union old ptrs).0 (A.sets.union old ptrs).1 s
              (laws.union_old old ptrs) (laws.union_same old ptrs))
