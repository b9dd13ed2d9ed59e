-- ===== src/PointerAnalysis/Stable/Gather.antt =====
-- PointerAnalysis.cpp: `processNode` of the nodes that gather and store pointers.
use dg.Base.{
  ℕ, Bool, true, false, not, ◌&&◌, ◌≡◌, List, [], ◌∷◌, Option, some, All, arith, refl, sym, ◌∙◌,
  subst,
}
use dg.Base.Steps.{Step, if-branch, some_inj, quiet_steps, each-All}
use dg.PointsTo.{Pointer}
use dg.PointsTo.Sets.{covers, SetLaws}
use dg.PointerAnalysis.{Program, State}
use dg.PointerAnalysis.Memory.{
  get_operand, can_be_dereferenced, is_function, add_pointer, get_memory_objects,
}
use dg.PointerAnalysis.Progress.{node_pointers, cell_pointers}
use dg.PointerAnalysis.Inclusion.{IsIncluded, has_memory, cell_of}
use dg.PointerAnalysis.Stable.{
  implies_and, the_object, not_dereferenced, implies_intro, Same, Same-refl, Same-trans,
  allocation-Same, has_memory-Same, cell_of-Same, covers-add_pointer, covers-add_pointers,
}
use dg.Base.{All-map, All-every, All-both}
use dg.PointerAnalysis.Process.{
  store_pointer, process_store, add_operand_set, process_phi, invalidate_pointer,
  invalidate_operand, process_call_return, call_pointer, process_call_funcptr,
}
use dg.PointerAnalysis.Grows.Gather.{
  store_pointer-Proceeds, add_operand_set-Proceeds, process_phi-Proceeds,
  invalidate_pointer-Proceeds, invalidate_operand-Proceeds, call_pointer-Proceeds,
}
use dg.PointerAnalysis.Grows.{After-some}
use dg.PointerAnalysis.Inclusion.{Stores, Gathers, Invalidates, Calls}
use dg.PointerAnalysis.Stable.{covers-add_pointers_at}
use dg.PointerAnalysis.Progress.{add_pointers_at-Progress}

module _ (A : Program) (laws : SetLaws A.sets) where
  pub Gathers-later :
      (node op : ℕ) (s t : State A) → Same A s t → Gathers A node op s → Gathers A node op t
  Gathers-later node op s t same h q = rw (same.nodes_same refl node, same.nodes_same refl op) (h q)

  pub add_operand_set-Gathers :
      (node op : ℕ) (s t : State A)
      → Same A s t
      → add_operand_set A node op s ≡ some (t, false)
      → Gathers A node op t
  unfolding add_operand_set
  add_operand_set-Gathers node op s t same h q = implies_intro _ _ (λ z.
      covers-add_pointers A laws node (s.points_to op) s t false q (some_inj _ (t, false) h)
        (subst (λ x. covers x q ≡ true) (same.nodes_same refl op) z))

  pub process_phi-Gathers :
      (node : ℕ) (s t : State A)
      → process_phi A node s ≡ some (t, false)
      → All (λ op. Gathers A node op t) (A.graph.operands node)
  unfolding process_phi
  process_phi-Gathers node s t h =
      (each-All (Same A) (Gathers A node) (Same-refl A) (Same-trans A) (add_operand_set A node)
        (λ op l k e.
          let kept = add_operand_set-Proceeds A laws node op l k false e in
          (kept, add_operand_set-Gathers node op l k kept e))
        (Gathers-later node) (A.graph.operands node) s t h).1

  store_pointer-Stores :
      (node : ℕ) (p : Pointer) (s t : State A)
      → Same A s t
      → store_pointer A node p s ≡ some (t, false)
      → Stores A node p t
  unfolding store_pointer
  store_pointer-Stores node p s t same =
      let (m, objects) = get_memory_objects A p s in
      let value = get_operand A node 0 in
      let Stored = λ (o : ℕ) (st : State A).
        IsIncluded (node_pointers A st value) (cell_pointers A st o p.offset) in
      if-branch (λ (r : Option (State A × Bool)). r ≡ some (t, false) → Stores A node p t)
        (not (can_be_dereferenced A p)) (λ e h q. rw (not_dereferenced A p t e) refl)
        (λ e h q.
          let (later, all) =
            each-All (Same A) Stored (Same-refl A) (Same-trans A) _
              (λ o l k e'.
                let kept =
                  After-some A laws l _ _
                    (add_pointers_at-Progress A laws o p.offset (l.points_to value) l) k false e' in
                (
                  kept,
                  λ q'. implies_intro _ _ (λ z.
                      covers-add_pointers_at A laws o p.offset (l.points_to value) l k false q'
                        (some_inj _ (k, false) e')
                        (subst (λ x. covers x q' ≡ true) (kept.nodes_same refl value) z)),
                ))
              (λ o l k same' h' q'.
                rw (same'.nodes_same refl value, same'.cells_same refl o p.offset) (h' q'))
              objects m t h in
          implies_and (has_memory A t p) (covers (node_pointers A t value) q)
            (covers (cell_of A t p p.offset) q)
            (λ z.
              rw (allocation-Same A s t p.target same) (
                the_object A (λ o. Stored o t) p s all (sym (has_memory-Same A s t p same) ∙ z) q)))

  pub Stores-later :
      (node : ℕ) (p : Pointer) (s t : State A) → Same A s t → Stores A node p s → Stores A node p t
  Stores-later node p s t same h q =
      rw
        (
          has_memory-Same A s t p same,
          cell_of-Same A s t p p.offset same,
          same.nodes_same refl (get_operand A node 0),
        )
        (h q)

  pub process_store-Stores :
      (node : ℕ) (s t : State A)
      → Same A s t
      → process_store A node s ≡ some (t, false)
      → All (λ p. Stores A node p t) (node_pointers A t (get_operand A node 1))
  unfolding process_store
  process_store-Stores node s t same h =
      rw (same.nodes_same refl (get_operand A node 1))
        (each-All (Same A) (Stores A node) (Same-refl A) (Same-trans A) (store_pointer A node)
          (λ p l k e.
            let kept = store_pointer-Proceeds A laws node p l k false e in
            (kept, store_pointer-Stores node p l k kept e))
          (Stores-later node) (node_pointers A s (get_operand A node 1)) s t h).1

  Invalidates-later :
      (node : ℕ) (p : Pointer) (s t : State A)
      → Same A s t
      → Invalidates A node p s
      → Invalidates A node p t
  Invalidates-later node p s t same h = rw (same.nodes_same refl node) h

  invalidate_pointer-Invalidates :
      (node : ℕ) (p : Pointer) (s t : State A)
      → invalidate_pointer A node p s ≡ some (t, false)
      → Invalidates A node p t
  unfolding invalidate_pointer
  invalidate_pointer-Invalidates node p s t =
      let local = not (A.is_heap p.target) && not (A.is_global p.target) in
      let gone : Pointer = record { target = A.invalidated_node; offset = 0 } in
      if-branch (λ (f : Step (State A)). f s ≡ some (t, false) → Invalidates A node p t)
        (not (can_be_dereferenced A p)) (λ e h. ground (arith, e))
        (λ e.
          if-branch (λ (f : Step (State A)). f s ≡ some (t, false) → Invalidates A node p t) local
            (λ l h. implies_intro _ _ (λ z.
              covers-add_pointer A laws node gone s t false
                (some_inj (add_pointer A node gone s) (t, false) h)))
            (λ l h. ground (arith, l)))

  invalidate_operand-Invalidates :
      (node op : ℕ) (s t : State A)
      → Same A s t
      → invalidate_operand A node op s ≡ some (t, false)
      → All (λ p. Invalidates A node p t) (node_pointers A t op)
  unfolding invalidate_operand
  invalidate_operand-Invalidates node op s t same h =
      rw (same.nodes_same refl op)
        (each-All (Same A) (Invalidates A node) (Same-refl A) (Same-trans A)
          (invalidate_pointer A node)
          (λ p l k e. (
            invalidate_pointer-Proceeds A laws node p l k false e,
            invalidate_pointer-Invalidates node p l k e,
          ))
          (Invalidates-later node) (node_pointers A s op) s t h).1

  -- What both loops of a return from a call establish.
  abbrev Returns : ℕ → ℕ → State A → Type 0
  Returns node op st =
      Gathers A node op st × All (λ p. Invalidates A node p st) (node_pointers A st op)

  pub Invalidates-operand :
      (node op : ℕ) (s t : State A)
      → Same A s t
      → All (λ p. Invalidates A node p s) (node_pointers A s op)
      → All (λ p. Invalidates A node p t) (node_pointers A t op)
  Invalidates-operand node op s t same h =
      rw (same.nodes_same refl op)
        (All-map _ _ (node_pointers A s op) (λ p. Invalidates-later node p s t same) h)

  no_invalidation :
      (node : ℕ) (t : State A) (ps : List Pointer)
      → A.invalidate_nodes ≡ false
      → All (λ p. Invalidates A node p t) ps
  no_invalidation node t [] e = tt
  no_invalidation node t (p ∷ ps) e = (ground (arith, e), no_invalidation node t ps e)

  pub process_call_return-Returns :
      (node : ℕ) (s t : State A)
      → process_call_return A node s ≡ some (t, false)
      → All (λ op. Returns node op t) (A.graph.operands node)
  unfolding process_call_return
  process_call_return-Returns node s t h =
      let (m, first, second) = quiet_steps _ _ s t h in
      let later = process_phi-Proceeds A laws node m t false second in
      let invalidated =
        if-branch
          (λ (f : Step (State A)).
            f s ≡ some (m, false)
            → All (λ op. All (λ p. Invalidates A node p t) (node_pointers A t op))
                (A.graph.operands node))
          A.invalidate_nodes
          (λ e h'.
            All-map _ _ (A.graph.operands node) (λ op. Invalidates-operand node op m t later)
              (each-All (Same A)
                (λ op st. All (λ p. Invalidates A node p st) (node_pointers A st op)) (Same-refl A)
                (Same-trans A) (invalidate_operand A node)
                (λ op l k e'.
                  let kept = invalidate_operand-Proceeds A laws node op l k false e' in
                  (kept, invalidate_operand-Invalidates node op l k kept e'))
                (Invalidates-operand node) (A.graph.operands node) s m h').1)
          (λ e h'.
            All-every _ (A.graph.operands node)
              (λ op. no_invalidation node t (node_pointers A t op) e))
          first in
      All-both _ _ (A.graph.operands node) (process_phi-Gathers node m t second) invalidated

  pub Calls-later :
      (node : ℕ) (p : Pointer) (s t : State A) → Same A s t → Calls A node p s → Calls A node p t
  Calls-later node p s t same h = rw (same.nodes_same refl node) h

  call_pointer-Calls :
      (node : ℕ) (p : Pointer) (s t : State A)
      → call_pointer A node p s ≡ some (t, false)
      → Calls A node p t
  unfolding call_pointer
  call_pointer-Calls node p s t =
      if-branch (λ (f : Step (State A)). f s ≡ some (t, false) → Calls A node p t)
        (not A.invalidate_nodes && not (is_function (A.node_type p.target)))
        (λ e h. ground (arith, e))
        (λ e h. implies_intro _ _ (λ z.
          covers-add_pointer A laws node p s t false
            (some_inj (add_pointer A node p s) (t, false) h)))

  pub process_call_funcptr-Calls :
      (node : ℕ) (s t : State A)
      → Same A s t
      → process_call_funcptr A node s ≡ some (t, false)
      → All (λ p. Calls A node p t) (node_pointers A t (get_operand A node 0))
  unfolding process_call_funcptr
  process_call_funcptr-Calls node s t same h =
      rw (same.nodes_same refl (get_operand A node 0))
        (each-All (Same A) (Calls A node) (Same-refl A) (Same-trans A) (call_pointer A node)
          (λ p l k e.
            (call_pointer-Proceeds A laws node p l k false e, call_pointer-Calls node p l k e))
          (Calls-later node) (node_pointers A s (get_operand A node 0)) s t h).1
