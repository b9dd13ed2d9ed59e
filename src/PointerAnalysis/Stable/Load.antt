-- ===== src/PointerAnalysis/Stable/Load.antt =====
-- PointerAnalysis.cpp: `processLoad` and `processGep`.
use dg.Base.{
  ℕ, Bool, true, false, not, ◌||◌, ◌&&◌, ◌≡◌, List, [], ◌∷◌, Option, some, All, refl, sym, ◌∙◌,
  length,
}
use dg.Base.{◌==◌, ltb, subst}
use dg.Base.Steps.{if-branch, some_inj, each-All}
use dg.Offset.{Offset, unknown, is_unknown}
use dg.PointsTo.{Pointer}
use dg.PointsTo.Sets.{covers, SetLaws, is_nil}
use dg.PointerAnalysis.{Program, State, unknown_pointer}
use dg.PointerAnalysis.Memory.{get_operand, can_be_dereferenced, add_pointer, get_memory_objects}
use dg.PointerAnalysis.Load.{
  load_object, load_pointer, process_load, gep_pointer, gep_result, process_gep,
}
use dg.PointerAnalysis.Progress.{node_pointers, get_memory_objects-Progress}
use dg.PointerAnalysis.Grows.Load.{
  load_object-Proceeds, load_pointer-Proceeds, gep_pointer-Proceeds,
}
use dg.PointerAnalysis.Inclusion.{implies, has_memory, cell_of, Loads, Shifts}
use dg.PointerAnalysis.Stable.{
  implies_and, the_object, no_object, not_dereferenced, unknown_target, implies_intro, Same,
  Same-refl, Same-trans, allocation-Same, has_memory-Same, cell_of-Same, covers-add_pointer,
}
use dg.PointerAnalysis.Stable.Object.{Reads, load_object-Reads, Reads-later}

nil_All {κ} : (P : Pointer → Type κ) (ps : List Pointer) → is_nil ps ≡ true → All P ps
nil_All P [] e = tt
nil_All P (p ∷ ps) e = cc

module _ (A : Program) (laws : SetLaws A.sets) where
  no_memory-Loads :
      (node : ℕ) (p : Pointer) (t : State A)
      → has_memory A t p ≡ false
      → implies (p.target == A.unknown_memory) (covers (node_pointers A t node) (unknown_pointer A))
        ≡ true
      → Loads A node p t
  no_memory-Loads node p t e f = (λ off q. rw e refl, f)

  load_pointer-Loads :
      (node : ℕ) (p : Pointer) (s t : State A)
      → Same A s t
      → load_pointer A node p s ≡ some (t, false)
      → Loads A node p t
  unfolding load_pointer
  load_pointer-Loads node p s t same =
      let (m, objects) = get_memory_objects A p s in
      let got = get_memory_objects-Progress A p s in
      let Done = λ (r : Option (State A × Bool)). r ≡ some (t, false) → Loads A node p t in
      if-branch Done (p.target == A.unknown_memory)
        (λ e h. no_memory-Loads node p t (unknown_target A p t e) (
          implies_intro _ _ (λ z.
            covers-add_pointer A laws node (unknown_pointer A) s t false
              (some_inj (add_pointer A node (unknown_pointer A) s) (t, false) h))))
        (λ e.
          if-branch Done (not (can_be_dereferenced A p))
            (λ e' h. no_memory-Loads node p t (not_dereferenced A p t e') (rw e refl))
            (λ e'.
              if-branch Done (length objects == 0)
                (λ n h.
                  no_memory-Loads node p t (has_memory-Same A s t p same ∙ no_object A p s n)
                    (rw e refl))
                (λ n h.
                  let alone = length objects == 1 in
                  let (later, all) =
                    each-All (Same A) (Reads A laws node p) (Same-refl A) (Same-trans A)
                      (load_object A node p alone)
                      (λ o l k e''.
                        let kept = load_object-Proceeds A laws node p alone o l k false e'' in
                        (kept, load_object-Reads A laws node p alone o l k kept e''))
                      (Reads-later A laws node p) objects m t h in
                  (
                    λ off q.
                        implies_and (has_memory A t p)
                          ((is_unknown p.offset || (off == p.offset || is_unknown off))
                            && covers (cell_of A t p off) q)
                          (covers (node_pointers A t node) q)
                          (λ z. rw (allocation-Same A s t p.target same) (
                            the_object A (λ o. Reads A laws node p o t) p s all
                              (sym (has_memory-Same A s t p same) ∙ z) off q)),
                    rw e refl,
                  ))))

  pub Loads-later :
      (node : ℕ) (p : Pointer) (s t : State A) → Same A s t → Loads A node p s → Loads A node p t
  Loads-later node p s t same (h, k) = (
    λ off q.
        rw (has_memory-Same A s t p same, cell_of-Same A s t p off same, same.nodes_same refl node)
          (h off q),
    rw (same.nodes_same refl node) k,
  )

  -- No pointer of an empty set.
  pub All-empty {κ} :
      (P : Pointer → Type κ) (set : A.sets.Carrier)
      → A.sets.is_empty set ≡ true
      → All P (A.sets.pointers set)
  All-empty P set e = nil_All P (A.sets.pointers set) (sym (laws.is_empty_lem set) ∙ e)

  pub process_load-Loads :
      (node : ℕ) (s t : State A)
      → Same A s t
      → process_load A node s ≡ some (t, false)
      → All (λ p. Loads A node p t) (node_pointers A t (get_operand A node 0))
  unfolding process_load
  process_load-Loads node s t same h =
      let set = s.points_to (get_operand A node 0) in
      rw (same.nodes_same refl (get_operand A node 0)) (
        if-branch
          (λ (r : Option (State A × Bool)).
            r ≡ some (t, false) → All (λ p. Loads A node p t) (A.sets.pointers set))
          (A.sets.is_empty set) (λ e h. All-empty (λ p. Loads A node p t) set e)
          (λ e h.
            (each-All (Same A) (Loads A node) (Same-refl A) (Same-trans A) (load_pointer A node)
              (λ p l k e'.
                let kept = load_pointer-Proceeds A laws node p l k false e' in
                (kept, load_pointer-Loads node p l k kept e'))
              (Loads-later node) (A.sets.pointers set) s t h).1)
          h)

  pub Shifts-later :
      (node : ℕ) (p : Pointer) (s t : State A) → Same A s t → Shifts A node p s → Shifts A node p t
  Shifts-later node p s t same h = rw (same.nodes_same refl node, same.geps_same node) h

  gep_result-unknown :
      (p : Pointer) (off : Offset)
      → (is_unknown p.offset || is_unknown off) ≡ true
      → gep_result A p off ≡ record p { offset = unknown }
  unfolding gep_result
  gep_result-unknown p off e = rw e (
      if-branch (λ v. record p { offset = v } ≡ record p { offset = unknown })
        ((unknown == 0 || ltb unknown (A.node_size p.target)) && ltb unknown A.field_sensitivity)
        (λ z. refl) (λ z. refl))

  Shifts-result :
      (node : ℕ) (p : Pointer) (off : Offset) (t : State A)
      → covers (node_pointers A t node) (gep_result A p off) ≡ true
      → (covers (node_pointers A t node) (gep_result A p off) ≡ true)
        × (implies
              (is_unknown p.offset || is_unknown off)
              (covers (node_pointers A t node) (record p { offset = unknown }))
            ≡ true)
  Shifts-result node p off t h = (
    h,
    implies_intro _ _
        (λ e. subst (λ q. covers (node_pointers A t node) q ≡ true) (gep_result-unknown p off e) h),
  )

  pub process_gep-Shifts :
      (node : ℕ) (s t : State A)
      → Same A s t
      → process_gep A node s ≡ some (t, false)
      → All (λ p. Shifts A node p t) (node_pointers A t (get_operand A node 0))
  unfolding process_gep gep_pointer
  process_gep-Shifts node s t same h =
      rw (same.nodes_same refl (get_operand A node 0))
        (each-All (Same A) (Shifts A node) (Same-refl A) (Same-trans A) (gep_pointer A node)
          (λ p l k e.
            let kept = gep_pointer-Proceeds A laws node p l k false e in
            (
              kept,
              rw (kept.geps_same node) (
                  Shifts-result node p (l.gep_offset node) k (
                    covers-add_pointer A laws node (gep_result A p (l.gep_offset node)) l k false
                      (some_inj _ (k, false) e))),
            ))
          (Shifts-later node) (node_pointers A s (get_operand A node 0)) s t h).1
