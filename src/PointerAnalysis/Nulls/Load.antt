-- ===== src/PointerAnalysis/Nulls/Load.antt =====
-- PointerAnalysis.cpp: `processLoad` of zero initialised memory.
use dg.Base.{
  ℕ, Bool, true, false, not, ◌||◌, ◌&&◌, ◌≡◌, Option, some, All, arith, refl, sym, ◌∙◌, length,
  Option-cases, inl, inr,
}
use dg.Base.{◌==◌, if◌then◌else◌}
use dg.Base.Maps.{find}
use dg.Base.Steps.{Step, idle, pure_step, if-branch, some_inj, quiet_steps, each-All-under}
use dg.Offset.{Offset, unknown, is_unknown}
use dg.PointsTo.{Pointer}
use dg.PointsTo.Sets.{SetLaws}
use dg.PointerAnalysis.{Program, MemoryObject, State, null_pointer}
use dg.PointerAnalysis.Memory.{
  get_operand, can_be_dereferenced, add_pointer, get_memory_objects, allocation, is_function,
}
use dg.PointerAnalysis.Load.{load_object, load_pointer, load_entry, process_load, no_entries}
use dg.PointerAnalysis.Progress.{node_pointers, get_memory_objects-Progress, is_unwritten}
use dg.PointerAnalysis.Grows.{idle-Proceeds}
use dg.PointerAnalysis.Grows.Load.{load_object-Proceeds, load_pointer-Proceeds, load_entry-Proceeds}
use dg.PointerAnalysis.Inclusion.{implies, has_memory}
use dg.PointerAnalysis.Stable.{
  implies_intro, implies_elim, the_object, objects_lem, Same, Same-refl, Same-trans,
  allocation-Same, covers-add_pointer, and_true,
}
use dg.PointerAnalysis.Stable.Object.{load_all-Taken}
use dg.PointerAnalysis.Stable.Load.{All-empty}
use dg.PointerAnalysis.Nulls.{Below, has_null, NullLoads}

demand_later :
    (a b f u v : Bool)
    → (v ≡ true → u ≡ true)
    → (a && (b && (f || v))) ≡ true
    → (a && (b && (f || u))) ≡ true
demand_later a b f u true h e = ground (arith, h refl, e)
demand_later a b f u false h e = ground (arith, e)

demand_elim :
    (a b f v : Bool)
    → (a && (b && (f || v))) ≡ true
    → (a ≡ true) × (b ≡ true) × (f ≡ false → v ≡ true)
demand_elim a b f v e = (ground arith, ground arith, λ h. ground arith)

both_true : (a f : Bool) → a ≡ true → f ≡ false → (a && not f) ≡ true
both_true a f e h = ground arith

all_true : (a b : Bool) → a ≡ true → b ≡ true → (a && b) ≡ true
all_true a b e h = ground arith

module _ (A : Program) (laws : SetLaws A.sets) (z : ℕ → Bool) where
  pub Below-later : (s t : State A) → Same A s t → Below A z s → Below A z t
  Below-later s t same below n e = same.zeros_grow n (below n e)

  has_null-later :
      (node : ℕ) (s t : State A) → Same A s t → has_null A node s ≡ true → has_null A node t ≡ true
  has_null-later node s t same = same.nodes_grow node (null_pointer A)

  -- The branch on `isZeroInitialized`.
  null_branch :
      (node : ℕ) (p : Pointer) (other : Step (State A)) (s t : State A)
      → Below A z s
      → z p.target ≡ true
      → (if s.zero_initialized p.target
            then pure_step (add_pointer A node (null_pointer A))
            else other)
          s
        ≡ some (t, false)
      → has_null A node t ≡ true
  null_branch node p other s t below e =
      if-branch (λ (f : Step (State A)). f s ≡ some (t, false) → has_null A node t ≡ true)
        (s.zero_initialized p.target)
        (λ e' h.
          covers-add_pointer A laws node (null_pointer A) s t false
            (some_inj (add_pointer A node (null_pointer A) s) (t, false) h))
        (λ e' h. ground (arith, e', below p.target e))

  missing_entry :
      (node : ℕ) (off : Offset) (missing : Step (State A)) (o : MemoryObject A) (s t : State A)
      → is_unknown off ≡ false
      → is_unwritten A off o ≡ true
      → load_entry A node off missing o s ≡ some (t, false)
      → missing s ≡ some (t, false)
  unfolding load_entry
  missing_entry node off missing o s t k e h = elim (Option-cases (find off o)) [
    | inl f ↦ sym (rw (f, load_entry) refl) ∙ h
    | inr (v, f) ↦ ground (arith, k, e, f)
  ]

  -- Null is at the node where the object has nothing at the offset.
  abbrev NullObject : ℕ → Pointer → ℕ → State A → Type 0
  NullObject node p o st =
      implies (z p.target && is_unwritten A p.offset (st.objects o)) (has_null A node st) ≡ true

  NullObject-later :
      (node : ℕ) (p : Pointer) (o : ℕ) (s t : State A)
      → Same A s t
      → NullObject node p o s
      → NullObject node p o t
  NullObject-later node p o s t same h = implies_intro _ _ (λ c.
      let (e, u) = and_true (z p.target) (is_unwritten A p.offset (t.objects o)) c in
      has_null-later node s t same (
        implies_elim (z p.target && is_unwritten A p.offset (s.objects o)) _ h
          (ground (arith, e, same.unwritten_before o p.offset u))))

  load_object-NullObject :
      (node : ℕ) (p : Pointer) (alone : Bool) (o : ℕ) (s t : State A)
      → Below A z s
      → load_object A node p alone o s ≡ some (t, false)
      → z p.target ≡ true
      → is_unwritten A p.offset (s.objects o) ≡ true
      → has_null A node t ≡ true
  unfolding load_object
  load_object-NullObject node p alone o s t below h e u =
      if-branch (λ (r : Option (State A × Bool)). r ≡ some (t, false) → has_null A node t ≡ true)
        (is_unknown p.offset)
        (λ k h.
          let (m, first, second) = quiet_steps _ _ s t h in
          has_null-later node m t (load_all-Taken A laws node (s.objects o) m t second).0 (
            if-branch (λ (f : Step (State A)). f s ≡ some (m, false) → has_null A node m ≡ true)
              (no_entries (s.objects o)) (λ n. null_branch node p _ s m below e)
              (λ n f. ground (arith, u, k, n)) first))
        (λ k h.
          let (m, first, second) = quiet_steps _ _ s t h in
          has_null-later node m t
            (load_entry-Proceeds A laws node unknown idle (s.objects o) (idle-Proceeds A laws) m t
              false second)
            (null_branch node p _ s m below e
              (missing_entry node p.offset _ (s.objects o) s m k u first)))
        h

  has_object :
      (p : Pointer) (s : State A)
      → can_be_dereferenced A p ≡ true
      → (length (get_memory_objects A p s).1 == 0) ≡ false
      → is_function (A.node_type (allocation A s p.target)) ≡ false
  has_object p s c n = ground (arith, n, objects_lem A p s)

  pub NullLoads-later :
      (node : ℕ) (p : Pointer) (s t : State A)
      → Same A s t
      → NullLoads A z node p s
      → NullLoads A z node p t
  NullLoads-later node p s t same h =
      let o = allocation A s p.target in
      let known = can_be_dereferenced A p in
      let f = is_function (A.node_type o) in
      let u = is_unwritten A p.offset (s.objects o) in
      let v = is_unwritten A p.offset (t.objects o) in
      rw (allocation-Same A s t p.target same) (
        implies_intro (z p.target && (known && (f || v))) (has_null A node t) (λ c.
          has_null-later node s t same (
            implies_elim (z p.target && (known && (f || u))) (has_null A node s) h
              (demand_later (z p.target) known f u v (same.unwritten_before o p.offset) c))))

  -- The loop over the objects.
  objects-NullLoads :
      (node : ℕ) (p : Pointer) (s t : State A)
      → Same A s t
      → (length (get_memory_objects A p s).1 == 0) ≡ false
      → All (λ o. NullObject node p o t) (get_memory_objects A p s).1
      → NullLoads A z node p t
  unfolding has_memory
  objects-NullLoads node p s t same n all =
      let o = allocation A s p.target in
      let known = can_be_dereferenced A p in
      let f = is_function (A.node_type o) in
      let v = is_unwritten A p.offset (t.objects o) in
      rw (allocation-Same A s t p.target same) (
        implies_intro (z p.target && (known && (f || v))) (has_null A node t) (λ c.
          let (y, e, w) = demand_elim (z p.target) known f v c in
          let plain = has_object p s e n in
          implies_elim (z p.target && v) (has_null A node t)
            (the_object A (λ a. NullObject node p a t) p s all (both_true known f e plain))
            (all_true (z p.target) v y (w plain))))

  abbrev demand : Pointer → State A → Bool
  demand p t =
      z p.target
      && (can_be_dereferenced A p
          && (is_function (A.node_type (allocation A t p.target))
              || is_unwritten A p.offset (t.objects (allocation A t p.target))))

  demand_parts :
      (p : Pointer) (t : State A)
      → demand p t ≡ true
      → (z p.target ≡ true) × (can_be_dereferenced A p ≡ true)
  demand_parts p t c =
      let o = allocation A t p.target in
      let (y, known, w) =
        demand_elim (z p.target) (can_be_dereferenced A p) (is_function (A.node_type o))
          (is_unwritten A p.offset (t.objects o)) c in
      (y, known)

  load_pointer-NullLoads :
      (node : ℕ) (p : Pointer) (s t : State A)
      → Same A s t
      → Below A z s
      → load_pointer A node p s ≡ some (t, false)
      → NullLoads A z node p t
  unfolding load_pointer
  load_pointer-NullLoads node p s t same below =
      let (m, objects) = get_memory_objects A p s in
      let got = get_memory_objects-Progress A p s in
      let Done = λ (r : Option (State A × Bool)). r ≡ some (t, false) → NullLoads A z node p t in
      let below' = Below-later s m got below in
      let alone = length objects == 1 in
      if-branch Done (p.target == A.unknown_memory)
        (λ e h.
          implies_intro (demand p t) (has_null A node t)
            (λ c. ground (arith, e, (demand_parts p t c).1)))
        (λ e.
          if-branch Done (not (can_be_dereferenced A p))
            (λ e' h.
              implies_intro (demand p t) (has_null A node t)
                (λ c. ground (arith, e', (demand_parts p t c).1)))
            (λ e'.
              if-branch Done (length objects == 0)
                (λ n.
                  if-branch Done (s.zero_initialized p.target)
                    (λ y h. implies_intro (demand p t) (has_null A node t) (λ c.
                      covers-add_pointer A laws node (null_pointer A) m t false
                        (some_inj (add_pointer A node (null_pointer A) m) (t, false) h)))
                    (λ y h.
                      implies_intro (demand p t) (has_null A node t)
                        (λ c. ground (arith, y, below p.target (demand_parts p t c).0))))
                (λ n h.
                  let (later, all) =
                    each-All-under (Same A) (NullObject node p) (Below A z) (Same-refl A)
                      (Same-trans A) (load_object A node p alone)
                      (λ o l k b e''.
                        let kept = load_object-Proceeds A laws node p alone o l k false e'' in
                        (
                          kept,
                          implies_intro _ _ (λ c.
                              let (y, u) =
                                and_true (z p.target) (is_unwritten A p.offset (k.objects o)) c in
                              load_object-NullObject node p alone o l k b e'' y
                                (kept.unwritten_before o p.offset u)),
                        ))
                      Below-later (NullObject-later node p) objects m t below' h in
                  objects-NullLoads node p s t same n all)))

  pub process_load-NullLoads :
      (node : ℕ) (s t : State A)
      → Same A s t
      → Below A z s
      → process_load A node s ≡ some (t, false)
      → All (λ p. NullLoads A z node p t) (node_pointers A t (get_operand A node 0))
  unfolding process_load
  process_load-NullLoads node s t same below h =
      let set = s.points_to (get_operand A node 0) in
      rw (same.nodes_same refl (get_operand A node 0)) (
        if-branch
          (λ (r : Option (State A × Bool)).
            r ≡ some (t, false) → All (λ p. NullLoads A z node p t) (A.sets.pointers set))
          (A.sets.is_empty set) (λ e h. All-empty A laws (λ p. NullLoads A z node p t) set e)
          (λ e h.
            (each-All-under (Same A) (NullLoads A z node) (Below A z) (Same-refl A) (Same-trans A)
              (load_pointer A node)
              (λ p l k b e'.
                let kept = load_pointer-Proceeds A laws node p l k false e' in
                (kept, load_pointer-NullLoads node p l k kept b e'))
              Below-later (NullLoads-later node) (A.sets.pointers set) s t below h).1)
          h)
