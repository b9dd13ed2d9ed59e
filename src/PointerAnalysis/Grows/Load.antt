-- ===== src/PointerAnalysis/Grows/Load.antt =====
-- PointerAnalysis.cpp: `processLoad` and `processGep`.
use dg.Base.{ℕ, Bool, not, length}
use dg.Base.{◌==◌}
use dg.Base.Maps.{find}
use dg.Base.Steps.{Step, idle, if-branch, option-branch, pure_step-Keeps}
use dg.Offset.{Offset, unknown, is_unknown}
use dg.PointsTo.{Pointer}
use dg.PointsTo.Sets.{SetLaws}
use dg.PointerAnalysis.{Program, MemoryObject, State, null_pointer, unknown_pointer}
use dg.PointerAnalysis.Memory.{add_pointers, get_memory_objects, can_be_dereferenced, get_operand}
use dg.PointerAnalysis.Load.{
  load_all, load_entry, load_object, load_pointer, process_load, gep_pointer, gep_result,
  process_gep, no_entries,
}
use dg.PointerAnalysis.Progress.{
  Progress, Progress-laws, add_pointers-Progress, get_memory_objects-Progress,
}
use dg.PointerAnalysis.Grows.{
  Proceeds, After, After-quiet, idle-Proceeds, both-Proceeds, each-Proceeds, add_pointer-Proceeds,
}

module _ (A : Program) (laws : SetLaws A.sets) where
  pub load_all-Proceeds :
      (node : ℕ) (entry : Offset × A.sets.Carrier) → Proceeds A laws (load_all A node entry)
  unfolding load_all
  load_all-Proceeds node (off, set) =
      pure_step-Keeps (Progress A) (Progress-laws A) (add_pointers A node set)
        (add_pointers-Progress A laws node set)

  pub load_entry-Proceeds :
      (node : ℕ) (off : Offset) (missing : Step (State A)) (o : MemoryObject A)
      → Proceeds A laws missing
      → Proceeds A laws (load_entry A node off missing o)
  unfolding load_entry
  load_entry-Proceeds node off missing o k = option-branch (Proceeds A laws) (find off o) k (λ set.
      pure_step-Keeps (Progress A) (Progress-laws A) (add_pointers A node set)
        (add_pointers-Progress A laws node set))

  pub load_object-Proceeds :
      (node : ℕ) (p : Pointer) (alone : Bool) (o : ℕ)
      → Proceeds A laws (load_object A node p alone o)
  unfolding load_object
  load_object-Proceeds node p alone o s =
      let null = add_pointer-Proceeds A laws node (null_pointer A) in
      if-branch (After A laws s) (is_unknown p.offset)
        (λ e.
          both-Proceeds A laws _ _
            (if-branch (Proceeds A laws) (no_entries (s.objects o))
              (λ e'.
                if-branch (Proceeds A laws) (s.zero_initialized p.target) (λ z. null)
                  (λ z.
                    if-branch (Proceeds A laws) alone (λ a. idle-Proceeds A laws)
                      (λ a. idle-Proceeds A laws)))
              (λ e'. idle-Proceeds A laws))
            (each-Proceeds A laws (load_all A node) (s.objects o) (load_all-Proceeds node)) s)
        (λ e.
          both-Proceeds A laws _ _
            (load_entry-Proceeds node p.offset _ (s.objects o) (
              if-branch (Proceeds A laws) (s.zero_initialized p.target) (λ z. null)
                (λ z.
                  option-branch (Proceeds A laws) (find unknown (s.objects o))
                    (idle-Proceeds A laws) (λ set. idle-Proceeds A laws))))
            (load_entry-Proceeds node unknown idle (s.objects o) (idle-Proceeds A laws)) s)

  pub load_pointer-Proceeds : (node : ℕ) (p : Pointer) → Proceeds A laws (load_pointer A node p)
  unfolding load_pointer
  load_pointer-Proceeds node p s =
      let (m, objects) = get_memory_objects A p s in
      let got = get_memory_objects-Progress A p s in
      if-branch (After A laws s) (p.target == A.unknown_memory)
        (λ e. add_pointer-Proceeds A laws node (unknown_pointer A) s)
        (λ e.
          if-branch (After A laws s) (not (can_be_dereferenced A p)) (λ e'. idle-Proceeds A laws s)
            (λ e'.
              if-branch (After A laws s) (length objects == 0)
                (λ n.
                  if-branch (After A laws s) (s.zero_initialized p.target)
                    (λ z.
                      After-quiet A laws s m _ got
                        (add_pointer-Proceeds A laws node (null_pointer A) m))
                    (λ z. After-quiet A laws s m _ got (idle-Proceeds A laws m)))
                (λ n. After-quiet A laws s m _ got (
                  each-Proceeds A laws (load_object A node p (length objects == 1)) objects
                    (load_object-Proceeds node p (length objects == 1)) m))))

  pub process_load-Proceeds : (node : ℕ) → Proceeds A laws (process_load A node)
  unfolding process_load
  process_load-Proceeds node s =
      let pts = s.points_to (get_operand A node 0) in
      if-branch (After A laws s) (A.sets.is_empty pts) (λ e. idle-Proceeds A laws s)
        (λ e.
          each-Proceeds A laws (load_pointer A node) (A.sets.pointers pts)
            (load_pointer-Proceeds node) s)

  pub gep_pointer-Proceeds : (node : ℕ) (p : Pointer) → Proceeds A laws (gep_pointer A node p)
  unfolding gep_pointer
  gep_pointer-Proceeds node p s =
      add_pointer-Proceeds A laws node (gep_result A p (s.gep_offset node)) s

  pub process_gep-Proceeds : (node : ℕ) → Proceeds A laws (process_gep A node)
  unfolding process_gep
  process_gep-Proceeds node s =
      each-Proceeds A laws (gep_pointer A node) _ (gep_pointer-Proceeds node) s
