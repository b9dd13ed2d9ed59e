-- ===== src/PointerAnalysis/Load.antt =====
-- lib/analysis/PointsTo/PointerAnalysis.cpp: `processLoad` and `processGep`.
use dg.Base.{ℕ, ◌+◌, ◌^◌, ◌%◌, Bool, true, false, not, ◌||◌, ◌&&◌, none, some, List, [], ◌∷◌}
use dg.Base.{◌==◌, if◌then◌else◌, ltb, length}
use dg.Base.Maps.{find}
use dg.Base.Steps.{Step, idle, pure_step, both, each}
use dg.Offset.{Offset, unknown, is_unknown}
use dg.PointsTo.{Pointer}
use dg.PointerAnalysis.{Program, MemoryObject, State, unknown_pointer, null_pointer}
use dg.PointerAnalysis.Memory.{get_operand, add_pointer, add_pointers, get_memory_objects}
use dg.PointerAnalysis.Memory.{can_be_dereferenced, error, error_empty_points_to}

-- `std::map::empty`
abbrev pub no_entries {ℓ} : {V : Type ℓ} → List (Offset × V) → Bool
no_entries [] = true
no_entries (x ∷ xs) = false

module _ (A : Program) where
  -- All sets of an object, where the offset is not known.
  unfoldable pub load_all : ℕ → Offset × A.sets.Carrier → Step (State A)
  load_all node (off, s) = pure_step (add_pointers A node s)

  -- `changed |= node->addPointsTo(it->second)` where there is an entry
  unfoldable pub load_entry : ℕ → Offset → Step (State A) → MemoryObject A → Step (State A)
  load_entry node off missing o = elim (find off o) [
    | none ↦ missing
    | some s ↦ pure_step (add_pointers A node s)
  ]

  -- The body of the loop of `processLoad` over the objects; `alone` says that there is one.
  unfoldable pub load_object : ℕ → Pointer → Bool → ℕ → Step (State A)
  load_object node p alone o st =
      let entries = st.objects o in
      let add_null = pure_step (add_pointer A node (null_pointer A)) in
      if is_unknown p.offset
      then both
          (if no_entries entries
            then if st.zero_initialized p.target
              then add_null
              else if alone
              then error_empty_points_to A
              else idle
            else idle)
          (each (load_all node) entries) st
      else both
          (load_entry node p.offset
            (if st.zero_initialized p.target
              then add_null
              else elim (find unknown entries) [ none ↦ error_empty_points_to A | some s ↦ idle ])
            entries)
          (load_entry node unknown idle entries) st

  -- The body of the loop of `processLoad` over the pointers
  unfoldable pub load_pointer : ℕ → Pointer → Step (State A)
  load_pointer node p st =
      let (st', objects) = get_memory_objects A p st in
      if p.target == A.unknown_memory
      then some (add_pointer A node (unknown_pointer A) st)
      else if not (can_be_dereferenced A p)
      then some (st, false)
      else if length objects == 0
      then (if st.zero_initialized p.target
          then some (add_pointer A node (null_pointer A) st')
          else error_empty_points_to A st')
      else each (load_object node p (length objects == 1)) objects st'

  -- `processLoad`
  unfoldable pub process_load : ℕ → Step (State A)
  process_load node st =
      let pts = st.points_to (get_operand A node 0) in
      if A.sets.is_empty pts then error A st else each (load_pointer node) (A.sets.pointers pts) st

  -- The offset of `processGep`; the sum is one of machine integers.
  unfoldable pub gep_result : Pointer → Offset → Pointer
  gep_result p off =
      let new_offset =
        if is_unknown p.offset || is_unknown off then unknown else (p.offset + off) % 2 ^ 64 in
      record {
        target = p.target;
        offset =
            if (new_offset == 0 || ltb new_offset (A.node_size p.target))
              && ltb new_offset A.field_sensitivity
            then new_offset
            else unknown;
      }

  -- `processGep`
  unfoldable pub gep_pointer : ℕ → Pointer → Step (State A)
  gep_pointer node p st = some (add_pointer A node (gep_result p (st.gep_offset node)) st)

  unfoldable pub process_gep : ℕ → Step (State A)
  process_gep node st =
      each (gep_pointer node) (A.sets.pointers (st.points_to (get_operand A node 0))) st
