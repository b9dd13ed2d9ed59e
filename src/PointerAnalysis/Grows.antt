-- ===== src/PointerAnalysis/Grows.antt =====
-- PointerAnalysis.cpp: steps that keep what every step keeps.
pub mod Load
pub mod Copy
pub mod Gather
pub mod Node
use dg.Base.{
  ℕ, zero, suc, Bool, true, false, not, ◌||◌, ◌≡◌, refl, sym, ap, ◌∙◌, List, [], ◌∷◌, Option, none,
  some, arith, Bool-cases, inl, inr, subst, length, ◌&&◌,
}
use dg.Base.{◌==◌, if◌then◌else◌}
use dg.Base.Maps.{find}
use dg.Base.Steps
use dg.Base.Steps.{
  Step, idle, pure_step, both, each, Keeps, if-branch, option-branch, some_inj, idle-Keeps,
  pure_step-Keeps, both-Keeps, each-Keeps,
}
use dg.Offset.{Offset, unknown, is_unknown}
use dg.PointsTo.{Pointer}
use dg.PointsTo.Sets.{SetLaws}
use dg.PointerAnalysis.{
  NodeType, Program, MemoryObject, State, write, null_pointer, unknown_pointer,
}
use dg.PointerAnalysis.Memory.{
  add_pointer, add_pointers, add_pointer_at, add_pointers_at, get_memory_objects,
  can_be_dereferenced, get_operand, is_function,
}
use dg.PointerAnalysis.Load.{
  load_all, load_entry, load_object, load_pointer, process_load, gep_pointer, gep_result,
  process_gep, no_entries,
}
use dg.PointerAnalysis.Copy.{
  next_entry, copy_entry, copy_entries, copy_objects, copy_memory, memcpy_dest, memcpy_source,
  process_memcpy, is_copied, copied_offset, offset_count, set_zero_initialized, is_whole,
}
use dg.PointerAnalysis.Process.{
  store_pointer, process_store, add_operand_set, process_phi, invalidate_pointer,
  invalidate_operand, process_call_return, call_pointer, process_call_funcptr,
  process_invalidate_locals, process_node, process_type,
}
use dg.PointerAnalysis.Progress.{
  Progress, nothing-Progress, Progress-laws, add_pointer-Progress, add_pointers-Progress,
  add_pointer_at-Progress, add_pointers_at-Progress, get_memory_objects-Progress,
}

module _ (A : Program) (laws : SetLaws A.sets) where
  -- A step that keeps everything.
  abbrev pub Proceeds : Step (State A) → Type 0
  Proceeds f = Keeps (Progress A) f

  -- The same of what a step gives.
  abbrev pub After : State A → Option (State A × Bool) → Type 0
  After s r = (t : State A) (c : Bool) → r ≡ some (t, c) → Progress A c s t

  pub After-quiet :
      (s m : State A) (r : Option (State A × Bool)) → Progress A false s m → After m r → After s r
  After-quiet s m r p k t c h = (Progress-laws A).compose false c s m t p (k t c h)

  pub After-some : (s m : State A) (b : Bool) → Progress A b s m → After s (some (m, b))
  After-some s m b p t c h = subst (λ r. Progress A r.1 s r.0) (some_inj (m, b) (t, c) h) p

  pub idle-Proceeds : Proceeds idle
  idle-Proceeds = idle-Keeps (Progress A) (Progress-laws A)

  pub both-Proceeds : (f g : Step (State A)) → Proceeds f → Proceeds g → Proceeds (both f g)
  both-Proceeds = both-Keeps (Progress A) (Progress-laws A)

  pub each-Proceeds {ι} :
      {V : Type ι} (f : V → Step (State A)) (xs : List V)
      → ((x : V) → Proceeds (f x))
      → Proceeds (each f xs)
  each-Proceeds = each-Keeps (Progress A) (Progress-laws A)

  pub add_pointer-Proceeds : (n : ℕ) (p : Pointer) → Proceeds (pure_step (add_pointer A n p))
  add_pointer-Proceeds n p =
      pure_step-Keeps (Progress A) (Progress-laws A) (add_pointer A n p)
        (add_pointer-Progress A laws n p)

  -- An abort gives no state.
  pub After-none : (s : State A) → After s none
  After-none s t c h = ground arith
