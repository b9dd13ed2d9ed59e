-- ===== src/PointerAnalysis/Grows/Copy.antt =====
-- PointerAnalysis.cpp: `processMemcpy`.
use dg.Base.{ℕ, zero, suc, Bool, true, false, not, ◌≡◌, refl, List, length}
use dg.Base.{◌==◌}
use dg.Base.Steps.{if-branch, option-branch, pure_step-Keeps}
use dg.Offset.{Offset, unknown}
use dg.PointsTo.{Pointer}
use dg.PointsTo.Sets.{SetLaws}
use dg.PointerAnalysis.{Program, State, null_pointer}
use dg.PointerAnalysis.Memory.{
  add_pointer_at, add_pointers_at, get_memory_objects, can_be_dereferenced,
}
use dg.PointerAnalysis.Copy.{
  next_entry, copy_entry, copy_entries, copy_objects, copy_memory, memcpy_dest, memcpy_source,
  process_memcpy, is_copied, copied_offset, offset_count, set_zero_initialized, is_whole,
}
use dg.PointerAnalysis.Progress.{
  Progress, Progress-laws, add_pointer_at-Progress, add_pointers_at-Progress,
  get_memory_objects-Progress,
}
use dg.PointerAnalysis.Grows.{
  Proceeds, After, After-quiet, idle-Proceeds, both-Proceeds, each-Proceeds, After-none,
}

module _ (A : Program) (laws : SetLaws A.sets) where
  pub copy_entry-Proceeds :
      (sptr dptr : Pointer) (len : Offset) (dest : ℕ) (entry : Offset × A.sets.Carrier)
      → Proceeds A laws (copy_entry A sptr dptr len dest entry)
  unfolding copy_entry
  copy_entry-Proceeds sptr dptr len dest (off, set) =
      if-branch (Proceeds A laws) (is_copied A sptr.offset len off)
        (λ e.
          let to = copied_offset A sptr.offset dptr.offset dest off in
          pure_step-Keeps (Progress A) (Progress-laws A) (add_pointers_at A dest to set)
            (add_pointers_at-Progress A laws dest to set))
        (λ e. idle-Proceeds A laws)

  pub copy_entries-Proceeds :
      (sptr dptr : Pointer) (len : Offset) (dest src fuel lo : ℕ)
      → Proceeds A laws (copy_entries A sptr dptr len dest src fuel lo)
  unfolding copy_entries
  copy_entries-Proceeds sptr dptr len dest src zero lo s = idle-Proceeds A laws s
  copy_entries-Proceeds sptr dptr len dest src (suc fuel) lo s =
      option-branch (After A laws s) (next_entry lo (s.objects src)) (idle-Proceeds A laws s)
        (λ entry.
          both-Proceeds A laws _ _ (copy_entry-Proceeds sptr dptr len dest entry)
            (copy_entries-Proceeds sptr dptr len dest src fuel (suc entry.0)) s)

  pub copy_objects-Proceeds :
      (sptr dptr : Pointer) (len : Offset) (contains_null : Bool) (srcs : List ℕ) (dest : ℕ)
      → Proceeds A laws (copy_objects A sptr dptr len contains_null srcs dest)
  unfolding copy_objects
  copy_objects-Proceeds sptr dptr len contains_null srcs dest =
      both-Proceeds A laws _ _
        (if-branch (Proceeds A laws) contains_null
          (λ e.
            pure_step-Keeps (Progress A) (Progress-laws A)
              (add_pointer_at A dest unknown (null_pointer A))
              (add_pointer_at-Progress A laws dest unknown (null_pointer A)))
          (λ e. idle-Proceeds A laws))
        (each-Proceeds A laws _ srcs
          (λ src. copy_entries-Proceeds sptr dptr len dest src offset_count 0))

  pub set_zero_initialized-Progress :
      (n : ℕ) (s : State A) → Progress A false s (set_zero_initialized A n s)
  set_zero_initialized-Progress n s = record {
    nodes_grow = λ m q h. h;
    cells_grow = λ o off q h. h;
    zeros_grow = λ m h. if-branch (λ b. b ≡ true) (n == m) (λ e. refl) (λ e. h);
    unwritten_before = λ o off h. h;
    geps_same = λ m. refl;
    nodes_same = λ quiet m. refl;
    cells_same = λ quiet o off. refl;
  }

  pub copy_memory-Proceeds :
      (sptr dptr : Pointer) (len : Offset) (srcs dests : List ℕ)
      → Proceeds A laws (copy_memory A sptr dptr len srcs dests)
  unfolding copy_memory
  copy_memory-Proceeds sptr dptr len srcs dests s =
      if-branch (After A laws s) (s.zero_initialized sptr.target)
        (λ z.
          if-branch (After A laws s) (is_whole A sptr dptr len)
            (λ w.
              let m = set_zero_initialized A dptr.target s in
              After-quiet A laws s m _ (set_zero_initialized-Progress dptr.target s)
                (each-Proceeds A laws _ dests (copy_objects-Proceeds sptr dptr len false srcs) m))
            (λ w. each-Proceeds A laws _ dests (copy_objects-Proceeds sptr dptr len true srcs) s))
        (λ z. each-Proceeds A laws _ dests (copy_objects-Proceeds sptr dptr len false srcs) s)

  pub memcpy_dest-Proceeds :
      (sptr : Pointer) (len : Offset) (srcs : List ℕ) (dptr : Pointer)
      → Proceeds A laws (memcpy_dest A sptr len srcs dptr)
  unfolding memcpy_dest
  memcpy_dest-Proceeds sptr len srcs dptr s =
      let (m, dests) = get_memory_objects A dptr s in
      if-branch (After A laws s) (not (can_be_dereferenced A dptr)) (λ e. idle-Proceeds A laws s)
        (λ e.
          if-branch (After A laws s) (length dests == 0) (λ n. After-none A laws s)
            (λ n.
              After-quiet A laws s m _ (get_memory_objects-Progress A dptr s)
                (copy_memory-Proceeds sptr dptr len srcs dests m)))

  pub memcpy_source-Proceeds :
      (node : ℕ) (sptr : Pointer) → Proceeds A laws (memcpy_source A node sptr)
  unfolding memcpy_source
  memcpy_source-Proceeds node sptr s =
      let (m, srcs) = get_memory_objects A sptr s in
      if-branch (After A laws s) (not (can_be_dereferenced A sptr)) (λ e. idle-Proceeds A laws s)
        (λ e.
          if-branch (After A laws s) (length srcs == 0) (λ n. After-none A laws s)
            (λ n.
              After-quiet A laws s m _ (get_memory_objects-Progress A sptr s)
                (each-Proceeds A laws _ _ (memcpy_dest-Proceeds sptr (A.len node) srcs) m)))

  pub process_memcpy-Proceeds : (node : ℕ) → Proceeds A laws (process_memcpy A node)
  unfolding process_memcpy
  process_memcpy-Proceeds node s = each-Proceeds A laws _ _ (memcpy_source-Proceeds node) s
