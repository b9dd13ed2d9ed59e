-- ===== src/PointerAnalysis/Grows/Gather.antt =====
-- PointerAnalysis.cpp: the other cases of `processNode`.
use dg.Base.{ℕ, false, not, refl, ◌&&◌}
use dg.Base.Steps.{if-branch}
use dg.PointsTo.{Pointer}
use dg.PointsTo.Sets.{SetLaws}
use dg.PointerAnalysis.{Program}
use dg.PointerAnalysis.Memory.{get_memory_objects, can_be_dereferenced, get_operand, is_function}
use dg.PointerAnalysis.Process.{
  store_pointer, process_store, add_operand_set, process_phi, invalidate_pointer,
  invalidate_operand, process_call_return, call_pointer, process_call_funcptr,
  process_invalidate_locals,
}
use dg.PointerAnalysis.Progress.{
  add_pointers-Progress, add_pointers_at-Progress, get_memory_objects-Progress,
}
use dg.PointerAnalysis.Grows.{
  Proceeds, After, After-quiet, After-some, idle-Proceeds, both-Proceeds, each-Proceeds,
  add_pointer-Proceeds,
}

module _ (A : Program) (laws : SetLaws A.sets) where
  pub store_pointer-Proceeds : (node : ℕ) (p : Pointer) → Proceeds A laws (store_pointer A node p)
  unfolding store_pointer
  store_pointer-Proceeds node p s =
      let (m, objects) = get_memory_objects A p s in
      if-branch (After A laws s) (not (can_be_dereferenced A p)) (λ e. idle-Proceeds A laws s)
        (λ e. After-quiet A laws s m _ (get_memory_objects-Progress A p s) (
          each-Proceeds A laws _ objects
            (λ o l.
              let set = l.points_to (get_operand A node 0) in
              After-some A laws l _ _ (add_pointers_at-Progress A laws o p.offset set l))
            m))

  pub process_store-Proceeds : (node : ℕ) → Proceeds A laws (process_store A node)
  unfolding process_store
  process_store-Proceeds node s = each-Proceeds A laws _ _ (store_pointer-Proceeds node) s

  pub add_operand_set-Proceeds : (node op : ℕ) → Proceeds A laws (add_operand_set A node op)
  unfolding add_operand_set
  add_operand_set-Proceeds node op s =
      After-some A laws s _ _ (add_pointers-Progress A laws node (s.points_to op) s)

  pub process_phi-Proceeds : (node : ℕ) → Proceeds A laws (process_phi A node)
  unfolding process_phi
  process_phi-Proceeds node = each-Proceeds A laws _ _ (add_operand_set-Proceeds node)

  pub invalidate_pointer-Proceeds :
      (node : ℕ) (p : Pointer) → Proceeds A laws (invalidate_pointer A node p)
  unfolding invalidate_pointer
  invalidate_pointer-Proceeds node p =
      if-branch (Proceeds A laws) (not (can_be_dereferenced A p)) (λ e. idle-Proceeds A laws)
        (λ e.
          if-branch (Proceeds A laws) (not (A.is_heap p.target) && not (A.is_global p.target))
            (λ l. add_pointer-Proceeds A laws node _) (λ l. idle-Proceeds A laws))

  pub invalidate_operand-Proceeds : (node op : ℕ) → Proceeds A laws (invalidate_operand A node op)
  unfolding invalidate_operand
  invalidate_operand-Proceeds node op s =
      each-Proceeds A laws (invalidate_pointer A node) _ (invalidate_pointer-Proceeds node) s

  pub process_call_return-Proceeds : (node : ℕ) → Proceeds A laws (process_call_return A node)
  unfolding process_call_return
  process_call_return-Proceeds node =
      both-Proceeds A laws _ _
        (if-branch (Proceeds A laws) A.invalidate_nodes
          (λ e.
            each-Proceeds A laws (invalidate_operand A node) _ (invalidate_operand-Proceeds node))
          (λ e. idle-Proceeds A laws))
        (process_phi-Proceeds node)

  pub call_pointer-Proceeds : (node : ℕ) (p : Pointer) → Proceeds A laws (call_pointer A node p)
  unfolding call_pointer
  call_pointer-Proceeds node p =
      if-branch (Proceeds A laws)
        (not A.invalidate_nodes && not (is_function (A.node_type p.target)))
        (λ e. idle-Proceeds A laws) (λ e. add_pointer-Proceeds A laws node p)

  pub process_call_funcptr-Proceeds : (node : ℕ) → Proceeds A laws (process_call_funcptr A node)
  unfolding process_call_funcptr
  process_call_funcptr-Proceeds node s =
      each-Proceeds A laws (call_pointer A node) _ (call_pointer-Proceeds node) s

  pub process_invalidate_locals-Proceeds :
      (node : ℕ) → Proceeds A laws (process_invalidate_locals A node)
  unfolding process_invalidate_locals
  process_invalidate_locals-Proceeds node s = After-some A laws s _ false (record {
    nodes_grow = λ m q h. h;
    cells_grow = λ o off q h. h;
    zeros_grow = λ m h. h;
    unwritten_before = λ o off h. h;
    geps_same = λ m. refl;
    nodes_same = λ quiet m. refl;
    cells_same = λ quiet o off. refl;
  })
