-- ===== src/PointerAnalysis/Stable/Memcpy.antt =====
-- PointerAnalysis.cpp: `processMemcpy` over all pointers and objects.
use dg.Base.{
  ℕ, Bool, true, false, not, ◌&&◌, ◌≡◌, List, Option, some, All, arith, refl, sym, ◌∙◌, subst,
  length,
}
use dg.Base.{◌==◌}
use dg.Base.Steps.{each, if-branch, quiet_steps, each-All}
use dg.Offset.{Offset}
use dg.PointsTo.{Pointer}
use dg.PointsTo.Sets.{covers, SetLaws}
use dg.PointerAnalysis.{Program, State}
use dg.PointerAnalysis.Memory.{get_operand, can_be_dereferenced, allocation, get_memory_objects}
use dg.PointerAnalysis.Progress.{node_pointers, cell_pointers, get_memory_objects-Progress}
use dg.PointerAnalysis.Inclusion.{has_memory, cell_of}
use dg.PointerAnalysis.Stable.{
  implies_and, the_object, not_dereferenced, Same, Same-refl, Same-trans, allocation-Same,
  has_memory-Same, cell_of-Same,
}
use dg.Base.{◌≤◌, ◌<◌, ◌^◌, All-map, All-every}
use dg.PointerAnalysis.Copy.{
  is_copied, copied_offset, copy_entries, copy_objects, copy_memory, memcpy_dest, memcpy_source,
  process_memcpy, offset_count, set_zero_initialized, is_whole,
}
use dg.PointerAnalysis.Grows.Copy.{
  copy_entries-Proceeds, copy_objects-Proceeds, memcpy_dest-Proceeds, memcpy_source-Proceeds,
}
use dg.PointerAnalysis.Inclusion.{Copies}
use dg.PointerAnalysis.Stable.Copy.{Copied, Copied-later, copy_entries-Copied}

-- Every offset of an object is below 2 ^ 64.
abbrev pub OffsetsFit : (A : Program) → State A → Type 0
OffsetsFit A st = (o : ℕ) → All (λ e. e.0 < 2 ^ 64) (st.objects o)

module _ (A : Program) (laws : SetLaws A.sets) where
  -- No cell from 2 ^ 64 on has a pointer.
  abbrev pub Fits : State A → Type 0
  Fits st =
      (o : ℕ) (k : Offset) (q : Pointer) → 2 ^ 64 ≤ k → covers (cell_pointers A st o k) q ≡ false

  Fits-before : (s t : State A) → Same A s t → Fits t → Fits s
  Fits-before s t same fits o k q big =
      subst (λ x. covers x q ≡ false) (same.cells_same refl o k) (fits o k q big)

  pub Fits-after : (s t : State A) → Same A s t → Fits s → Fits t
  Fits-after s t same fits o k q big =
      subst (λ x. covers x q ≡ false) (sym (same.cells_same refl o k)) (fits o k q big)

  module _ (sp dp : Pointer) (len : Offset) (srcs : List ℕ) where
    abbrev FromAll : ℕ → State A → Type 0
    FromAll dest st =
        All (λ src. Fits st → (k : Offset) → Copied A laws sp dp len dest src k st) srcs

    FromAll-later : (dest : ℕ) (s t : State A) → Same A s t → FromAll dest s → FromAll dest t
    FromAll-later dest s t same = All-map _ _ srcs (λ src h fits k.
        Copied-later A laws sp dp len dest src k s t same (h (Fits-before s t same fits) k))

    copy_objects-FromAll :
        (contains_null : Bool) (dest : ℕ) (s t : State A)
        → copy_objects A sp dp len contains_null srcs dest s ≡ some (t, false)
        → FromAll dest t
    unfolding copy_objects
    copy_objects-FromAll contains_null dest s t h =
        let (m, first, second) = quiet_steps _ _ s t h in
        (each-All (Same A)
          (λ src st. Fits st → (k : Offset) → Copied A laws sp dp len dest src k st) (Same-refl A)
          (Same-trans A) (λ src. copy_entries A sp dp len dest src offset_count 0)
          (λ src l l' e.
            let kept =
              copy_entries-Proceeds A laws sp dp len dest src offset_count 0 l l' false e in
            (
              kept,
              λ fits k.
                  copy_entries-Copied A laws sp dp len dest src offset_count 0 l l'
                    (Fits-before l l' kept fits src) (omega arith) e k (omega arith),
            ))
          (λ src l l' kept p fits k.
            Copied-later A laws sp dp len dest src k l l' kept (p (Fits-before l l' kept fits) k))
          srcs m t second).1

    copy_loop-FromAll :
        (contains_null : Bool) (dests : List ℕ) (s t : State A)
        → each (copy_objects A sp dp len contains_null srcs) dests s ≡ some (t, false)
        → All (λ dest. FromAll dest t) dests
    copy_loop-FromAll contains_null dests s t h =
        (each-All (Same A) FromAll (Same-refl A) (Same-trans A)
          (copy_objects A sp dp len contains_null srcs)
          (λ dest l l' e. (
            copy_objects-Proceeds A laws sp dp len contains_null srcs dest l l' false e,
            copy_objects-FromAll contains_null dest l l' e,
          ))
          FromAll-later dests s t h).1

    copy_memory-FromAll :
        (dests : List ℕ) (s t : State A)
        → copy_memory A sp dp len srcs dests s ≡ some (t, false)
        → All (λ dest. FromAll dest t) dests
    unfolding copy_memory
    copy_memory-FromAll dests s t =
        let Done = λ (r : Option (State A × Bool)).
          r ≡ some (t, false) → All (λ dest. FromAll dest t) dests in
        if-branch Done (s.zero_initialized sp.target)
          (λ z.
            if-branch Done (is_whole A sp dp len)
              (λ w. copy_loop-FromAll false dests (set_zero_initialized A dp.target s) t)
              (λ w. copy_loop-FromAll true dests s t))
          (λ z. copy_loop-FromAll false dests s t)

  module _ (sp : Pointer) (len : Offset) (srcs : List ℕ) where
    -- The memory of a pointer has been copied to.
    abbrev ToMemory : Pointer → State A → Type 0
    ToMemory dp st =
        has_memory A st dp ≡ true → FromAll sp dp len srcs (allocation A st dp.target) st

    ToMemory-later : (dp : Pointer) (s t : State A) → Same A s t → ToMemory dp s → ToMemory dp t
    ToMemory-later dp s t same h z = rw (allocation-Same A s t dp.target same) (
        FromAll-later sp dp len srcs (allocation A s dp.target) s t same
          (h (sym (has_memory-Same A s t dp same) ∙ z)))

    memcpy_dest-ToMemory :
        (dp : Pointer) (s t : State A)
        → Same A s t
        → memcpy_dest A sp len srcs dp s ≡ some (t, false)
        → ToMemory dp t
    unfolding memcpy_dest
    memcpy_dest-ToMemory dp s t same =
        let (m, dests) = get_memory_objects A dp s in
        let Done = λ (r : Option (State A × Bool)). r ≡ some (t, false) → ToMemory dp t in
        if-branch Done (not (can_be_dereferenced A dp))
          (λ e h z. ground (arith, not_dereferenced A dp t e, z))
          (λ e.
            if-branch Done (length dests == 0) (λ n h. cc)
              (λ n h z. rw (allocation-Same A s t dp.target same) (
                the_object A (λ dest. FromAll sp dp len srcs dest t) dp s
                  (copy_memory-FromAll sp dp len srcs dests m t h)
                  (sym (has_memory-Same A s t dp same) ∙ z))))

  -- What one pointer to the source gives.
  abbrev FromPointer : ℕ → Pointer → State A → Type 0
  FromPointer node sp st =
      Fits st → All (λ dp. Copies A node sp dp st) (node_pointers A st (get_operand A node 1))

  pub Copies-later :
      (node : ℕ) (sp dp : Pointer) (s t : State A)
      → Same A s t
      → Copies A node sp dp s
      → Copies A node sp dp t
  Copies-later node sp dp s t same c off q =
      rw
        (
          has_memory-Same A s t sp same,
          has_memory-Same A s t dp same,
          cell_of-Same A s t sp off same,
          allocation-Same A s t dp.target same,
          same.cells_same refl (allocation A s dp.target)
              (copied_offset A sp.offset dp.offset (allocation A s dp.target) off),
        )
        (c off q)

  FromPointer-later :
      (node : ℕ) (sp : Pointer) (s t : State A)
      → Same A s t
      → FromPointer node sp s
      → FromPointer node sp t
  FromPointer-later node sp s t same h fits = rw (same.nodes_same refl (get_operand A node 1)) (
      All-map _ _ (node_pointers A s (get_operand A node 1))
        (λ dp. Copies-later node sp dp s t same) (h (Fits-before s t same fits)))

  -- A pointer without memory gives nothing.
  no_source :
      (node : ℕ) (sp : Pointer) (t : State A) (dps : List Pointer)
      → has_memory A t sp ≡ false
      → All (λ dp. Copies A node sp dp t) dps
  no_source node sp t dps e = All-every _ dps (λ dp off q. rw e refl)

  Copies-of :
      (node : ℕ) (sp dp : Pointer) (s t : State A)
      → Same A s t
      → Fits t
      → ToMemory sp (A.len node) (get_memory_objects A sp s).1 dp t
      → Copies A node sp dp t
  Copies-of node sp dp s t same fits h off q =
      let to = copied_offset A sp.offset dp.offset (allocation A t dp.target) off in
      let copied = is_copied A sp.offset (A.len node) off && covers (cell_of A t sp off) q in
      let there = covers (cell_of A t dp to) q in
      implies_and (has_memory A t sp) (has_memory A t dp && copied) there (λ z.
        implies_and (has_memory A t dp) copied there (λ z'.
          rw (allocation-Same A s t sp.target same) (
            the_object A
              (λ src.
                Fits t
                → (k : Offset)
                → Copied A laws sp dp (A.len node) (allocation A t dp.target) src k t)
              sp s (h z') (sym (has_memory-Same A s t sp same) ∙ z) fits off q)))

  memcpy_source-FromPointer :
      (node : ℕ) (sp : Pointer) (s t : State A)
      → Same A s t
      → memcpy_source A node sp s ≡ some (t, false)
      → FromPointer node sp t
  unfolding memcpy_source
  memcpy_source-FromPointer node sp s t same =
      let (m, srcs) = get_memory_objects A sp s in
      let got = get_memory_objects-Progress A sp s in
      let dps = node_pointers A m (get_operand A node 1) in
      let Done = λ (r : Option (State A × Bool)). r ≡ some (t, false) → FromPointer node sp t in
      if-branch Done (not (can_be_dereferenced A sp))
        (λ e h fits. no_source node sp t _ (not_dereferenced A sp t e))
        (λ e.
          if-branch Done (length srcs == 0) (λ n h. cc)
            (λ n h fits.
              let (later, all) =
                each-All (Same A) (ToMemory sp (A.len node) srcs) (Same-refl A) (Same-trans A)
                  (memcpy_dest A sp (A.len node) srcs)
                  (λ dp l k e'.
                    let kept = memcpy_dest-Proceeds A laws sp (A.len node) srcs dp l k false e' in
                    (kept, memcpy_dest-ToMemory sp (A.len node) srcs dp l k kept e'))
                  (ToMemory-later sp (A.len node) srcs) dps m t h in
              rw (later.nodes_same refl (get_operand A node 1))
                (All-map _ _ dps (λ dp. Copies-of node sp dp s t same fits) all)))

  pub process_memcpy-Copies :
      (node : ℕ) (s t : State A)
      → Same A s t
      → Fits t
      → process_memcpy A node s ≡ some (t, false)
      → All
          (λ sp. All (λ dp. Copies A node sp dp t) (node_pointers A t (get_operand A node 1)))
          (node_pointers A t (get_operand A node 0))
  unfolding process_memcpy
  process_memcpy-Copies node s t same fits h = rw (same.nodes_same refl (get_operand A node 0)) (
      All-map _ _ (node_pointers A s (get_operand A node 0)) (λ sp p. p fits)
        (each-All (Same A) (FromPointer node) (Same-refl A) (Same-trans A) (memcpy_source A node)
          (λ sp l k e.
            let kept = memcpy_source-Proceeds A laws node sp l k false e in
            (kept, memcpy_source-FromPointer node sp l k kept e))
          (FromPointer-later node) (node_pointers A s (get_operand A node 0)) s t h).1)
