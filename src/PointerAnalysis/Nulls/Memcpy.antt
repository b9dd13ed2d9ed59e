-- ===== src/PointerAnalysis/Nulls/Memcpy.antt =====
-- PointerAnalysis.cpp: `processMemcpy` of zero initialised memory.
use dg.Base.{
  ℕ, Bool, true, false, not, ◌&&◌, ◌≡◌, List, Option, some, All, All-map, All-every, arith, refl,
  sym, ◌∙◌, length, subst,
}
use dg.Base.{◌==◌, if◌then◌else◌}
use dg.Base.Steps.{if-branch, some_inj, quiet_steps, each-All, each-All-under}
use dg.Offset.{Offset, unknown}
use dg.PointsTo.{Pointer}
use dg.PointsTo.Sets.{covers, SetLaws}
use dg.PointerAnalysis.{Program, State, write, null_pointer}
use dg.PointerAnalysis.Memory.{
  get_operand, can_be_dereferenced, add_pointer_at, get_memory_objects, allocation, set_at,
}
use dg.PointerAnalysis.Copy.{
  copy_entries, copy_objects, copy_memory, memcpy_dest, memcpy_source, process_memcpy, offset_count,
  set_zero_initialized, is_whole,
}
use dg.PointerAnalysis.Progress.{
  node_pointers, cell_pointers, get_memory_objects-Progress, set_at-put,
}
use dg.PointerAnalysis.Grows.{each-Proceeds}
use dg.PointerAnalysis.Grows.Copy.{
  copy_entries-Proceeds, copy_objects-Proceeds, memcpy_dest-Proceeds, memcpy_source-Proceeds,
}
use dg.PointerAnalysis.Inclusion.{implies, has_memory}
use dg.PointerAnalysis.Stable.{
  implies_intro, implies_elim, the_object, not_dereferenced, Same, Same-refl, Same-trans,
  allocation-Same, has_memory-Same, and_true,
}
use dg.PointerAnalysis.Nulls.{Below, is_zeroed, NullCopies}
use dg.PointerAnalysis.Nulls.Load.{Below-later}

written : (f : ℕ → Bool) (n : ℕ) → write f n true n ≡ true
written f n = ground arith

drop_middle : (a b c d : Bool) → implies (a && c) d ≡ true → implies (a && (b && c)) d ≡ true
drop_middle a b c d h = ground arith

no_middle : (a b c d : Bool) → b ≡ false → implies (a && (b && c)) d ≡ true
no_middle a b c d h = ground arith

module _ (A : Program) (laws : SetLaws A.sets) where
  covers-add_pointer_at :
      (o : ℕ) (off : Offset) (p : Pointer) (s t : State A) (c : Bool)
      → add_pointer_at A o off p s ≡ (t, c)
      → covers (cell_pointers A t o off) p ≡ true
  unfolding add_pointer_at
  covers-add_pointer_at o off p s t c h =
      let old = set_at A off (s.objects o) in
      let new = (A.sets.add p old).0 in
      subst (λ r. covers (cell_pointers A r.0 o off) p ≡ true) h
        (if-branch (λ x. covers (A.sets.pointers (set_at A off x)) p ≡ true) (o == o)
          (λ e1. rw (set_at-put A off off new (s.objects o)) (
            if-branch (λ x. covers (A.sets.pointers x) p ≡ true) (off == off)
              (λ e2. laws.add_new p old) (λ e2. ground arith)))
          (λ e1. ground arith))

  -- Null is at the unknown offset of an object.
  abbrev NullAt : ℕ → State A → Type 0
  NullAt o st = covers (cell_pointers A st o unknown) (null_pointer A) ≡ true

  NullAt-later : (o : ℕ) (s t : State A) → Same A s t → NullAt o s → NullAt o t
  NullAt-later o s t same = same.cells_grow o unknown (null_pointer A)

  copy_objects-NullAt :
      (sp dp : Pointer) (len : Offset) (srcs : List ℕ) (dest : ℕ) (s t : State A)
      → copy_objects A sp dp len true srcs dest s ≡ some (t, false)
      → NullAt dest t
  unfolding copy_objects
  copy_objects-NullAt sp dp len srcs dest s t h =
      let (m, first, second) = quiet_steps _ _ s t h in
      NullAt-later dest m t
        (each-Proceeds A laws (λ src. copy_entries A sp dp len dest src offset_count 0) srcs
          (λ src. copy_entries-Proceeds A laws sp dp len dest src offset_count 0) m t false second)
        (covers-add_pointer_at dest unknown (null_pointer A) s m false
          (some_inj _ (m, false) first))

  is_zeroed-later :
      (dp : Pointer) (whole : Bool) (s t : State A)
      → Same A s t
      → is_zeroed A dp whole s ≡ true
      → is_zeroed A dp whole t ≡ true
  is_zeroed-later dp true s t same h = same.zeros_grow dp.target h
  is_zeroed-later dp false s t same h =
      rw (allocation-Same A s t dp.target same) (NullAt-later (allocation A s dp.target) s t same h)

  module _ (sp dp : Pointer) (len : Offset) (srcs : List ℕ) where
    -- The object of the destination is zeroed.
    abbrev Zeroed : ℕ → State A → Type 0
    Zeroed dest st =
        (if is_whole A sp dp len
          then st.zero_initialized dp.target
          else covers (cell_pointers A st dest unknown) (null_pointer A))
        ≡ true

    copy_memory-Zeroed :
        (dests : List ℕ) (s t : State A)
        → s.zero_initialized sp.target ≡ true
        → copy_memory A sp dp len srcs dests s ≡ some (t, false)
        → All (λ dest. Zeroed dest t) dests
    unfolding copy_memory
    copy_memory-Zeroed dests s t e =
        let Done = λ (r : Option (State A × Bool)).
          r ≡ some (t, false) → All (λ dest. Zeroed dest t) dests in
        rw e (
          if-branch Done (is_whole A sp dp len)
            (λ w h. All-every _ dests (λ dest. rw w (
              (each-Proceeds A laws (copy_objects A sp dp len false srcs) dests
                  (copy_objects-Proceeds A laws sp dp len false srcs)
                  (set_zero_initialized A dp.target s) t false h).zeros_grow
                dp.target (written s.zero_initialized dp.target))))
            (λ w h. rw w (
              (each-All (Same A) NullAt (Same-refl A) (Same-trans A)
                (copy_objects A sp dp len true srcs)
                (λ dest l k e'. (
                  copy_objects-Proceeds A laws sp dp len true srcs dest l k false e',
                  copy_objects-NullAt sp dp len srcs dest l k e',
                ))
                NullAt-later dests s t h).1)))

  module _ (z : ℕ → Bool) (sp : Pointer) (len : Offset) (srcs : List ℕ) where
    -- The memory of a pointer is zeroed.
    abbrev ZeroedMemory : Pointer → State A → Type 0
    ZeroedMemory dp st =
        implies (z sp.target && has_memory A st dp) (is_zeroed A dp (is_whole A sp dp len) st)
        ≡ true

    ZeroedMemory-later :
        (dp : Pointer) (s t : State A) → Same A s t → ZeroedMemory dp s → ZeroedMemory dp t
    ZeroedMemory-later dp s t same h = rw (has_memory-Same A s t dp same) (
        implies_intro (z sp.target && has_memory A s dp) (is_zeroed A dp (is_whole A sp dp len) t)
          (λ c. is_zeroed-later dp (is_whole A sp dp len) s t same (
            implies_elim (z sp.target && has_memory A s dp)
              (is_zeroed A dp (is_whole A sp dp len) s) h c)))

    memcpy_dest-ZeroedMemory :
        (dp : Pointer) (s t : State A)
        → Same A s t
        → Below A z s
        → memcpy_dest A sp len srcs dp s ≡ some (t, false)
        → ZeroedMemory dp t
    unfolding memcpy_dest
    memcpy_dest-ZeroedMemory dp s t same below h =
        let (m, dests) = get_memory_objects A dp s in
        let below' = Below-later A laws z s m (get_memory_objects-Progress A dp s) below in
        let Done = λ (r : Option (State A × Bool)).
          r ≡ some (t, false) → is_zeroed A dp (is_whole A sp dp len) t ≡ true in
        implies_intro (z sp.target && has_memory A t dp) (is_zeroed A dp (is_whole A sp dp len) t)
          (λ c.
            let (y, there) = and_true (z sp.target) (has_memory A t dp) c in
            if-branch Done (not (can_be_dereferenced A dp))
              (λ e h. ground (arith, not_dereferenced A dp t e, there))
              (λ e.
                if-branch Done (length dests == 0) (λ n h. cc)
                  (λ n h. rw (allocation-Same A s t dp.target same) (
                    the_object A (λ dest. Zeroed sp dp len srcs dest t) dp s
                      (copy_memory-Zeroed sp dp len srcs dests m t (below' sp.target y) h)
                      (sym (has_memory-Same A s t dp same) ∙ there))))
              h)

  module _ (z : ℕ → Bool) (node : ℕ) where
    -- What one pointer to the source gives.
    abbrev FromSource : Pointer → State A → Type 0
    FromSource sp st =
        All (λ dp. NullCopies A z node sp dp st) (node_pointers A st (get_operand A node 1))

    pub NullCopies-later :
        (sp dp : Pointer) (s t : State A)
        → Same A s t
        → NullCopies A z node sp dp s
        → NullCopies A z node sp dp t
    NullCopies-later sp dp s t same h =
        let whole = is_whole A sp dp (A.len node) in
        let asked = z sp.target && (has_memory A s sp && has_memory A s dp) in
        rw (has_memory-Same A s t sp same, has_memory-Same A s t dp same)
          (implies_intro asked (is_zeroed A dp whole t) (λ c.
            is_zeroed-later dp whole s t same (implies_elim asked (is_zeroed A dp whole s) h c)))

    FromSource-later :
        (sp : Pointer) (s t : State A) → Same A s t → FromSource sp s → FromSource sp t
    FromSource-later sp s t same h = rw (same.nodes_same refl (get_operand A node 1)) (
        All-map _ _ (node_pointers A s (get_operand A node 1))
          (λ dp. NullCopies-later sp dp s t same) h)

    NullCopies-of :
        (sp dp : Pointer) (srcs : List ℕ) (t : State A)
        → ZeroedMemory z sp (A.len node) srcs dp t
        → NullCopies A z node sp dp t
    NullCopies-of sp dp srcs t h =
        drop_middle (z sp.target) (has_memory A t sp) (has_memory A t dp)
          (is_zeroed A dp (is_whole A sp dp (A.len node)) t) h

    memcpy_source-FromSource :
        (sp : Pointer) (s t : State A)
        → Same A s t
        → Below A z s
        → memcpy_source A node sp s ≡ some (t, false)
        → FromSource sp t
    unfolding memcpy_source
    memcpy_source-FromSource sp s t same below =
        let (m, srcs) = get_memory_objects A sp s in
        let below' = Below-later A laws z s m (get_memory_objects-Progress A sp s) below in
        let dps = node_pointers A m (get_operand A node 1) in
        let Done = λ (r : Option (State A × Bool)). r ≡ some (t, false) → FromSource sp t in
        if-branch Done (not (can_be_dereferenced A sp))
          (λ e h. All-every _ _ (λ dp.
            no_middle (z sp.target) (has_memory A t sp) (has_memory A t dp)
              (is_zeroed A dp (is_whole A sp dp (A.len node)) t) (not_dereferenced A sp t e)))
          (λ e.
            if-branch Done (length srcs == 0) (λ n h. cc)
              (λ n h.
                let (later, all) =
                  each-All-under (Same A) (ZeroedMemory z sp (A.len node) srcs) (Below A z)
                    (Same-refl A) (Same-trans A) (memcpy_dest A sp (A.len node) srcs)
                    (λ dp l k b e'.
                      let kept = memcpy_dest-Proceeds A laws sp (A.len node) srcs dp l k false e' in
                      (kept, memcpy_dest-ZeroedMemory z sp (A.len node) srcs dp l k kept b e'))
                    (Below-later A laws z) (ZeroedMemory-later z sp (A.len node) srcs) dps m t
                    below' h in
                rw (later.nodes_same refl (get_operand A node 1))
                  (All-map _ _ dps (λ dp. NullCopies-of sp dp srcs t) all)))

    pub process_memcpy-NullCopies :
        (s t : State A)
        → Same A s t
        → Below A z s
        → process_memcpy A node s ≡ some (t, false)
        → All (λ sp. FromSource sp t) (node_pointers A t (get_operand A node 0))
    unfolding process_memcpy
    process_memcpy-NullCopies s t same below h = rw (same.nodes_same refl (get_operand A node 0)) (
        (each-All-under (Same A) FromSource (Below A z) (Same-refl A) (Same-trans A)
          (memcpy_source A node)
          (λ sp l k b e.
            let kept = memcpy_source-Proceeds A laws node sp l k false e in
            (kept, memcpy_source-FromSource sp l k kept b e))
          (Below-later A laws z) FromSource-later (node_pointers A s (get_operand A node 0)) s t
          below h).1)
