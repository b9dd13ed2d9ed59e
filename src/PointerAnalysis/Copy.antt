-- ===== src/PointerAnalysis/Copy.antt =====
-- lib/analysis/PointsTo/PointerAnalysis.cpp: `processMemcpy`.
use dg.Base.{
  ℕ, zero, suc, ◌+◌, ◌-◌, ◌%◌, ◌^◌, Bool, true, false, not, ◌||◌, ◌&&◌, Option, none, some, List,
  [], ◌∷◌,
}
use dg.Base.{◌==◌, if◌then◌else◌, leb, ltb, length}
use dg.Base.Steps.{Step, idle, pure_step, both, each}
use dg.Offset.{Offset, unknown, is_unknown}
use dg.PointsTo.{Pointer}
use dg.PointerAnalysis.{Program, State, write, null_pointer}
use dg.PointerAnalysis.Memory.{get_operand, add_pointer_at, add_pointers_at, get_memory_objects}
use dg.PointerAnalysis.Memory.{can_be_dereferenced}

-- The entry with the least offset from `lo` on, which an iterator over a map comes to.
abbrev pub earlier {ℓ} : {V : Type ℓ} → ℕ → Offset × V → Option (Offset × V) → Option (Offset × V)
earlier lo (k, v) none = if leb lo k then some (k, v) else none
earlier lo (k, v) (some (j, w)) = if leb lo k && leb k j then some (k, v) else some (j, w)

unfoldable pub next_entry {ℓ} : {V : Type ℓ} → ℕ → List (Offset × V) → Option (Offset × V)
next_entry lo [] = none
next_entry lo (x ∷ o) = earlier lo x (next_entry lo o)

-- As many rounds as there are offsets.
abbrev pub offset_count : ℕ
offset_count = 2 ^ 64

module _ (A : Program) where
  -- The test of `processMemcpy` on the offset of an entry
  unfoldable pub is_copied : Offset → Offset → Offset → Bool
  is_copied src_offset len off =
      is_unknown off
      || (is_unknown src_offset
          || leb src_offset off && (is_unknown len || ltb (off - src_offset) len))

  -- Where `processMemcpy` puts an entry in the object of the node `dest`, by sums and differences of
  -- machine integers.
  unfoldable pub copied_offset : Offset → Offset → ℕ → Offset → Offset
  copied_offset src_offset dest_offset dest off =
      let shift = (off + 2 ^ 64 - src_offset) % 2 ^ 64 in
      let new_off = (shift + dest_offset) % 2 ^ 64 in
      if not (is_unknown off) && (not (is_unknown src_offset) && not (is_unknown dest_offset))
      then if leb (unknown - dest_offset) shift
        then unknown
        else if leb (A.node_size dest) new_off || leb A.field_sensitivity new_off
        then unknown
        else new_off
      else unknown

  -- The loop of `processMemcpy` over the entries of the source, which may be the destination.
  unfoldable pub copy_entry :
      Pointer → Pointer → Offset → ℕ → Offset × A.sets.Carrier → Step (State A)
  copy_entry sptr dptr len dest (off, s) =
      if is_copied sptr.offset len off
      then pure_step (add_pointers_at A dest (copied_offset sptr.offset dptr.offset dest off) s)
      else idle

  unfoldable pub copy_entries : Pointer → Pointer → Offset → ℕ → ℕ → ℕ → ℕ → Step (State A)
  copy_entries sptr dptr len dest src zero lo st = some (st, false)
  copy_entries sptr dptr len dest src (suc fuel) lo st = elim (next_entry lo (st.objects src)) [
    | none ↦ some (st, false)
    | some entry ↦
        both (copy_entry sptr dptr len dest entry)
          (copy_entries sptr dptr len dest src fuel (suc entry.0)) st
  ]

  -- The body of the loop over the objects of the destination
  unfoldable pub copy_objects : Pointer → Pointer → Offset → Bool → List ℕ → ℕ → Step (State A)
  copy_objects sptr dptr len contains_null srcs dest =
      both
        (if contains_null then pure_step (add_pointer_at A dest unknown (null_pointer A)) else idle)
        (each (λ src. copy_entries sptr dptr len dest src offset_count 0) srcs)

  -- Whether the whole zero initialized source is copied
  abbrev pub is_whole : Pointer → Pointer → Offset → Bool
  is_whole sptr dptr len =
      not (A.node_size sptr.target == unknown)
      && (A.node_size sptr.target == A.node_size dptr.target
          && (len == A.node_size sptr.target && sptr.offset == 0))

  -- `setZeroInitialized`, which does not count as a change
  abbrev pub set_zero_initialized : ℕ → State A → State A
  set_zero_initialized n st = record st { zero_initialized = write st.zero_initialized n true }

  -- `processMemcpy` of two pointers
  unfoldable pub copy_memory : Pointer → Pointer → Offset → List ℕ → List ℕ → Step (State A)
  copy_memory sptr dptr len srcs dests st =
      if st.zero_initialized sptr.target
      then (if is_whole sptr dptr len
          then each (copy_objects sptr dptr len false srcs) dests
              (set_zero_initialized dptr.target st)
          else each (copy_objects sptr dptr len true srcs) dests st)
      else each (copy_objects sptr dptr len false srcs) dests st

  -- The body of the loop over the pointers to the destination; without an object, `abort` is called.
  unfoldable pub memcpy_dest : Pointer → Offset → List ℕ → Pointer → Step (State A)
  memcpy_dest sptr len srcs dptr st =
      let (st', dests) = get_memory_objects A dptr st in
      if not (can_be_dereferenced A dptr)
      then some (st, false)
      else if length dests == 0
      then none
      else copy_memory sptr dptr len srcs dests st'

  -- The body of the loop over the pointers to the source
  unfoldable pub memcpy_source : ℕ → Pointer → Step (State A)
  memcpy_source node sptr st =
      let (st', srcs) = get_memory_objects A sptr st in
      let dest_pointers = A.sets.pointers (st'.points_to (get_operand A node 1)) in
      if not (can_be_dereferenced A sptr)
      then some (st, false)
      else if length srcs == 0
      then none
      else each (memcpy_dest sptr (A.len node) srcs) dest_pointers st'

  -- `processMemcpy` of a node
  unfoldable pub process_memcpy : ℕ → Step (State A)
  process_memcpy node st =
      each (memcpy_source node) (A.sets.pointers (st.points_to (get_operand A node 0))) st
