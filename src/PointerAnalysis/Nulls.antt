-- ===== src/PointerAnalysis/Nulls.antt =====
-- PointerAnalysis.cpp: what `processLoad` and `processMemcpy` do for zero initialised memory.
pub mod Load
pub mod Memcpy
use dg.Base.{ℕ, Bool, true, ◌||◌, ◌&&◌, ◌≡◌, All}
use dg.Base.{if◌then◌else◌}
use dg.Offset.{unknown}
use dg.PointsTo.{Pointer}
use dg.PointsTo.Sets.{covers}
use dg.PointerAnalysis.{NodeType, Program, State, null_pointer}
use dg.PointerAnalysis.Memory.{get_operand, can_be_dereferenced, allocation, is_function}
use dg.PointerAnalysis.Copy.{is_whole}
use dg.PointerAnalysis.Inclusion.{implies, has_memory, cell_of}
use dg.PointerAnalysis.Progress.{node_pointers, is_unwritten}

module _ (A : Program) where
  -- The memory of a state is zero initialised where `z` says so.
  abbrev pub Below : (ℕ → Bool) → State A → Type 0
  Below z st = (n : ℕ) → z n ≡ true → st.zero_initialized n ≡ true

  abbrev pub has_null : ℕ → State A → Bool
  has_null node st = covers (node_pointers A st node) (null_pointer A)

  -- A load over a pointer to zero initialised memory that has no object, or has nothing at the
  -- offset, yields null.
  abbrev pub NullLoads : (ℕ → Bool) → ℕ → Pointer → State A → Type 0
  NullLoads z node p st =
      implies
        (z p.target
          && (can_be_dereferenced A p
              && (is_function (A.node_type (allocation A st p.target))
                  || is_unwritten A p.offset (st.objects (allocation A st p.target)))))
        (has_null node st)
      ≡ true

  -- Zero initialised as a whole, or with null at the unknown offset
  abbrev pub is_zeroed : Pointer → Bool → State A → Bool
  is_zeroed dp whole st =
      if whole
      then st.zero_initialized dp.target
      else covers (cell_of A st dp unknown) (null_pointer A)

  -- A copy of zero initialised memory makes the destination zero initialised, too, where the whole
  -- is copied, and brings null to its unknown offset otherwise.
  abbrev pub NullCopies : (ℕ → Bool) → ℕ → Pointer → Pointer → State A → Type 0
  NullCopies z node sp dp st =
      implies (z sp.target && (has_memory A st sp && has_memory A st dp))
        (is_zeroed dp (is_whole A sp dp (A.len node)) st)
      ≡ true

  -- What a node of each kind demands where `z` says which memory is zero initialised.
  abbrev pub HasNulls : NodeType → (ℕ → Bool) → ℕ → State A → Type 0
  HasNulls NodeType.load z node st =
      All (λ p. NullLoads z node p st) (node_pointers A st (get_operand A node 0))
  HasNulls NodeType.memcpy z node st =
      All (λ sp. All (λ dp. NullCopies z node sp dp st) (node_pointers A st (get_operand A node 1)))
        (node_pointers A st (get_operand A node 0))
  HasNulls _ z node st = Unit
