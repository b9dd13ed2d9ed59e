-- ===== src/PointerAnalysis/Stable.antt =====
-- PointerAnalysis.cpp: what a step that changes nothing shows of the sets.
pub mod Object
pub mod Load
pub mod Copy
pub mod Memcpy
pub mod Gather
use dg.Base.{
  ℕ, zero, suc, Bool, true, false, not, ◌||◌, ◌&&◌, ◌≡◌, List, [], ◌∷◌, Option, none, some, All,
  arith, refl, sym, ap, ◌∙◌, subst, Bool-cases, inl, inr, length,
}
use dg.Base.{◌==◌, if◌then◌else◌}
use dg.Base.Maps.{find, put, find-put}
use dg.Base.Steps.{
  Step, idle, pure_step, both, each, if-branch, option-branch, some_inj, quiet_steps, each-All,
  Composes,
}
use dg.Offset.{Offset, unknown, is_unknown}
use dg.PointsTo.{Pointer}
use dg.PointsTo.Sets.{covers, SetLaws, is_nil}
use dg.PointerAnalysis.{NodeType, Program, State, write, unknown_pointer}
use dg.PointerAnalysis.Memory.{
  get_operand, can_be_dereferenced, allocation, allocation_of, is_function, add_pointer,
  add_pointers, add_pointer_at, add_pointers_at, get_memory_objects, set_at,
}
use dg.PointerAnalysis.Progress.{
  Progress, node_pointers, cell_pointers, set_at-put, Progress-laws, nothing-Progress,
}
use dg.PointerAnalysis.Inclusion.{implies, IsIncluded, has_memory, cell_of}

pub implies_intro : (a b : Bool) → (a ≡ true → b ≡ true) → implies a b ≡ true
implies_intro true b h = h refl
implies_intro false b h = refl

pub implies_elim : (a b : Bool) → implies a b ≡ true → a ≡ true → b ≡ true
implies_elim a b h e = ground arith

pub implies_and : (a b c : Bool) → (a ≡ true → implies b c ≡ true) → implies (a && b) c ≡ true
implies_and true b c h = h refl
implies_and false b c h = refl

-- The first two of a conjunction.
pub and_true : (a b : Bool) → (a && b) ≡ true → (a ≡ true) × (b ≡ true)
and_true a b h = ground arith

module _ (A : Program) where
  -- No set has other pointers than before.
  abbrev pub Same : State A → State A → Type 0
  Same s t = Progress A false s t

  pub Same-refl : (s : State A) → Same s s
  Same-refl = nothing-Progress A false

  pub Same-trans : (s m t : State A) → Same s m → Same m t → Same s t
  Same-trans s m t p q = (Progress-laws A).compose false false s m t p q

  pub allocation-Same : (s t : State A) (n : ℕ) → Same s t → allocation A t n ≡ allocation A s n
  unfolding allocation
  allocation-Same s t n same =
      ap (λ ps. allocation_of A (A.node_type n) ps n) (same.nodes_same refl n)

  pub has_memory-Same :
      (s t : State A) (p : Pointer) → Same s t → has_memory A t p ≡ has_memory A s p
  unfolding has_memory
  has_memory-Same s t p same =
      ap (λ n. can_be_dereferenced A p && not (is_function (A.node_type n)))
        (allocation-Same s t p.target same)

  pub cell_of-Same :
      (s t : State A) (p : Pointer) (off : Offset)
      → Same s t
      → cell_of A t p off ≡ cell_of A s p off
  cell_of-Same s t p off same =
      ap (λ n. cell_pointers A t n off) (allocation-Same s t p.target same)
      ∙ same.cells_same refl (allocation A s p.target) off

  -- The objects of a pointer.
  pub objects_lem :
      (p : Pointer) (s : State A)
      → (get_memory_objects A p s).1 ≡ (
          if is_function (A.node_type (allocation A s p.target))
          then []
          else allocation A s p.target ∷ [])
  unfolding get_memory_objects
  objects_lem p s = ground arith

  single_All {κ} :
      (P : ℕ → Type κ) (b : Bool) (a : ℕ) → All P (if b then [] else a ∷ []) → b ≡ false → P a
  single_All P true a all e = cc
  single_All P false a all e = all.0

  -- What holds of the objects of a pointer holds of its memory.
  pub the_object {κ} :
      (P : ℕ → Type κ) (p : Pointer) (s : State A)
      → All P (get_memory_objects A p s).1
      → has_memory A s p ≡ true
      → P (allocation A s p.target)
  unfolding has_memory
  the_object P p s all h =
      single_All P (is_function (A.node_type (allocation A s p.target))) (allocation A s p.target)
        (subst (λ os. All P os) (objects_lem p s) all) (ground (arith, h))

  pub no_object :
      (p : Pointer) (s : State A)
      → (length (get_memory_objects A p s).1 == 0) ≡ true
      → has_memory A s p ≡ false
  unfolding has_memory
  no_object p s e = ground (arith, e, objects_lem p s)

  pub not_dereferenced :
      (p : Pointer) (s : State A) → not (can_be_dereferenced A p) ≡ true → has_memory A s p ≡ false
  unfolding has_memory
  not_dereferenced p s e = ground arith

  pub unknown_target :
      (p : Pointer) (s : State A) → (p.target == A.unknown_memory) ≡ true → has_memory A s p ≡ false
  unfolding has_memory
  unknown_target p s e = ground arith

  module _ (laws : SetLaws A.sets) where
    nil_covers : (ps : List Pointer) (q : Pointer) → is_nil ps ≡ true → covers ps q ≡ false
    nil_covers [] q e = refl
    nil_covers (p ∷ ps) q e = ground arith

    -- No pointer is in a set that the code finds empty.
    pub empty_covers :
        (set : A.sets.Carrier) (q : Pointer)
        → A.sets.is_empty set ≡ true
        → covers (A.sets.pointers set) q ≡ false
    empty_covers set q e = nil_covers (A.sets.pointers set) q (sym (laws.is_empty_lem set) ∙ e)

    pub covers-add_pointer :
        (n : ℕ) (p : Pointer) (s t : State A) (c : Bool)
        → add_pointer A n p s ≡ (t, c)
        → covers (node_pointers A t n) p ≡ true
    unfolding add_pointer
    covers-add_pointer n p s t c h =
        subst (λ r. covers (node_pointers A r.0 n) p ≡ true) h
          (if-branch (λ x. covers (A.sets.pointers x) p ≡ true) (n == n)
            (λ e. laws.add_new p (s.points_to n)) (λ e. ground arith))

    pub covers-add_pointers :
        (n : ℕ) (ptrs : A.sets.Carrier) (s t : State A) (c : Bool) (q : Pointer)
        → add_pointers A n ptrs s ≡ (t, c)
        → covers (A.sets.pointers ptrs) q ≡ true
        → covers (node_pointers A t n) q ≡ true
    unfolding add_pointers
    covers-add_pointers n ptrs s t c q h e =
        subst (λ r. covers (node_pointers A r.0 n) q ≡ true) h
          (if-branch (λ x. covers (A.sets.pointers x) q ≡ true) (n == n)
            (λ z. laws.union_new (s.points_to n) ptrs q e) (λ z. ground arith))

    pub covers-add_pointers_at :
        (o : ℕ) (off : Offset) (ptrs : A.sets.Carrier) (s t : State A) (c : Bool) (q : Pointer)
        → add_pointers_at A o off ptrs s ≡ (t, c)
        → covers (A.sets.pointers ptrs) q ≡ true
        → covers (cell_pointers A t o off) q ≡ true
    unfolding add_pointers_at
    covers-add_pointers_at o off ptrs s t c q h e =
        subst (λ r. covers (cell_pointers A r.0 o off) q ≡ true) h
          (if-branch (λ (r : State A × Bool). covers (cell_pointers A r.0 o off) q ≡ true)
            (A.sets.is_empty ptrs) (λ z. ground (arith, empty_covers ptrs q z, e))
            (λ z.
              let old = set_at A off (s.objects o) in
              let new = (A.sets.union old ptrs).0 in
              if-branch (λ x. covers (A.sets.pointers (set_at A off x)) q ≡ true) (o == o)
                (λ e1. rw (set_at-put A off off new (s.objects o)) (
                  if-branch (λ x. covers (A.sets.pointers x) q ≡ true) (off == off)
                    (λ e2. laws.union_new old ptrs q e) (λ e2. ground arith)))
                (λ e1. ground arith)))
