-- ===== src/PointerAnalysis/Stable/Object.antt =====
-- PointerAnalysis.cpp: the loops of `processLoad` over one object.
use dg.Base.{
  ℕ, Bool, true, false, ◌||◌, ◌&&◌, ◌≡◌, List, Option, none, some, All, arith, refl, sym, subst,
}
use dg.Base.{◌==◌}
use dg.Base.Maps.{find, All-find}
use dg.Base.Steps.{Step, idle, pure_step, each, if-branch, some_inj, quiet_steps, each-All}
use dg.Offset.{Offset, unknown, is_unknown}
use dg.PointsTo.{Pointer}
use dg.PointsTo.Sets.{covers, SetLaws}
use dg.PointerAnalysis.{Program, State, MemoryObject}
use dg.PointerAnalysis.Memory.{add_pointers, set_at}
use dg.PointerAnalysis.Load.{load_all, load_entry, load_object}
use dg.PointerAnalysis.Progress.{node_pointers, cell_pointers}
use dg.PointerAnalysis.Grows.Load.{load_all-Proceeds, load_entry-Proceeds}
use dg.PointerAnalysis.Grows.{idle-Proceeds}
use dg.PointerAnalysis.Inclusion.{implies, IsIncluded}
use dg.PointerAnalysis.Stable.{
  and_true, implies_intro, implies_elim, Same, Same-refl, Same-trans, covers-add_pointers,
}

module _ (A : Program) (laws : SetLaws A.sets) where
  -- The pointers of a set are at the node.
  abbrev pub Taken : ℕ → Offset × A.sets.Carrier → State A → Type 0
  Taken node (off, set) st = IsIncluded (A.sets.pointers set) (node_pointers A st node)

  pub IsIncluded-later :
      (ps : List Pointer) (node : ℕ) (s t : State A)
      → Same A s t
      → IsIncluded ps (node_pointers A s node)
      → IsIncluded ps (node_pointers A t node)
  IsIncluded-later ps node s t same h =
      subst (λ x. IsIncluded ps x) (sym (same.nodes_same refl node)) h

  pub set-IsIncluded :
      (node : ℕ) (set : A.sets.Carrier) (s t : State A)
      → some (add_pointers A node set s) ≡ some (t, false)
      → IsIncluded (A.sets.pointers set) (node_pointers A t node)
  set-IsIncluded node set s t h q = implies_intro _ _ (
      covers-add_pointers A laws node set s t false q
        (some_inj (add_pointers A node set s) (t, false) h))

  pub load_all-Taken :
      (node : ℕ) (entries : MemoryObject A) (s t : State A)
      → each (load_all A node) entries s ≡ some (t, false)
      → Same A s t × All (λ e. Taken node e t) entries
  unfolding load_all
  load_all-Taken node entries s t h =
      each-All (Same A) (Taken node) (Same-refl A) (Same-trans A) (load_all A node)
        (λ (off, set) l m e.
          (load_all-Proceeds A laws node (off, set) l m false e, set-IsIncluded node set l m e))
        (λ (off, set) l m same p. IsIncluded-later (A.sets.pointers set) node l m same p) entries s
        t h

  -- A cell is included where the set of its entry is.
  pub IsIncluded-cell :
      (found : Option A.sets.Carrier) (ns : List Pointer)
      → ((set : A.sets.Carrier) → found ≡ some set → IsIncluded (A.sets.pointers set) ns)
      → IsIncluded
          (A.sets.pointers
            (elim found as (λ x. A.sets.Carrier) [ none ↦ A.sets.no_pointers | some s ↦ s ]))
          ns
  IsIncluded-cell none ns h q = rw laws.no_pointers_lem refl
  IsIncluded-cell (some set) ns h q = h set refl q

  pub load_entry-Taken :
      (node : ℕ) (off : Offset) (missing : Step (State A)) (entries : MemoryObject A)
      (s t : State A)
      → load_entry A node off missing entries s ≡ some (t, false)
      → IsIncluded (A.sets.pointers (set_at A off entries)) (node_pointers A t node)
  unfolding load_entry
  load_entry-Taken node off missing entries s t h =
      IsIncluded-cell (find off entries) (node_pointers A t node) (λ set e.
        set-IsIncluded node set s t (
          subst
            (λ o.
              (elim o as (λ x. Step (State A)) [
                | none ↦ missing
                | some v ↦ pure_step (add_pointers A node v)
              ])
                s
              ≡ some (t, false))
            e h))

  -- What a load over a pointer reads from an object.
  abbrev pub Reads : ℕ → Pointer → ℕ → State A → Type 0
  Reads node p o st =
      (off : Offset) (q : Pointer)
      → implies
          ((is_unknown p.offset || (off == p.offset || is_unknown off))
            && covers (cell_pointers A st o off) q)
          (covers (node_pointers A st node) q)
        ≡ true

  -- The cell that a load reads, in the state before it.
  pub cell_before :
      (b : Bool) (o : ℕ) (off : Offset) (q : Pointer) (s t : State A)
      → Same A s t
      → (b && covers (cell_pointers A t o off) q) ≡ true
      → covers (cell_pointers A s o off) q ≡ true
  cell_before b o off q s t same z =
      subst (λ x. covers x q ≡ true) (same.cells_same refl o off)
        (and_true b (covers (cell_pointers A t o off) q) z).1

  -- A load over a known offset reads the cell there, and the one at the unknown offset.
  pub either_cell :
      (off own : Offset) (c d : Bool)
      → is_unknown own ≡ false
      → (off ≡ own → implies c d ≡ true)
      → (off ≡ unknown → implies c d ≡ true)
      → implies ((is_unknown own || (off == own || is_unknown off)) && c) d ≡ true
  either_cell off own c d e f g = ground (arith, e, f, g)

  pub load_object-Reads :
      (node : ℕ) (p : Pointer) (alone : Bool) (o : ℕ) (s t : State A)
      → Same A s t
      → load_object A node p alone o s ≡ some (t, false)
      → Reads node p o t
  unfolding load_object
  load_object-Reads node p alone o s t same =
      if-branch (λ r. r ≡ some (t, false) → Reads node p o t) (is_unknown p.offset)
        (λ e h off q.
          let (m, first, second) = quiet_steps _ _ s t h in
          let (later, all) = load_all-Taken node (s.objects o) m t second in
          let taken =
            IsIncluded-cell (find off (s.objects o)) (node_pointers A t node)
              (λ set e'. All-find (λ x. Taken node x t) off (s.objects o) all e') q in
          implies_intro _ _ (λ z. implies_elim _ _ taken (cell_before _ o off q s t same z)))
        (λ e h off q.
          let (m, first, second) = quiet_steps _ _ s t h in
          let own = load_entry-Taken node p.offset _ (s.objects o) s m first in
          let any = load_entry-Taken node unknown idle (s.objects o) m t second in
          let later =
            load_entry-Proceeds A laws node unknown idle (s.objects o) (idle-Proceeds A laws) m t
              false second in
          either_cell off p.offset _ _ e
            (λ e'.
              let kept = IsIncluded-later _ node m t later own q in
              subst
                (λ x.
                  implies (covers (cell_pointers A t o x) q) (covers (node_pointers A t node) q)
                  ≡ true)
                (sym e') (rw (same.cells_same refl o p.offset) kept))
            (λ e'.
              subst
                (λ x.
                  implies (covers (cell_pointers A t o x) q) (covers (node_pointers A t node) q)
                  ≡ true)
                (sym e') (rw (same.cells_same refl o unknown) (any q))))

  pub Reads-later :
      (node : ℕ) (p : Pointer) (o : ℕ) (s t : State A)
      → Same A s t
      → Reads node p o s
      → Reads node p o t
  Reads-later node p o s t same h off q =
      rw (same.cells_same refl o off, same.nodes_same refl node) (h off q)
