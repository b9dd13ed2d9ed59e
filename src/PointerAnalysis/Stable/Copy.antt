-- ===== src/PointerAnalysis/Stable/Copy.antt =====
-- PointerAnalysis.cpp: `processMemcpy`.
use dg.Base.{
  ℕ, zero, suc, Bool, true, false, ◌&&◌, ◌≡◌, List, [], ◌∷◌, Option, none, some, arith, refl, sym,
  ap, ◌∙◌, subst, Bool-cases, inl, inr,
}
use dg.Base.{◌==◌, Option-cases}
use dg.Base.Maps.{find}
use dg.Base.Steps.{Step, both, if-branch, some_inj, quiet_steps}
use dg.Offset.{Offset}
use dg.PointsTo.{Pointer}
use dg.PointsTo.Sets.{covers, SetLaws}
use dg.PointerAnalysis.{Program, State, MemoryObject}
use dg.PointerAnalysis.Memory.{set_at}
use dg.PointerAnalysis.Progress.{cell_pointers}
use dg.PointerAnalysis.Inclusion.{implies}
use dg.PointerAnalysis.Stable.{implies_and, implies_intro, Same, Same-trans}
use dg.Base.{◌≤◌, ◌<◌, ◌+◌, ◌^◌, ltb}
use dg.PointerAnalysis.Copy.{next_entry, is_copied, copied_offset, copy_entry, copy_entries}
use dg.PointerAnalysis.Grows.Copy.{copy_entry-Proceeds, copy_entries-Proceeds}
use dg.PointerAnalysis.Stable.{covers-add_pointers_at}

-- An entry from `lo` on comes first.
next_none :
    {V : Type 0} (lo k : ℕ) (o : List (Offset × V))
    → next_entry lo o ≡ none
    → lo ≤ k
    → find k o ≡ none
unfolding next_entry
next_none lo k [] e h = refl
next_none lo k ((j, v) ∷ o) e h = elim (Option-cases (next_entry lo o)) [
  | inl f ↦ ground (arith, e, f, next_none lo k o f)
  | inr (w, f) ↦ ground (arith, e, f)
]

next_some :
    {V : Type 0} (lo j : ℕ) (set : V) (o : List (Offset × V))
    → next_entry lo o ≡ some (j, set)
    → (lo ≤ j) × (find j o ≡ some set) × ((k : ℕ) → lo ≤ k → k < j → find k o ≡ none)
unfolding next_entry
next_some lo j set [] e = cc
next_some lo j set ((i, v) ∷ o) e = elim (Option-cases (next_entry lo o)) [
  | inl f ↦ (
    ground (arith, e, f),
    ground (arith, e, f),
    λ k h h'. ground (arith, e, f, next_none lo k o f),
  )
  | inr ((i', w), f) ↦
      let (le, found, first) = next_some lo i' w o f in
      (
        ground (arith, e, f, le),
        ground (arith, e, f, le, found),
        λ k h h'. ground (arith, e, f, le, first k),
      )
]

module _ (A : Program) (laws : SetLaws A.sets) where
  pub empty_cell :
      (k : Offset) (o : MemoryObject A) (q : Pointer)
      → find k o ≡ none
      → covers (A.sets.pointers (set_at A k o)) q ≡ false
  empty_cell k o q e =
      let none_there : set_at A k o ≡ A.sets.no_pointers = ground (arith, e) in
      rw (none_there, laws.no_pointers_lem) refl

  found_cell :
      (k : Offset) (set : A.sets.Carrier) (o : MemoryObject A)
      → find k o ≡ some set
      → set_at A k o ≡ set
  found_cell k set o e = ground (arith, e)

  module _ (sp dp : Pointer) (len : Offset) (dest src : ℕ) where
    -- The cell at `k` of the source is copied.
    abbrev pub Copied : Offset → State A → Type 0
    Copied k st =
        (q : Pointer)
        → implies (is_copied A sp.offset len k && covers (cell_pointers A st src k) q)
            (covers (cell_pointers A st dest (copied_offset A sp.offset dp.offset dest k)) q)
          ≡ true

    pub Copied-later : (k : Offset) (s t : State A) → Same A s t → Copied k s → Copied k t
    Copied-later k s t same h q =
        rw
          (
            same.cells_same refl src k,
            same.cells_same refl dest (copied_offset A sp.offset dp.offset dest k),
          )
          (h q)

    Copied-empty :
        (k : Offset) (s t : State A) → Same A s t → find k (s.objects src) ≡ none → Copied k t
    Copied-empty k s t same e q =
        let z : covers (cell_pointers A t src k) q ≡ false =
          rw (same.cells_same refl src k) (empty_cell k (s.objects src) q e) in
        ground (arith, z)

    copy_entry-Copied :
        (k : Offset) (set : A.sets.Carrier) (s t : State A)
        → Same A s t
        → find k (s.objects src) ≡ some set
        → copy_entry A sp dp len dest (k, set) s ≡ some (t, false)
        → Copied k t
    unfolding copy_entry
    copy_entry-Copied k set s t same e =
        let to = copied_offset A sp.offset dp.offset dest k in
        if-branch (λ (f : Step (State A)). f s ≡ some (t, false) → Copied k t)
          (is_copied A sp.offset len k)
          (λ c h q.
            implies_and (is_copied A sp.offset len k) (covers (cell_pointers A t src k) q)
              (covers (cell_pointers A t dest to) q)
              (λ z.
                implies_intro (covers (cell_pointers A t src k) q)
                  (covers (cell_pointers A t dest to) q)
                  (λ z'.
                    covers-add_pointers_at A laws dest to set s t false q (some_inj _ (t, false) h)
                      (subst (λ x. covers x q ≡ true)
                        (same.cells_same refl src k
                          ∙ ap A.sets.pointers (found_cell k set (s.objects src) e))
                        z'))))
          (λ c h q. ground (arith, c))

    -- A round of the loop, where an entry is left.
    opened :
        (fuel lo j : ℕ) (set : A.sets.Carrier) (s : State A) (r : Option (State A × Bool))
        → next_entry lo (s.objects src) ≡ some (j, set)
        → copy_entries A sp dp len dest src (suc fuel) lo s ≡ r
        → both
            (copy_entry A sp dp len dest (j, set))
            (copy_entries A sp dp len dest src fuel (suc j))
            s
          ≡ r
    unfolding copy_entries
    opened fuel lo j set s r e h =
        subst
          (λ o.
            (elim o as (λ x. Option (State A × Bool)) [
              | none ↦ some (s, false)
              | some entry ↦
                  both (copy_entry A sp dp len dest entry)
                    (copy_entries A sp dp len dest src fuel (suc entry.0)) s
            ])
            ≡ r)
          e h

    pub copy_entries-Copied :
        (fuel lo : ℕ) (s t : State A)
        → ((k : Offset) (q : Pointer) → 2 ^ 64 ≤ k → covers (cell_pointers A s src k) q ≡ false)
        → 2 ^ 64 ≤ fuel + lo
        → copy_entries A sp dp len dest src fuel lo s ≡ some (t, false)
        → (k : Offset) → lo ≤ k
        → Copied k t
    unfolding copy_entries
    copy_entries-Copied zero lo s t fits enough h k le = λ q.
        let same = copy_entries-Proceeds A laws sp dp len dest src zero lo s t false h in
        let z : covers (cell_pointers A t src k) q ≡ false =
          rw (same.cells_same refl src k) (fits k q (omega arith)) in
        ground (arith, z)
    copy_entries-Copied (suc fuel) lo s t fits enough h k le =
        elim (Option-cases (next_entry lo (s.objects src))) [
          | inl e ↦
              Copied-empty k s t
                (copy_entries-Proceeds A laws sp dp len dest src (suc fuel) lo s t false h)
                (next_none lo k (s.objects src) e le)
          | inr ((j, set), e) ↦
              let (le', found, before) = next_some lo j set (s.objects src) e in
              let here = opened fuel lo j set s (some (t, false)) e h in
              let (m, first, second) = quiet_steps _ _ s t here in
              let sm = copy_entry-Proceeds A laws sp dp len dest (j, set) s m false first in
              let mt =
                copy_entries-Proceeds A laws sp dp len dest src fuel (suc j) m t false second in
              let fits' : (k : Offset) (q : Pointer)
                  → 2 ^ 64 ≤ k
                  → covers (cell_pointers A m src k) q ≡ false =
                λ k q big. rw (sm.cells_same refl src k) (fits k q big) in
              elim (Bool-cases (k == j)) [
                | inl ej ↦
                    let ej' : k ≡ j = ground arith in
                    subst (λ x. Copied x t) (sym ej')
                      (Copied-later j m t mt (copy_entry-Copied j set s m sm found first))
                | inr ej ↦ elim (Bool-cases (ltb k j)) [
                  | inl lt ↦
                      Copied-empty k s t (Same-trans A s m t sm mt) (before k le (ground arith))
                  | inr ge ↦
                      copy_entries-Copied fuel (suc j) m t fits' (omega arith) second k
                        (ground (arith, ej, ge))
                ]
              ]
        ]
