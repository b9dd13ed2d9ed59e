-- ===== src/PointerAnalysis/Iterate.antt =====
-- PointerAnalysis.h: `iteration` over the nodes to process.
use dg.Base.{
  ℕ, Bool, true, false, ◌≡◌, some, List, [], ◌∷◌, All, Option-cases, inl, inr, arith, subst, refl,
}
use dg.Base.{if◌then◌else◌}
use dg.Base.Steps.{some_inj}
use dg.PointsTo.Sets.{SetLaws}
use dg.PointerAnalysis.{Program, State}
use dg.PointerAnalysis.Process.{process_node}
use dg.PointerAnalysis.Fixpoint.{iterate}
use dg.PointerAnalysis.Grows.Node.{process_node-Progress}
use dg.PointerAnalysis.Inclusion.{IsClosed}
use dg.PointerAnalysis.Stable.{Same, Same-refl, Same-trans}
use dg.PointerAnalysis.Stable.Memcpy.{Fits, Fits-after, OffsetsFit}
use dg.PointerAnalysis.Nulls.{Below, HasNulls}
use dg.PointerAnalysis.Nulls.Load.{Below-later}
use dg.PointerAnalysis.Closed.{
  process_node-HasNulls, HasNulls-later, process_node-Fits, IsClosed-later, OffsetsFit-Fits,
}

module _ (A : Program) where
  cons_nil :
      (b : Bool) (n : ℕ) (ns : List ℕ) → (if b then n ∷ ns else ns) ≡ [] → (b ≡ false) × (ns ≡ [])
  cons_nil true n ns e = cc
  cons_nil false n ns e = (refl, e)

  -- The first step of a round, and the others.
  iterate_steps :
      (cur : ℕ) (ns : List ℕ) (s t : State A) (cs : List ℕ)
      → iterate A (cur ∷ ns) s ≡ some (t, cs)
      → (m : State A) × (c : Bool) × (rest : List ℕ) × (process_node A cur s ≡ some (m, c))
        × (iterate A ns m ≡ some (t, rest))
        × ((if c then cur ∷ rest else rest) ≡ cs)
  unfolding iterate
  iterate_steps cur ns s t cs h = elim (Option-cases (process_node A cur s)) [
    | inl e ↦ ground (arith, h, e)
    | inr ((m, c), e) ↦ elim (Option-cases (iterate A ns m)) [
      | inl e' ↦ ground (arith, h, e, e')
      | inr ((t', rest), e') ↦ (m, c, rest, e, ground (arith, h, e, e'), ground (arith, h, e, e'))
    ]
  ]

  module _ (laws : SetLaws A.sets) where
    -- What a node demands of the sets, `z` being the memory that is zero initialised.
    abbrev IsSettled : (ℕ → Bool) → State A → ℕ → Type 0
    IsSettled z st n = IsClosed A (A.node_type n) n st × HasNulls A (A.node_type n) z n st

    IsSettled-from :
        (nodes : List ℕ) (z : ℕ → Bool) (s t : State A)
        → Fits A laws s
        → Below A z s
        → iterate A nodes s ≡ some (t, [])
        → Same A s t × All (IsSettled z t) nodes
    unfolding iterate
    IsSettled-from [] z s t fits below h =
        (subst (λ r. Same A s r.0) (some_inj (s, []) (t, []) h) (Same-refl A s), tt)
    IsSettled-from (cur ∷ nodes) z s t fits below h =
        let (m, c, rest, e, e', eq) = iterate_steps cur nodes s t [] h in
        let (quiet, none_left) = cons_nil c cur rest eq in
        let first = subst (λ b. process_node A cur s ≡ some (m, b)) quiet e in
        let second = subst (λ cs. iterate A nodes m ≡ some (t, cs)) none_left e' in
        let same = process_node-Progress A laws cur s m false first in
        let (later, all) =
          IsSettled-from nodes z m t (Fits-after A laws s m same fits)
            (Below-later A laws z s m same below) second in
        (
          Same-trans A s m t same later,
          (
            (
              IsClosed-later A laws (A.node_type cur) cur m t later
                  (process_node-Fits A laws cur s m fits first),
              HasNulls-later A laws (A.node_type cur) cur z m t later
                  (process_node-HasNulls A laws cur z s m below first),
            ),
            all,
          ),
        )

    -- Where a round over the nodes to process enqueues no node, each of the nodes has what it
    -- demands of the sets at the end of the round, null pointers included where memory is zero
    -- initialised before the round; memory that a copy makes zero initialised in this round is left
    -- out. The sets obey the laws of points-to sets, and all offsets of the memory objects are below
    -- 2 ^ 64.
    pub iterate-IsClosed :
        (nodes : List ℕ) (s t : State A)
        → OffsetsFit A s
        → iterate A nodes s ≡ some (t, [])
        → All
            (λ n.
              IsClosed A (A.node_type n) n t × HasNulls A (A.node_type n) s.zero_initialized n t)
            nodes
    iterate-IsClosed nodes s t fit h =
        (IsSettled-from nodes s.zero_initialized s t (OffsetsFit-Fits A laws s fit) (λ n e. e) h).1
