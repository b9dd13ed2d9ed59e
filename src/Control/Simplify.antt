-- ===== src/Control/Simplify.antt =====
-- CENode.h: the words of an expression and of what `simplify` makes of it.
use mathlib.Core.List.{append-nil, append_assoc}
use dg.Base.{ℕ, ◌≡◌, refl, sym, ◌∙◌, ap, subst, List, [], ◌++◌, ◌⊎◌, inl, inr, ◌↔◌}
use dg.Control.{
  CeNode, label, seq, branch, loop, eps, CeNodes, nil, cons, CeNodeType, seq_type, branch_type,
  loop_type, append, merged, new_children, simplify, simplify_all,
}
use dg.Control.Words.{Repeats, skip, once, again, Runs, RunsAll, RunsAny}

module _ (Skips : Type 0) where
  -- Two predicates on words that say the same.
  abbrev pub Agree : (List ℕ → Type 0) → (List ℕ → Type 0) → Type 0
  Agree P Q = (w : List ℕ) → P w ↔ Q w

  Agree-trans : {P Q R : List ℕ → Type 0} → Agree P Q → Agree Q R → Agree P R
  Agree-trans a b w = (λ p. (b w).0 ((a w).0 p), λ r. (a w).1 ((b w).1 r))

  pub RunsAll-single : (c : CeNode) → Agree (RunsAll Skips (cons c nil)) (Runs Skips c)
  unfolding Runs
  RunsAll-single c w = (
    λ (u, v, e, r, z). subst (Runs Skips c) (sym (e ∙ ap (λ t. u ++ t) z ∙ append-nil u)) r,
    λ r. (w, [], sym (append-nil w), r, refl),
  )

  RunsAll-cons :
      (c d : CeNode) (cs ds : CeNodes)
      → Agree (Runs Skips c) (Runs Skips d)
      → Agree (RunsAll Skips cs) (RunsAll Skips ds)
      → Agree (RunsAll Skips (cons c cs)) (RunsAll Skips (cons d ds))
  unfolding Runs
  RunsAll-cons c d cs ds a b w = (
    λ (u, v, e, r, s). (u, v, e, (a u).0 r, (b v).0 s),
    λ (u, v, e, r, s). (u, v, e, (a u).1 r, (b v).1 s),
  )

  RunsAll-append :
      (cs ds : CeNodes) (w : List ℕ)
      → RunsAll Skips (append cs ds) w
        ↔ ((u v : List ℕ) × (w ≡ u ++ v) × RunsAll Skips cs u × RunsAll Skips ds v)
  unfolding Runs
  RunsAll-append nil ds w = (
    λ r. ([], w, refl, refl, r),
    λ (u, v, e, z, r). subst (RunsAll Skips ds) (sym (e ∙ ap (λ t. t ++ v) z)) r,
  )
  RunsAll-append (cons c cs) ds w = (
    λ (u, v, e, r, s).
        let (u', v', e', r', s') = (RunsAll-append cs ds v).0 s in
        (
          u ++ u',
          v',
          e ∙ ap (λ t. u ++ t) e' ∙ sym (append_assoc u u' v'),
          (u, u', refl, r, r'),
          s',
        ),
    λ (u, v, e, (u', v', e', r', s'), s). (
      u',
      v' ++ v,
      e ∙ ap (λ t. t ++ v) e' ∙ append_assoc u' v' v,
      r',
      (RunsAll-append cs ds (v' ++ v)).1 (v', v, refl, s', s),
    ),
  )

  pub Repeats-Agree :
      (P Q : List ℕ → Type 0) → Agree P Q → (w : List ℕ) → Repeats Skips P w → Repeats Skips Q w
  Repeats-Agree P Q a w (skip s e) = skip s e
  Repeats-Agree P Q a w (once p) = once ((a w).0 p)
  Repeats-Agree P Q a w (again u v e p r) = again u v e ((a u).0 p) (Repeats-Agree P Q a v r)

  -- The nodes that take the place of a child run as the child does, one behind the other.
  merged-Agree : (t : CeNodeType) (c : CeNode) → Agree (RunsAll Skips (merged t c)) (Runs Skips c)
  unfolding Runs merged
  merged-Agree seq_type (seq cs) w = (λ r. r, λ r. r)
  merged-Agree loop_type (seq cs) w = (λ r. r, λ r. r)
  merged-Agree seq_type eps w = (λ r. r, λ r. r)
  merged-Agree t (seq (cons c nil)) w = (λ r. r, λ r. r)
  merged-Agree t c w = RunsAll-single c w

  new_children-Agree :
      (t : CeNodeType) (cs : CeNodes) → Agree (RunsAll Skips (new_children t cs)) (RunsAll Skips cs)
  unfolding Runs new_children
  new_children-Agree t nil w = (λ r. r, λ r. r)
  new_children-Agree t (cons c cs) w = (
    λ r.
        let (u, v, e, p, q) = (RunsAll-append (merged t c) (new_children t cs) w).0 r in
        (u, v, e, (merged-Agree t c u).0 p, (new_children-Agree t cs v).0 q),
    λ (u, v, e, p, q).
        (RunsAll-append (merged t c) (new_children t cs) w).1
          (u, v, e, (merged-Agree t c u).1 p, (new_children-Agree t cs v).1 q),
  )

  -- In a branch a child is replaced by one node.
  merged-RunsAny :
      (c : CeNode) (ds : CeNodes) (w : List ℕ)
      → RunsAny Skips (append (merged branch_type c) ds) w ↔ (Runs Skips c w ⊎ RunsAny Skips ds w)
  unfolding Runs merged
  merged-RunsAny (seq (cons c nil)) ds w = (
    λ r. elim r [ inl p ↦ inl ((RunsAll-single c w).1 p) | inr q ↦ inr q ],
    λ r. elim r [ inl p ↦ inl ((RunsAll-single c w).0 p) | inr q ↦ inr q ],
  )
  merged-RunsAny c ds w = (λ r. r, λ r. r)

  new_children-RunsAny :
      (cs : CeNodes) → Agree (RunsAny Skips (new_children branch_type cs)) (RunsAny Skips cs)
  unfolding Runs new_children
  new_children-RunsAny nil w = (λ r. r, λ r. r)
  new_children-RunsAny (cons c cs) w =
      let rest = new_children branch_type cs in
      (
        λ r. elim ((merged-RunsAny c rest w).0 r) [
          | inl p ↦ inl p
          | inr q ↦ inr ((new_children-RunsAny cs w).0 q)
        ],
        λ r. elim r [
          | inl p ↦ (merged-RunsAny c rest w).1 (inl p)
          | inr q ↦ (merged-RunsAny c rest w).1 (inr ((new_children-RunsAny cs w).1 q))
        ],
      )

  mutual
    unfolding Runs simplify

    simplify-Agree : (c : CeNode) → Agree (Runs Skips (simplify c)) (Runs Skips c)
    simplify-Agree (label l) w = (λ r. r, λ r. r)
    simplify-Agree (seq cs) w =
        Agree-trans (new_children-Agree seq_type (simplify_all cs)) (simplify_all-Agree cs) w
    simplify-Agree (branch cs) w =
        Agree-trans (new_children-RunsAny (simplify_all cs)) (simplify_all-RunsAny cs) w
    simplify-Agree (loop cs) w =
        let same =
          Agree-trans (new_children-Agree loop_type (simplify_all cs)) (simplify_all-Agree cs) in
        (
          Repeats-Agree (RunsAll Skips (new_children loop_type (simplify_all cs)))
              (RunsAll Skips cs) same w,
          Repeats-Agree (RunsAll Skips cs)
              (RunsAll Skips (new_children loop_type (simplify_all cs)))
              (λ v. ((same v).1, (same v).0)) w,
        )
    simplify-Agree eps w = (λ r. r, λ r. r)

    simplify_all-Agree : (cs : CeNodes) → Agree (RunsAll Skips (simplify_all cs)) (RunsAll Skips cs)
    simplify_all-Agree nil w = (λ r. r, λ r. r)
    simplify_all-Agree (cons c cs) w =
        RunsAll-cons (simplify c) c (simplify_all cs) cs (simplify-Agree c) (simplify_all-Agree cs)
          w

    simplify_all-RunsAny :
        (cs : CeNodes) → Agree (RunsAny Skips (simplify_all cs)) (RunsAny Skips cs)
    simplify_all-RunsAny nil w = (λ r. r, λ r. r)
    simplify_all-RunsAny (cons c cs) w = (
      λ r. elim r [
        | inl p ↦ inl ((simplify-Agree c w).0 p)
        | inr q ↦ inr ((simplify_all-RunsAny cs w).0 q)
      ],
      λ r. elim r [
        | inl p ↦ inl ((simplify-Agree c w).1 p)
        | inr q ↦ inr ((simplify_all-RunsAny cs w).1 q)
      ],
    )

  -- Simplification keeps the words of an expression: a word is one of the simplified expression
  -- exactly when it is one of the expression, whether or not loops may be skipped.
  pub Runs-simplify : (c : CeNode) (w : List ℕ) → Runs Skips (simplify c) w ↔ Runs Skips c w
  Runs-simplify c w = simplify-Agree c w
