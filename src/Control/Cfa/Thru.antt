-- ===== src/Control/Cfa/Thru.antt =====
-- CFA.h: the words of the edges that `eliminate` makes, and of those that it keeps.
use dg.Base.{
  ℕ, ◌≡◌, ◌≢◌, refl, sym, ◌∙◌, ap, subst, false, Option, none, some, List, [], ◌∷◌, ◌++◌, ◌==◌, inl,
  inr, ◌||◌, ◌↔◌, Bool-cases, arith, if◌then◌else◌,
}
use dg.Control.{CeNode, loop, nil, cons}
use dg.Control.Words.{Runs, RunsAll}
use dg.Control.Simplify.{RunsAll-single}
use dg.Control.Cfa.{has_target, loop_then, through, new_edges, kept_edges}
use dg.Control.Cfa.Edges.{Word, EdgeWord, EdgeWord-append, Distinct}

-- The words of a self-loop that is taken any number of times.
abbrev pub LoopWord : Option CeNode → List ℕ → Type 0
LoopWord none y = y ≡ []
LoopWord (some s) y = Word (loop (cons s nil)) y

-- A word of `P`, then rounds of the self-loop, then a word of `Q`.
abbrev pub Via : Option CeNode → (List ℕ → Type 0) → (List ℕ → Type 0) → List ℕ → Type 0
Via self P Q u = (x y z : List ℕ) × (u ≡ x ++ (y ++ z)) × P x × LoopWord self y × Q z

loop_then_iff :
    (self : Option CeNode) (m : CeNode) (v : List ℕ)
    → RunsAll (Unit {0}) (loop_then self m) v
      ↔ ((y z : List ℕ) × (v ≡ y ++ z) × LoopWord self y × Word m z)
unfolding Runs
loop_then_iff none m v = (
  λ r. ([], v, refl, refl, (RunsAll-single (Unit {0}) m v).0 r),
  λ (y, z, e, empty, r).
      (RunsAll-single (Unit {0}) m v).1 (subst (Word m) (sym (e ∙ ap (λ t. t ++ z) empty)) r),
)
loop_then_iff (some s) m v = (
  λ (y, z, e, r, q). (y, z, e, r, (RunsAll-single (Unit {0}) m z).0 q),
  λ (y, z, e, r, q). (y, z, e, r, (RunsAll-single (Unit {0}) m z).1 q),
)

has_target-append :
    (c : ℕ) (es fs : List (ℕ × CeNode))
    → has_target c (es ++ fs) ≡ (has_target c es || has_target c fs)
has_target-append c [] fs = refl
has_target-append c ((t, l) ∷ es) fs = ground (arith, has_target-append c es fs)

module _ (n : ℕ) (self : Option CeNode) where
  through_iff :
      (l : CeNode) (outs : List (ℕ × CeNode)) (c : ℕ) (u : List ℕ)
      → c ≢ n
      → EdgeWord (through n self l outs) c u ↔ Via self (Word l) (EdgeWord outs c) u
  unfolding EdgeWord through Runs
  through_iff l [] c u h = (λ r. absurd r, λ (x, y, z, e, p, q, r). absurd r)
  through_iff l ((t, m) ∷ outs) c u h = elim (Bool-cases (t == n)) [
    | inl e ↦
        let rest = through_iff l outs c u h in
        rw e (
          λ r. let (x, y, z, e', p, q, s) = rest.0 r in (x, y, z, e', p, q, inr s),
          λ (x, y, z, e', p, q, s). elim s [
            | inl (k, s') ↦ absurd (ground arith)
            | inr s' ↦ rest.1 (x, y, z, e', p, q, s')
          ],
        )
    | inr e ↦
        let rest = through_iff l outs c u h in
        rw e (
          λ r. elim r [
            | inl (k, (x, v, e', p, q)) ↦
                let (y, z, e'', q', s) = (loop_then_iff self m v).0 q in
                (x, y, z, e' ∙ ap (λ w. x ++ w) e'', p, q', inl (k, s))
            | inr r' ↦ let (x, y, z, e', p, q, s) = rest.0 r' in (x, y, z, e', p, q, inr s)
          ],
          λ (x, y, z, e', p, q, s). elim s [
            | inl (k, s') ↦
                inl (k, (x, y ++ z, e', p, (loop_then_iff self m (y ++ z)).1 (y, z, refl, q, s')))
            | inr s' ↦ inr (rest.1 (x, y, z, e', p, q, s'))
          ],
        )
  ]

  has_target-through :
      (l : CeNode) (outs : List (ℕ × CeNode)) → has_target n (through n self l outs) ≡ false
  unfolding through
  has_target-through l [] = refl
  has_target-through l ((t, m) ∷ outs) = ground (arith, has_target-through l outs)

  pub new_edges_iff :
      (outs es : List (ℕ × CeNode)) (c : ℕ) (u : List ℕ)
      → c ≢ n
      → EdgeWord (new_edges n self outs es) c u ↔ Via self (EdgeWord es n) (EdgeWord outs c) u
  unfolding EdgeWord new_edges
  new_edges_iff outs [] c u h = (λ r. absurd r, λ (x, y, z, e, p, q, r). absurd p)
  new_edges_iff outs ((t, l) ∷ es) c u h = elim (Bool-cases (t == n)) [
    | inl e ↦
        let same : t ≡ n = ground arith in
        let rest = new_edges_iff outs es c u h in
        let first = through_iff l outs c u h in
        let both = EdgeWord-append (through n self l outs) (new_edges n self outs es) c u in
        rw e (
          λ r. elim (both.0 r) [
            | inl a ↦ let (x, y, z, e', p, q, s) = first.0 a in (x, y, z, e', inl (same, p), q, s)
            | inr a ↦ let (x, y, z, e', p, q, s) = rest.0 a in (x, y, z, e', inr p, q, s)
          ],
          λ (x, y, z, e', p, q, s). elim p [
            | inl (k, p') ↦ both.1 (inl (first.1 (x, y, z, e', p', q, s)))
            | inr p' ↦ both.1 (inr (rest.1 (x, y, z, e', p', q, s)))
          ],
        )
    | inr e ↦
        let other : t ≢ n = ground arith in
        let rest = new_edges_iff outs es c u h in
        rw e (
          λ r. let (x, y, z, e', p, q, s) = rest.0 r in (x, y, z, e', inr p, q, s),
          λ (x, y, z, e', p, q, s). elim p [
            | inl (k, p') ↦ absurd (other k)
            | inr p' ↦ rest.1 (x, y, z, e', p', q, s)
          ],
        )
  ]

  pub has_target-new_edges :
      (outs es : List (ℕ × CeNode)) → has_target n (new_edges n self outs es) ≡ false
  unfolding new_edges
  has_target-new_edges outs [] = refl
  has_target-new_edges outs ((t, l) ∷ es) = ground (
    arith,
    has_target-new_edges outs es,
    has_target-through l outs,
    has_target-append n (through n self l outs) (new_edges n self outs es),
  )

module _ (n : ℕ) where
  pub kept_edges_iff :
      (es : List (ℕ × CeNode)) (c : ℕ) (u : List ℕ)
      → c ≢ n
      → EdgeWord (kept_edges n es) c u ↔ EdgeWord es c u
  unfolding EdgeWord kept_edges
  kept_edges_iff [] c u h = (λ r. r, λ r. r)
  kept_edges_iff ((t, l) ∷ es) c u h = elim (Bool-cases (t == n)) [
    | inl e ↦
        let rest = kept_edges_iff es c u h in
        rw e (
          λ r. inr (rest.0 r),
          λ r. elim r [ inl (k, s) ↦ absurd (ground arith) | inr s ↦ rest.1 s ],
        )
    | inr e ↦
        let rest = kept_edges_iff es c u h in
        rw e (
          λ r. elim r [ inl s ↦ inl s | inr s ↦ inr (rest.0 s) ],
          λ r. elim r [ inl s ↦ inl s | inr s ↦ inr (rest.1 s) ],
        )
  ]

  pub has_target-kept_edges :
      (es : List (ℕ × CeNode)) (c : ℕ)
      → has_target c (kept_edges n es) ≡ (if n == c then false else has_target c es)
  unfolding kept_edges
  has_target-kept_edges [] c = ground arith
  has_target-kept_edges ((t, l) ∷ es) c = ground (arith, has_target-kept_edges es c)

  pub kept_edges-Distinct : (es : List (ℕ × CeNode)) → Distinct es → Distinct (kept_edges n es)
  unfolding kept_edges
  kept_edges-Distinct [] d = tt
  kept_edges-Distinct ((t, l) ∷ es) (h, d) = elim (Bool-cases (t == n)) [
    | inl e ↦ rw e (kept_edges-Distinct es d)
    | inr e ↦ rw e (ground (arith, has_target-kept_edges es t), kept_edges-Distinct es d)
  ]
