-- ===== src/Control/Exact.antt =====
-- CENode.h: `computeSets` and the words, and when its assertions hold.
use dg.Base.{
  ℕ, ◌≡◌, ◌≢◌, refl, ◌∙◌, ap, subst, true, false, Option, none, some, List, [], ◌∷◌, ◌↔◌, inl, inr,
  has_elem, Bool-cases, arith,
}
use dg.Base.Steps.{some_inj}
use dg.Control.{
  CeNode, label, seq, branch, loop, eps, CeNodes, nil, cons, Visits, prune, seq_visits,
  branch_visits, compute_sets, compute_all,
}
use dg.Control.Words.{Runs}
use dg.Control.Describes.{With, Without}
use dg.Control.Sets.{Good, compute_sets-Good, sometimes-prune, bind_some, compute_all_parts}

-- No label is in both sets.
abbrev Apart : Visits → Type 0
Apart v = (l : ℕ) → has_elem l v.sometimes ≡ true → has_elem l v.always ≡ false

prune-Apart : (u v : Visits) → (prune u).always ≡ u.always → some (prune u) ≡ some v → Apart v
prune-Apart u v same e =
    subst Apart (some_inj (prune u) v e) λ l h. ap (has_elem l) same ∙ sometimes-prune l u h

seq_visits-Apart : (vs : List Visits) (v : Visits) → seq_visits vs ≡ some v → Apart v
unfolding seq_visits prune
seq_visits-Apart [] v e = cc
seq_visits-Apart (c ∷ cs) v e = prune-Apart _ v refl e

branch_visits-Apart : (vs : List Visits) (v : Visits) → branch_visits vs ≡ some v → Apart v
unfolding branch_visits prune
branch_visits-Apart [] v e = cc
branch_visits-Apart (c ∷ cs) v e = prune-Apart _ v refl e

compute_sets-Apart : (c : CeNode) (v : Visits) → compute_sets c ≡ some v → Apart v
unfolding compute_sets
compute_sets-Apart (label l) v e =
    subst Apart (some_inj (record { always = l ∷ []; sometimes = [] }) v e) (λ k h. cc)
compute_sets-Apart (seq cs) v e =
    let (vs, all, e') = bind_some (compute_all cs) seq_visits v e in seq_visits-Apart vs v e'
compute_sets-Apart (branch cs) v e =
    let (vs, all, e') = bind_some (compute_all cs) branch_visits v e in branch_visits-Apart vs v e'
compute_sets-Apart (loop cs) v e =
    let (vs, all, e') = bind_some (compute_all cs) seq_visits v e in seq_visits-Apart vs v e'
compute_sets-Apart eps v e = cc

module _ (P : List ℕ → Type 0) (v : Visits) (d : Good P v) where
  always_iff : (l : ℕ) → (has_elem l v.always ≡ true) ↔ ((w : List ℕ) → P w → has_elem l w ≡ true)
  always_iff l = (
    λ h w p. d.0.every l w h p,
    λ all. elim (Bool-cases (has_elem l v.always)) [
      | inl t ↦ t
      | inr f ↦ let (w, p, out) = d.0.avoid l f in cc (all w p)
    ],
  )

  sometimes_iff : Apart v → (l : ℕ) → (has_elem l v.sometimes ≡ true) ↔ (With P l × Without P l)
  sometimes_iff apart l = (
    λ h. (d.0.visit l (ground arith), d.0.avoid l (apart l h)),
    λ ((w, p, t), (u, q, f)). elim (Bool-cases (has_elem l v.always)) [
      | inl a ↦ cc (d.0.every l u a q)
      | inr a ↦ ground (arith, d.0.only l w p t)
    ],
  )

-- What `computeSets` computes is exact, where every loop runs at least once: a label is in the set
-- of what is always visited exactly when every word of the expression has it, and in the set of what
-- is sometimes visited exactly when some word has it and some word does not.
pub compute_sets_lem :
    (c : CeNode) (v : Visits)
    → compute_sets c ≡ some v
    → (l : ℕ)
    → ((has_elem l v.always ≡ true) ↔ ((w : List ℕ) → Runs ⊥ c w → has_elem l w ≡ true))
      × ((has_elem l v.sometimes ≡ true) ↔ (With (Runs ⊥ c) l × Without (Runs ⊥ c) l))
compute_sets_lem c v e l =
    let good = compute_sets-Good c v e in
    (always_iff (Runs ⊥ c) v good l, sometimes_iff (Runs ⊥ c) v good (compute_sets-Apart c v e) l)

unfoldable mutual
  -- No empty word is below the node, and every sequence, branch and loop has a child.
  pub HasSets : CeNode → Type 0
  HasSets (label l) = Unit
  HasSets (seq cs) = AllHaveSets cs × (cs ≢ nil)
  HasSets (branch cs) = AllHaveSets cs × (cs ≢ nil)
  HasSets (loop cs) = AllHaveSets cs × (cs ≢ nil)
  HasSets eps = ⊥

  pub AllHaveSets : CeNodes → Type 0
  AllHaveSets nil = Unit
  AllHaveSets (cons c cs) = HasSets c × AllHaveSets cs

abbrev Computes : {A : Type 0} → Option A → Type 0
Computes {A} o = (a : A) × (o ≡ some a)

seq_visits_some : (v : Visits) (vs : List Visits) → Computes (seq_visits (v ∷ vs))
unfolding seq_visits
seq_visits_some v vs = (_, refl)

branch_visits_some : (v : Visits) (vs : List Visits) → Computes (branch_visits (v ∷ vs))
unfolding branch_visits
branch_visits_some v vs = (_, refl)

mutual
  unfolding HasSets compute_sets

  compute_sets_some : (c : CeNode) → HasSets c → Computes (compute_sets c)
  compute_sets_some (label l) h = (record { always = l ∷ []; sometimes = [] }, refl)
  compute_sets_some (seq nil) (h, n) = absurd (n refl)
  compute_sets_some (seq (cons c cs)) ((h, hs), n) =
      let (v, e) = compute_sets_some c h in
      let (vs, es) = compute_all_some cs hs in
      let (r, z) = seq_visits_some v vs in (r, rw (e, es) z)
  compute_sets_some (branch nil) (h, n) = absurd (n refl)
  compute_sets_some (branch (cons c cs)) ((h, hs), n) =
      let (v, e) = compute_sets_some c h in
      let (vs, es) = compute_all_some cs hs in
      let (r, z) = branch_visits_some v vs in (r, rw (e, es) z)
  compute_sets_some (loop nil) (h, n) = absurd (n refl)
  compute_sets_some (loop (cons c cs)) ((h, hs), n) =
      let (v, e) = compute_sets_some c h in
      let (vs, es) = compute_all_some cs hs in
      let (r, z) = seq_visits_some v vs in (r, rw (e, es) z)
  compute_sets_some eps h = absurd h

  compute_all_some : (cs : CeNodes) → AllHaveSets cs → Computes (compute_all cs)
  compute_all_some nil h = ([], refl)
  compute_all_some (cons c cs) (h, hs) =
      let (v, e) = compute_sets_some c h in
      let (vs, es) = compute_all_some cs hs in (v ∷ vs, rw (e, es) refl)

no_children :
    (cs : CeNodes) (f : List Visits → Option Visits) (vs : List Visits) (v : Visits)
    → compute_all cs ≡ some vs
    → f vs ≡ some v
    → f [] ≡ none
    → cs ≢ nil
unfolding compute_sets
no_children nil f vs v e e' none_left = λ z. cc (ap f (some_inj [] vs e))
no_children (cons c cs) f vs v e e' none_left = λ z. cc

seq_visits-none : seq_visits [] ≡ none
unfolding seq_visits
seq_visits-none = refl

branch_visits-none : branch_visits [] ≡ none
unfolding branch_visits
branch_visits-none = refl

mutual
  unfolding HasSets compute_sets

  some-HasSets : (c : CeNode) (v : Visits) → compute_sets c ≡ some v → HasSets c
  some-HasSets (label l) v e = tt
  some-HasSets (seq cs) v e =
      let (vs, all, e') = bind_some (compute_all cs) seq_visits v e in
      (some-AllHaveSets cs vs all, no_children cs seq_visits vs v all e' seq_visits-none)
  some-HasSets (branch cs) v e =
      let (vs, all, e') = bind_some (compute_all cs) branch_visits v e in
      (some-AllHaveSets cs vs all, no_children cs branch_visits vs v all e' branch_visits-none)
  some-HasSets (loop cs) v e =
      let (vs, all, e') = bind_some (compute_all cs) seq_visits v e in
      (some-AllHaveSets cs vs all, no_children cs seq_visits vs v all e' seq_visits-none)
  some-HasSets eps v e = cc

  some-AllHaveSets : (cs : CeNodes) (vs : List Visits) → compute_all cs ≡ some vs → AllHaveSets cs
  some-AllHaveSets nil vs e = tt
  some-AllHaveSets (cons c cs) vs e =
      let (v, ws, first, rest, z) = compute_all_parts c cs vs e in
      (some-HasSets c v first, some-AllHaveSets cs ws rest)

-- The assertions of `computeSets` hold exactly for the expressions with no empty word at any depth
-- and with a child in every sequence, branch and loop.
pub compute_sets_iff : (c : CeNode) → ((v : Visits) × (compute_sets c ≡ some v)) ↔ HasSets c
compute_sets_iff c = (λ (v, e). some-HasSets c v e, compute_sets_some c)
