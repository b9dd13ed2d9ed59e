-- ===== src/Control/Sets.antt =====
-- CENode.h: what `computeSets` computes.
use dg.Base.{
  ℕ, ◌≡◌, ◌≢◌, refl, sym, ◌∙◌, ap, subst, true, false, Option, none, some, List, [], ◌∷◌, ◌++◌, inl,
  inr, has_elem, Option-cases, arith,
}
use dg.Base.Steps.{some_inj}
use dg.Control.{
  CeNode, label, seq, branch, loop, eps, CeNodes, nil, cons, Visits, prune, union_visits,
  common_visits, other_visits, seq_visits, branch_visits, compute_sets, compute_all,
}
use dg.Control.Words.{Runs, RunsAll, RunsAny, Repeats, once}
use dg.Control.Labels.{
  in_either, any_always, all_always, any_either, always-union_visits, either-union_visits,
  has_elem-common_visits, has_elem-other_visits, has_elem-difference,
}
use dg.Control.Describes.{
  Describes, Describes-same, Describes-empty, Describes-Both, Describes-either, Describes-none,
  Describes-Repeats,
}

-- The sets describe the words, of which there is one.
abbrev pub Good : (List ℕ → Type 0) → Visits → Type 0
Good P v = Describes P (λ l. has_elem l v.always) (λ l. in_either l v) × ((w : List ℕ) × P w)

either-prune : (l : ℕ) (v : Visits) → in_either l (prune v) ≡ in_either l v
unfolding prune
either-prune l v = ground (arith, has_elem-difference l v.sometimes v.always)

all_always-le :
    (l : ℕ) (c : Visits) (cs : List Visits)
    → all_always l (c ∷ cs) ≡ true
    → any_either l (c ∷ cs) ≡ true
all_always-le l c cs h = ground arith

pub bind_some {ℓ κ} :
    {A : Type ℓ} {B : Type κ} (o : Option A) (f : A → Option B) (b : B)
    → elim o as (λ _. Option B) [ none ↦ none | some a ↦ f a ] ≡ some b
    → (a : A) × (o ≡ some a) × (f a ≡ some b)
bind_some none f b h = cc
bind_some (some a) f b h = (a, refl, h)

pub compute_all_parts :
    (c : CeNode) (cs : CeNodes) (vs : List Visits)
    → compute_all (cons c cs) ≡ some vs
    → (v : Visits) × (ws : List Visits) × (compute_sets c ≡ some v)
      × (compute_all cs ≡ some ws)
      × (v ∷ ws ≡ vs)
unfolding compute_sets
compute_all_parts c cs vs h = elim (Option-cases (compute_sets c)) [
  | inl e ↦ ground (arith, h, e)
  | inr (v, e) ↦ elim (Option-cases (compute_all cs)) [
    | inl e' ↦ ground (arith, h, e, e')
    | inr (ws, e') ↦ (v, ws, e, e', ground (arith, h, e, e'))
  ]
]

module _ (P : List ℕ → Type 0) (word : (w : List ℕ) × P w) where
  seq_visits-Good :
      (vs : List Visits) (v : Visits)
      → seq_visits vs ≡ some v
      → Describes P (λ l. any_always l vs) (λ l. any_either l vs)
      → Good P v
  unfolding seq_visits
  seq_visits-Good [] v e d = cc
  seq_visits-Good (c ∷ cs) v e d =
      let start : Visits = record { always = []; sometimes = [] } in
      let u = union_visits (c ∷ cs) start in
      (
        subst (λ x. Describes P (λ l. has_elem l x.always) (λ l. in_either l x))
            (some_inj (prune u) v e)
            (Describes-same P (λ l. any_always l (c ∷ cs)) (λ l. any_either l (c ∷ cs))
              (λ l. has_elem l u.always) (λ l. in_either l (prune u))
              (λ l. always-union_visits l (c ∷ cs) start ∙ ground arith)
              (λ l. either-prune l u ∙ either-union_visits l (c ∷ cs) start ∙ ground arith) d),
        word,
      )

  branch_visits-Good :
      (vs : List Visits) (v : Visits)
      → branch_visits vs ≡ some v
      → Describes P (λ l. all_always l vs) (λ l. any_either l vs)
      → Good P v
  unfolding branch_visits
  branch_visits-Good [] v e d = cc
  branch_visits-Good (c ∷ cs) v e d =
      let always = common_visits cs c.always in
      let u : Visits = record { always = always; sometimes = other_visits always (c ∷ cs) [] } in
      (
        subst (λ x. Describes P (λ l. has_elem l x.always) (λ l. in_either l x))
            (some_inj (prune u) v e)
            (Describes-same P (λ l. all_always l (c ∷ cs)) (λ l. any_either l (c ∷ cs))
              (λ l. has_elem l always) (λ l. in_either l (prune u))
              (λ l. has_elem-common_visits l cs c.always ∙ ground arith)
              (λ l.
                either-prune l u
                ∙ ground (
                  arith,
                  has_elem-other_visits l always (c ∷ cs) [],
                  has_elem-common_visits l cs c.always,
                  all_always-le l c cs,
                ))
              d),
        word,
      )

none_visits : branch_visits [] ≡ none
unfolding branch_visits
none_visits = refl

label-Good : (l : ℕ) → Good (λ w. w ≡ l ∷ []) (record { always = l ∷ []; sometimes = [] })
label-Good l = (
  record {
    every = λ k w h e. ap (has_elem k) e ∙ h;
    avoid = λ k h. (l ∷ [], refl, h);
    visit = λ k h. (l ∷ [], refl, ground arith);
    only = λ k w e t. ground (arith, ap (has_elem k) e);
  },
  (l ∷ [], refl),
)

mutual
  unfolding Runs compute_sets

  pub compute_sets-Good : (c : CeNode) (v : Visits) → compute_sets c ≡ some v → Good (Runs ⊥ c) v
  compute_sets-Good (label l) v e =
      subst (Good (λ w. w ≡ l ∷ [])) (some_inj (record { always = l ∷ []; sometimes = [] }) v e)
        (label-Good l)
  compute_sets-Good (seq cs) v e =
      let (vs, all, e') = bind_some (compute_all cs) seq_visits v e in
      let (d, word) = compute_all-RunsAll cs vs all in seq_visits-Good (RunsAll ⊥ cs) word vs v e' d
  compute_sets-Good (branch cs) v e =
      let (vs, all, e') = bind_some (compute_all cs) branch_visits v e in
      let (d, word) = compute_all-RunsAny cs vs all in
      branch_visits-Good (RunsAny ⊥ cs) (word (λ z. cc (ap branch_visits z, e', none_visits))) vs v
        e' d
  compute_sets-Good (loop cs) v e =
      let (vs, all, e') = bind_some (compute_all cs) seq_visits v e in
      let (d, (w, p)) = compute_all-RunsAll cs vs all in
      seq_visits-Good (Repeats ⊥ (RunsAll ⊥ cs)) (w, once p) vs v e'
        (Describes-Repeats (RunsAll ⊥ cs) (λ l. any_always l vs) (λ l. any_either l vs) d)
  compute_sets-Good eps v e = cc

  compute_all-RunsAll :
      (cs : CeNodes) (vs : List Visits)
      → compute_all cs ≡ some vs
      → Describes (RunsAll ⊥ cs) (λ l. any_always l vs) (λ l. any_either l vs)
        × ((w : List ℕ) × RunsAll ⊥ cs w)
  compute_all-RunsAll nil vs e = (
    subst (λ x. Describes (λ w. w ≡ []) (λ l. any_always l x) (λ l. any_either l x))
        (some_inj [] vs e) Describes-empty,
    ([], refl),
  )
  compute_all-RunsAll (cons c cs) vs e =
      let (v, ws, first, rest, z) = compute_all_parts c cs vs e in
      let (d, (p, at_p)) = compute_sets-Good c v first in
      let (d', (q, at_q)) = compute_all-RunsAll cs ws rest in
      (
        subst (λ x. Describes (RunsAll ⊥ (cons c cs)) (λ l. any_always l x) (λ l. any_either l x)) z
            (Describes-Both (Runs ⊥ c) (RunsAll ⊥ cs) (λ l. has_elem l v.always)
              (λ l. in_either l v) (λ l. any_always l ws) (λ l. any_either l ws) d d' p at_p q
              at_q),
        (p ++ q, (p, q, refl, at_p, at_q)),
      )

  compute_all-RunsAny :
      (cs : CeNodes) (vs : List Visits)
      → compute_all cs ≡ some vs
      → Describes (RunsAny ⊥ cs) (λ l. all_always l vs) (λ l. any_either l vs)
        × (vs ≢ [] → (w : List ℕ) × RunsAny ⊥ cs w)
  compute_all-RunsAny nil vs e = (
    subst (λ x. Describes (λ w. ⊥) (λ l. all_always l x) (λ l. any_either l x)) (some_inj [] vs e)
        Describes-none,
    λ n. absurd (n (sym (some_inj [] vs e))),
  )
  compute_all-RunsAny (cons c cs) vs e =
      let (v, ws, first, rest, z) = compute_all_parts c cs vs e in
      let (d, (p, at_p)) = compute_sets-Good c v first in
      let (d', later) = compute_all-RunsAny cs ws rest in
      (
        subst (λ x. Describes (RunsAny ⊥ (cons c cs)) (λ l. all_always l x) (λ l. any_either l x)) z
            (Describes-either (Runs ⊥ c) (RunsAny ⊥ cs) (λ l. has_elem l v.always)
              (λ l. in_either l v) (λ l. all_always l ws) (λ l. any_either l ws) d d'),
        λ n. (p, inl at_p),
      )

pub sometimes-prune :
    (l : ℕ) (u : Visits) → has_elem l (prune u).sometimes ≡ true → has_elem l u.always ≡ false
unfolding prune
sometimes-prune l u h = ground (arith, has_elem-difference l u.sometimes u.always)
