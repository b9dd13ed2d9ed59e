-- ===== src/Control/Cfa/Reroute.antt =====
-- CFA.h: the loop of `eliminate` over the predecessors.
use dg.Base.{
  ℕ, ◌≡◌, ◌≢◌, refl, sym, ◌∙◌, ap, subst, true, false, Option, List, [], ◌∷◌, ◌==◌, ◌⊎◌, inl, inr,
  ◌↔◌, Bool-cases, has_elem, arith,
}
use dg.Control.{CeNode}
use dg.Control.Cfa.{Cfa, put, has_target, new_edges, kept_edges, reroute, reroute_all}
use dg.Control.Cfa.Edges.{EdgeWord, Edge, EdgeWord-has_target}
use dg.Control.Cfa.Add.{
  IsCfa, Edge-add_successors, add_successors-IsCfa, successors-add_successors,
  has_target-add_successors,
}
use dg.Control.Cfa.Thru.{
  Via, new_edges_iff, has_target-new_edges, kept_edges_iff, has_target-kept_edges,
  kept_edges-Distinct,
}

module _ (n : ℕ) (self : Option CeNode) (outs : List (ℕ × CeNode)) where
  -- The edges of `a` go around the node: those that do not go to it are there, and for each way
  -- through the node there is an edge.
  pub record Rerouted (g g' : Cfa) (a : ℕ) : Type 0 where
    pub words :
        (c : ℕ) (u : List ℕ)
        → c ≢ n
        → Edge g' a c u ↔ (Edge g a c u ⊎ Via self (Edge g a n) (EdgeWord outs c) u)
    pub gone : has_target n (g'.successors a) ≡ false

  -- The automaton where the edges of `p` to the node are erased.
  abbrev without_edges : ℕ → Cfa → Cfa
  without_edges p g = record g { successors = put p (kept_edges n (g.successors p)) g.successors }

  kept_words :
      (p : ℕ) (g : Cfa) (c : ℕ) (u : List ℕ)
      → Edge (without_edges p g) p c u ↔ EdgeWord (kept_edges n (g.successors p)) c u
  kept_words p g c u = let self : (p == p) ≡ true = ground arith in rw self (λ r. r, λ r. r)

  reroute-Rerouted : (p : ℕ) (g : Cfa) → (p == n) ≡ false → Rerouted g (reroute n self outs p g) p
  unfolding reroute
  reroute-Rerouted p g h =
      let news = new_edges n self outs (g.successors p) in
      let same : (p == p) ≡ true = ground arith in
      rw h (record {
        words = λ c u k.
            let all = Edge-add_successors p news (without_edges p g) p c u in
            let kept = kept_edges_iff n (g.successors p) c u k in
            let new = new_edges_iff n self outs (g.successors p) c u k in
            (
              λ r. elim (all.0 r) [
                | inl x ↦ inl (kept.0 ((kept_words p g c u).0 x))
                | inr (z, x) ↦ inr (new.0 x)
              ],
              λ r. elim r [
                | inl x ↦ all.1 (inl ((kept_words p g c u).1 (kept.1 x)))
                | inr x ↦ all.1 (inr (refl, new.1 x))
              ],
            );
        gone =
            has_target-add_successors p news (without_edges p g) n
            ∙ rw same (
                ground (
                  arith,
                  has_target-new_edges n self outs (g.successors p),
                  has_target-kept_edges n (g.successors p) n,
                ));
      })

  reroute_other :
      (p : ℕ) (g : Cfa) (a : ℕ)
      → (p == a) ≡ false
      → (reroute n self outs p g).successors a ≡ g.successors a
  unfolding reroute
  reroute_other p g a h = elim (Bool-cases (p == n)) [
    | inl e ↦ rw e refl
    | inr e ↦ rw e (
        successors-add_successors p (new_edges n self outs (g.successors p)) (without_edges p g) a h
        ∙ rw h refl)
  ]

  reroute_empty_self :
      (p : ℕ) (g : Cfa) (a : ℕ)
      → p ≡ a
      → g.successors a ≡ []
      → (reroute n self outs p g).successors a ≡ []
  unfolding reroute
  reroute_empty_self p g a z h =
      let h' : g.successors p ≡ [] = ap g.successors z ∙ h in
      let self : (p == a) ≡ true = ground arith in
      elim (Bool-cases (p == n)) [ inl e ↦ rw e h | inr e ↦ rw (e, h') (rw self refl) ]

  reroute_empty :
      (p : ℕ) (g : Cfa) (a : ℕ) → g.successors a ≡ [] → (reroute n self outs p g).successors a ≡ []
  reroute_empty p g a h = elim (Bool-cases (p == a)) [
    | inl e ↦ let z : p ≡ a = ground arith in reroute_empty_self p g a z h
    | inr e ↦ reroute_other p g a e ∙ h
  ]

  pub reroute_all_empty :
      (ps : List ℕ) (g : Cfa) (a : ℕ)
      → g.successors a ≡ []
      → (reroute_all n self outs ps g).successors a ≡ []
  unfolding reroute_all
  reroute_all_empty [] g a h = h
  reroute_all_empty (p ∷ ps) g a h =
      reroute_all_empty ps (reroute n self outs p g) a (reroute_empty p g a h)

  without_edges-IsCfa : (p : ℕ) (g : Cfa) → IsCfa g → IsCfa (without_edges p g)
  without_edges-IsCfa p g i = record {
    distinct = λ a. elim (Bool-cases (p == a)) [
      | inl e ↦ rw e (kept_edges-Distinct n (g.successors p) (i.distinct p))
      | inr e ↦ rw e (i.distinct a)
    ];
    known = λ a c h. elim (Bool-cases (p == a)) [
      | inl e ↦
          let z : p ≡ a = ground arith in
          let h' = rw (e, has_target-kept_edges n (g.successors p) c) at h in
          subst (λ k. has_elem k (g.predecessors c) ≡ true) z (i.known p c (ground arith))
      | inr e ↦ i.known a c (rw e at h)
    ];
  }

  reroute-IsCfa : (p : ℕ) (g : Cfa) → IsCfa g → IsCfa (reroute n self outs p g)
  unfolding reroute
  reroute-IsCfa p g i = elim (Bool-cases (p == n)) [
    | inl e ↦ rw e i
    | inr e ↦ rw e (
        add_successors-IsCfa p (new_edges n self outs (g.successors p)) (without_edges p g)
          (without_edges-IsCfa p g i))
  ]

  pub reroute_all-IsCfa : (ps : List ℕ) (g : Cfa) → IsCfa g → IsCfa (reroute_all n self outs ps g)
  unfolding reroute_all
  reroute_all-IsCfa [] g i = i
  reroute_all-IsCfa (p ∷ ps) g i =
      reroute_all-IsCfa ps (reroute n self outs p g) (reroute-IsCfa p g i)

  pub reroute_all_other :
      (ps : List ℕ) (g : Cfa) (a : ℕ)
      → has_elem a ps ≡ false
      → (reroute_all n self outs ps g).successors a ≡ g.successors a
  unfolding reroute_all
  reroute_all_other [] g a h = refl
  reroute_all_other (p ∷ ps) g a h =
      reroute_all_other ps (reroute n self outs p g) a (ground arith)
      ∙ reroute_other p g a (ground arith)

  -- What was rerouted stays so.
  Rerouted-again : (g m g' : Cfa) (a : ℕ) → Rerouted g m a → Rerouted m g' a → Rerouted g g' a
  Rerouted-again g m g' a r s = record {
    words = λ c u k. (
      λ x. elim ((s.words c u k).0 x) [
        | inl y ↦ (r.words c u k).0 y
        | inr (x', y', z', e, p, q, t) ↦ cc (EdgeWord-has_target (m.successors a) n x' p, r.gone)
      ],
      λ x. (s.words c u k).1 (inl ((r.words c u k).1 x)),
    );
    gone = s.gone;
  }

  Rerouted-same :
      (g m g' : Cfa) (a : ℕ) → Rerouted g m a → g'.successors a ≡ m.successors a → Rerouted g g' a
  Rerouted-same g m g' a r e = record {
    words = λ c u k.
        subst (λ x. EdgeWord x c u ↔ (Edge g a c u ⊎ Via self (Edge g a n) (EdgeWord outs c) u))
          (sym e) (r.words c u k);
    gone = subst (λ x. has_target n x ≡ false) (sym e) r.gone;
  }

  Rerouted-before :
      (g m g' : Cfa) (a : ℕ) → m.successors a ≡ g.successors a → Rerouted m g' a → Rerouted g g' a
  Rerouted-before g m g' a e r = record {
    words = λ c u k.
        subst (λ x. Edge g' a c u ↔ (EdgeWord x c u ⊎ Via self (EdgeWord x n) (EdgeWord outs c) u))
          e (r.words c u k);
    gone = r.gone;
  }

  pub reroute_all-Rerouted :
      (ps : List ℕ) (g : Cfa) (a : ℕ)
      → (a == n) ≡ false
      → has_elem a ps ≡ true
      → Rerouted g (reroute_all n self outs ps g) a
  unfolding reroute_all
  reroute_all-Rerouted [] g a k h = cc
  reroute_all-Rerouted (p ∷ ps) g a k h =
      let m = reroute n self outs p g in
      let rest = reroute_all n self outs ps m in
      elim (Bool-cases (p == a)) [
        | inl e ↦
            let z : p ≡ a = ground arith in
            let first : Rerouted g m a =
              subst (Rerouted g m) z (reroute-Rerouted p g (ground arith)) in
            elim (Bool-cases (has_elem a ps)) [
              | inl t ↦ Rerouted-again g m rest a first (reroute_all-Rerouted ps m a k t)
              | inr f ↦ Rerouted-same g m rest a first (reroute_all_other ps m a f)
            ]
        | inr e ↦
            Rerouted-before g m rest a (reroute_other p g a e)
              (reroute_all-Rerouted ps m a k (ground arith))
      ]
