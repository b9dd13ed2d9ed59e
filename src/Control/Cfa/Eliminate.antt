-- ===== src/Control/Cfa/Eliminate.antt =====
-- CFA.h: `eliminate`, what it keeps of an automaton, and the words of the paths after it.
use dg.Base.{
  ℕ, ◌≡◌, ◌≢◌, refl, sym, ◌∙◌, ap, subst, false, ◌||◌, List, [], ◌∷◌, ◌==◌, ◌⊎◌, inl, inr, ◌↔◌,
  Bool-cases, has_elem, without, arith,
}
use dg.Control.{CeNode}
use dg.Control.Words.{Repeats}
use dg.Control.Cfa.{
  Cfa, put, has_target, self_loop_label, only_self_loop, is_empty, reroute_all, forget, eliminate,
  eliminate_all,
}
use dg.Control.Cfa.Edges.{EdgeWord, EdgeWord-has_target, Edge, Route, Distinct}
use dg.Control.Cfa.Add.{IsCfa}
use dg.Control.Cfa.Self.{LoopWord-iff}
use dg.Control.Cfa.Reroute.{Rerouted, reroute_all-IsCfa, reroute_all_other, reroute_all-Rerouted}
use dg.Control.Cfa.Kleene.{Through, Route_around}

pub successors-forget :
    (n : ℕ) (es : List (ℕ × CeNode)) (g : Cfa) (a : ℕ)
    → (forget n es g).successors a ≡ g.successors a
unfolding forget
successors-forget n [] g a = refl
successors-forget n ((t, l) ∷ es) g a =
    successors-forget n es
      (record g { predecessors = put t (without n (g.predecessors t)) g.predecessors }) a

has_elem-without :
    (n a : ℕ) (xs : List ℕ) → (n == a) ≡ false → has_elem a (without n xs) ≡ has_elem a xs
has_elem-without n a [] h = refl
has_elem-without n a (x ∷ xs) h = ground (arith, has_elem-without n a xs h)

predecessors-forget :
    (n : ℕ) (es : List (ℕ × CeNode)) (g : Cfa) (a c : ℕ)
    → (n == a) ≡ false
    → has_elem a ((forget n es g).predecessors c) ≡ has_elem a (g.predecessors c)
unfolding forget
predecessors-forget n [] g a c h = refl
predecessors-forget n ((t, l) ∷ es) g a c h =
    predecessors-forget n es
      (record g { predecessors = put t (without n (g.predecessors t)) g.predecessors }) a c h
    ∙ elim (Bool-cases (t == c)) [
      | inl e ↦
          let z : t ≡ c = ground arith in
          rw e
            (has_elem-without n a (g.predecessors t) h ∙ ap (λ k. has_elem a (g.predecessors k)) z)
      | inr e ↦ rw e refl
    ]

module _ (n : ℕ) (g : Cfa) (i : IsCfa g) where
  -- The automaton behind the loop over the predecessors, and without the node.
  abbrev rerouted : Cfa
  rerouted =
      reroute_all n (self_loop_label n (g.successors n)) (g.successors n) (g.predecessors n) g

  abbrev taken_out : Cfa
  taken_out =
      let g' = forget n (g.successors n) rerouted in
      record { successors = put n [] g'.successors; predecessors = put n [] g'.predecessors }

  successors-taken_out : (a : ℕ) → (n == a) ≡ false → taken_out.successors a ≡ rerouted.successors a
  successors-taken_out a h = rw h (successors-forget n (g.successors n) rerouted a)

  -- A node that is not rerouted has no edge to the node.
  all_Rerouted :
      (a : ℕ)
      → (a == n) ≡ false
      → Rerouted n (self_loop_label n (g.successors n)) (g.successors n) g rerouted a
  all_Rerouted a h = elim (Bool-cases (has_elem a (g.predecessors n))) [
    | inl t ↦
        reroute_all-Rerouted n (self_loop_label n (g.successors n)) (g.successors n)
          (g.predecessors n) g a h t
    | inr f ↦
        let e =
          reroute_all_other n (self_loop_label n (g.successors n)) (g.successors n)
            (g.predecessors n) g a f in
        let none : has_target n (g.successors a) ≡ false = ground (arith, i.known a n) in
        record {
          words = λ c u k. (
            λ r. inl (subst (λ x. EdgeWord x c u) e r),
            λ r. elim r [
              | inl x ↦ subst (λ y. EdgeWord y c u) (sym e) x
              | inr (x, y, z, e', p, q, t) ↦ cc (EdgeWord-has_target (g.successors a) n x p, none)
            ],
          );
          gone = ap (has_target n) e ∙ none;
        }
  ]

  taken_out-IsCfa : IsCfa taken_out
  taken_out-IsCfa =
      let j =
        reroute_all-IsCfa n (self_loop_label n (g.successors n)) (g.successors n) (g.predecessors n)
          g i in
      record {
        distinct = λ a. elim (Bool-cases (n == a)) [
          | inl e ↦ rw e tt
          | inr e ↦ subst Distinct (sym (successors-taken_out a e)) (j.distinct a)
        ];
        known = λ a c h. elim (Bool-cases (n == a)) [
          | inl e ↦ cc (rw e at h)
          | inr e ↦
              let h' = sym (ap (has_target c) (successors-taken_out a e)) ∙ h in
              elim (Bool-cases (n == c)) [
                | inl e' ↦
                    let z : n ≡ c = ground arith in
                    let gone = (all_Rerouted a (ground arith)).gone in cc (gone, h', z)
                | inr e' ↦
                    rw e' (predecessors-forget n (g.successors n) rerouted a c e ∙ j.known a c h')
              ]
        ];
      }

  around :
      (a c : ℕ) (u : List ℕ)
      → a ≢ n
      → c ≢ n
      → Edge taken_out a c u
        ↔ (Edge g a c u ⊎ Through (Edge g) (Repeats (Unit {0}) (Edge g n n)) n a c u)
  around a c u h k =
      let r = (all_Rerouted a (ground arith)).words c u k in
      let s = successors-taken_out a (ground arith) in
      (
        λ x. elim (r.0 (subst (λ y. EdgeWord y c u) s x)) [
          | inl y ↦ inl y
          | inr (x', y, z, e, p, q, t) ↦
              inr (x', y, z, e, p, (LoopWord-iff n (g.successors n) y (i.distinct n)).0 q, t)
        ],
        λ x.
            subst (λ y. EdgeWord y c u) (sym s)
              (elim x as (λ _. Edge rerouted a c u) [
                | inl y ↦ r.1 (inl y)
                | inr (x', y, z, e, p, q, t) ↦ r.1 (
                    inr (x', y, z, e, p, (LoopWord-iff n (g.successors n) y (i.distinct n)).1 q, t))
              ]),
      )

  never : (a : ℕ) (u : List ℕ) → a ≢ n → ¬ Edge taken_out a n u
  never a u h e =
      let gone = (all_Rerouted a (ground arith)).gone in
      let s = successors-taken_out a (ground arith) in
      cc (EdgeWord-has_target (taken_out.successors a) n u e, s, gone)

-- Eliminating a node from an automaton whose edges from a node go to different nodes, which know of
-- it, leaves such an automaton, and keeps the words of all paths between other nodes: where the
-- loops of labels may be skipped, a word leads from one to the other after it exactly when it did
-- before.
pub eliminate_lem :
    (n : ℕ) (g : Cfa) (a b : ℕ) (w : List ℕ)
    → IsCfa g
    → a ≢ n
    → b ≢ n
    → IsCfa (eliminate n g) × (Route (Edge g) b a w ↔ Route (Edge (eliminate n g)) b a w)
unfolding eliminate
eliminate_lem n g a b w i h k =
    let stop =
      is_empty (g.successors n)
      || is_empty (g.predecessors n)
      || only_self_loop n (g.successors n) in
    elim (Bool-cases stop) [
      | inl e ↦ rw e (i, (λ p. p, λ p. p))
      | inr e ↦ rw e (
        taken_out-IsCfa n g i,
        Route_around (Edge g) (Edge (taken_out n g i)) n b k (around n g i) (never n g i) a w h,
      )
    ]

-- Eliminating nodes one by one keeps the words of all paths between nodes that are not eliminated,
-- in the same sense, and leaves such an automaton.
pub eliminate_all_lem :
    (ns : List ℕ) (g : Cfa) (a b : ℕ) (w : List ℕ)
    → IsCfa g
    → has_elem a ns ≡ false
    → has_elem b ns ≡ false
    → IsCfa (eliminate_all ns g) × (Route (Edge g) b a w ↔ Route (Edge (eliminate_all ns g)) b a w)
unfolding eliminate_all
eliminate_all_lem [] g a b w i h k = (i, (λ p. p, λ p. p))
eliminate_all_lem (n ∷ ns) g a b w i h k =
    let (i', (to, from)) = eliminate_lem n g a b w i (ground arith) (ground arith) in
    let (j, (to', from')) =
      eliminate_all_lem ns (eliminate n g) a b w i' (ground arith) (ground arith) in
    (j, (λ p. to' (to p), λ p. from (from' p)))
