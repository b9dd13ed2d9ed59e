-- ===== src/Control/Cfa/Kleene.antt =====
-- The paths of a graph after one of its nodes was taken out, where each way through the node became
-- an edge around it.
use mathlib.Core.List.{append_assoc}
use dg.Base.{
  ℕ, ◌≡◌, ◌≢◌, refl, sym, ◌∙◌, ap, subst, List, [], ◌++◌, ◌==◌, ◌⊎◌, inl, inr, ◌↔◌, Bool-cases,
  arith,
}
use dg.Control.Words.{Repeats, skip, once, again}
use dg.Control.Cfa.Edges.{Route, done, step}

-- A way through the node `n`: into it, rounds there, and out of it.
abbrev pub Through : (ℕ → ℕ → List ℕ → Type 0) → (List ℕ → Type 0) → ℕ → ℕ → ℕ → List ℕ → Type 0
Through E Loop n a c u = (x y z : List ℕ) × (u ≡ x ++ (y ++ z)) × E a n x × Loop y × E n c z

Repeats-snoc :
    (P : List ℕ → Type 0) (y u : List ℕ)
    → Repeats (Unit {0}) P y
    → P u
    → Repeats (Unit {0}) P (y ++ u)
Repeats-snoc P y u (skip s e) p = once (subst P (ap (λ t. t ++ u) (sym e)) p)
Repeats-snoc P y u (once q) p = again y u refl q (once p)
Repeats-snoc P y u (again v w e q r) p =
    again v (w ++ u) (ap (λ t. t ++ u) e ∙ append_assoc v w u) q (Repeats-snoc P w u r p)

module _ (E E' : ℕ → ℕ → List ℕ → Type 0) (n b : ℕ) (away : b ≢ n)
    (around : (a c : ℕ) (u : List ℕ)
      → a ≢ n
      → c ≢ n
      → E' a c u ↔ (E a c u ⊎ Through E (Repeats (Unit {0}) (E n n)) n a c u))
    (never : (a : ℕ) (u : List ℕ) → a ≢ n → ¬ E' a n u) where
  rounds : (y v : List ℕ) → Repeats (Unit {0}) (E n n) y → Route E b n v → Route E b n (y ++ v)
  rounds y v (skip s e) p = subst (Route E b n) (ap (λ t. t ++ v) (sym e)) p
  rounds y v (once q) p = step n y v refl q p
  rounds y v (again u w e q r) p =
      step n u (w ++ v) (ap (λ t. t ++ v) e ∙ append_assoc u w v) q (rounds w v r p)

  back : (a : ℕ) {w : List ℕ} → a ≢ n → Route E' b a w → Route E b a w
  back a h (done e z) = done e z
  back a h (step c u v e edge rest) = elim (Bool-cases (c == n)) [
    | inl t ↦ absurd (never a u h (subst (λ k. E' a k u) (ground arith) edge))
    | inr t ↦
        let apart : c ≢ n = ground arith in
        let onward = back c apart rest in
        elim ((around a c u h apart).0 edge) [
          | inl direct ↦ step c u v e direct onward
          | inr (x, y, z, e', p, q, r) ↦
              step n x (y ++ (z ++ v))
                (e
                  ∙ ap (λ k. k ++ v) e'
                  ∙ append_assoc x (y ++ z) v
                  ∙ ap (λ k. x ++ k) (append_assoc y z v))
                p (rounds y (z ++ v) q (step c z v refl r onward))
        ]
  ]

  mutual
    forth : (a : ℕ) {w : List ℕ} → a ≢ n → Route E b a w → Route E' b a w
    forth a h (done e z) = done e z
    forth a h (step c u v e edge rest) = elim (Bool-cases (c == n)) [
      | inl t ↦
          let z : c ≡ n = ground arith in
          subst (Route E' b a) (sym e)
            (at_node c z rest a u [] h (subst (λ k. E a k u) z edge) (skip tt refl))
      | inr t ↦
          let apart : c ≢ n = ground arith in
          step c u v e ((around a c u h apart).1 (inl edge)) (forth c apart rest)
    ]

    -- From the node on, where the way into it started at `a`.
    at_node :
        (c : ℕ)
        → c ≡ n
        → {w : List ℕ} → Route E b c w
        → (a : ℕ) (x y : List ℕ) → a ≢ n
        → E a n x
        → Repeats (Unit {0}) (E n n) y
        → Route E' b a (x ++ (y ++ w))
    at_node c z (done e k) a x y h edge r = absurd (away (sym e ∙ z))
    at_node c z {w} (step d u v e out rest) a x y h edge r = elim (Bool-cases (d == n)) [
      | inl t ↦
          let z' : d ≡ n = ground arith in
          let round = subst (λ k. E k n u) z (subst (λ k. E c k u) z' out) in
          subst (Route E' b a) (ap (λ k. x ++ k) (append_assoc y u v ∙ ap (λ k. y ++ k) (sym e)))
            (at_node d z' rest a x (y ++ u) h edge (Repeats-snoc (E n n) y u r round))
      | inr t ↦
          let apart : d ≢ n = ground arith in
          let out' = subst (λ k. E k d u) z out in
          step d (x ++ (y ++ u)) v
            (ap (λ k. x ++ (y ++ k)) e
              ∙ ap (λ k. x ++ k) (sym (append_assoc y u v))
              ∙ sym (append_assoc x (y ++ u) v))
            ((around a d (x ++ (y ++ u)) h apart).1 (inr (x, y, u, refl, edge, r, out')))
            (forth d apart rest)
    ]

  -- The paths between other nodes have the same words.
  pub Route_around : (a : ℕ) (w : List ℕ) → a ≢ n → Route E b a w ↔ Route E' b a w
  Route_around a w h = (forth a h, back a h)
