-- ===== src/Control/Describes.antt =====
-- CENode.h: what the sets of labels say of the words of an expression, and how that is composed.
use dg.Base.{
  ℕ, ◌≡◌, refl, sym, ◌∙◌, ap, Bool, true, false, ◌||◌, ◌&&◌, List, [], ◌++◌, ◌⊎◌, inl, inr,
  has_elem, has_elem-append, Bool-cases, arith,
}
use dg.Control.Words.{Repeats, skip, once, again}

-- The words of `P` where a label is in it, and where it is not.
abbrev pub With : (List ℕ → Type 0) → ℕ → Type 0
With P l = (w : List ℕ) × P w × (has_elem l w ≡ true)

abbrev pub Without : (List ℕ → Type 0) → ℕ → Type 0
Without P l = (w : List ℕ) × P w × (has_elem l w ≡ false)

-- `must` holds of exactly the labels that all words have, `may` of those that some word has.
pub record Describes (P : List ℕ → Type 0) (must may : ℕ → Bool) : Type 0 where
  pub every : (l : ℕ) (w : List ℕ) → must l ≡ true → P w → has_elem l w ≡ true
  pub avoid : (l : ℕ) → must l ≡ false → Without P l
  pub visit : (l : ℕ) → may l ≡ true → With P l
  pub only : (l : ℕ) (w : List ℕ) → P w → has_elem l w ≡ true → may l ≡ true

or_split : (a b : Bool) → (a || b) ≡ true → (a ≡ true) ⊎ (b ≡ true)
or_split true b h = inl refl
or_split false b h = inr h

pub Describes-same :
    (P : List ℕ → Type 0) (must may must' may' : ℕ → Bool)
    → ((l : ℕ) → must' l ≡ must l)
    → ((l : ℕ) → may' l ≡ may l)
    → Describes P must may
    → Describes P must' may'
Describes-same P must may must' may' e f d = record {
  every = λ l w h p. d.every l w (sym (e l) ∙ h) p;
  avoid = λ l h. d.avoid l (sym (e l) ∙ h);
  visit = λ l h. d.visit l (sym (f l) ∙ h);
  only = λ l w p t. f l ∙ d.only l w p t;
}

-- The word with no labels.
pub Describes-empty : Describes (λ w. w ≡ []) (λ l. false) (λ l. false)
Describes-empty = record {
  every = λ l w h p. cc;
  avoid = λ l h. ([], refl, refl);
  visit = λ l h. cc;
  only = λ l w e t. sym (ap (has_elem l) e) ∙ t;
}

module _ (P Q : List ℕ → Type 0) (a m b n : ℕ → Bool) (dp : Describes P a m)
    (dq : Describes Q b n) where
  abbrev Both : List ℕ → Type 0
  Both w = (u v : List ℕ) × (w ≡ u ++ v) × P u × Q v

  -- One behind the other, where both have a word.
  pub Describes-Both :
      (p : List ℕ) → P p → (q : List ℕ) → Q q → Describes Both (λ l. a l || b l) (λ l. m l || n l)
  Describes-Both p at_p q at_q = record {
    every = λ l w h (u, v, e, r, s).
        ap (has_elem l) e ∙ has_elem-append l u v ∙ elim (or_split (a l) (b l) h) [
          | inl t ↦ ground (arith, dp.every l u t r)
          | inr t ↦ ground (arith, dq.every l v t s)
        ];
    avoid = λ l h.
        let (u, r, s) = dp.avoid l (ground arith) in
        let (v, r', s') = dq.avoid l (ground arith) in
        (u ++ v, (u, v, refl, r, r'), has_elem-append l u v ∙ ground arith);
    visit = λ l h. elim (or_split (m l) (n l) h) [
      | inl t ↦
          let (u, r, s) = dp.visit l t in
          (u ++ q, (u, q, refl, r, at_q), has_elem-append l u q ∙ ground arith)
      | inr t ↦
          let (v, r, s) = dq.visit l t in
          (p ++ v, (p, v, refl, at_p, r), has_elem-append l p v ∙ ground arith)
    ];
    only = λ l w (u, v, e, r, s) t.
        elim (or_split (has_elem l u) (has_elem l v)
          (sym (has_elem-append l u v) ∙ sym (ap (has_elem l) e) ∙ t)) [
            | inl z ↦ ground (arith, dp.only l u r z)
            | inr z ↦ ground (arith, dq.only l v s z)
          ];
  }

  -- One or the other.
  pub Describes-either : Describes (λ w. P w ⊎ Q w) (λ l. a l && b l) (λ l. m l || n l)
  Describes-either = record {
    every = λ l w h r. elim r [
      | inl x ↦ dp.every l w (ground arith) x
      | inr x ↦ dq.every l w (ground arith) x
    ];
    avoid = λ l h. elim (Bool-cases (a l)) [
      | inl t ↦ let (w, r, s) = dq.avoid l (ground arith) in (w, inr r, s)
      | inr t ↦ let (w, r, s) = dp.avoid l t in (w, inl r, s)
    ];
    visit = λ l h. elim (or_split (m l) (n l) h) [
      | inl t ↦ let (w, r, s) = dp.visit l t in (w, inl r, s)
      | inr t ↦ let (w, r, s) = dq.visit l t in (w, inr r, s)
    ];
    only = λ l w r t. elim r [
      | inl x ↦ ground (arith, dp.only l w x t)
      | inr x ↦ ground (arith, dq.only l w x t)
    ];
  }

-- No words at all.
pub Describes-none : Describes (λ w. ⊥) (λ l. true) (λ l. false)
Describes-none = record {
  every = λ l w h p. absurd p;
  avoid = λ l h. cc;
  visit = λ l h. cc;
  only = λ l w p t. absurd p;
}

module _ (P : List ℕ → Type 0) (a m : ℕ → Bool) (d : Describes P a m) where
  every_round : (l : ℕ) (w : List ℕ) → a l ≡ true → Repeats ⊥ P w → has_elem l w ≡ true
  every_round l w h (skip s e) = absurd s
  every_round l w h (once p) = d.every l w h p
  every_round l w h (again u v e p r) =
      ap (has_elem l) e ∙ has_elem-append l u v ∙ ground (arith, d.every l u h p)

  only_round : (l : ℕ) (w : List ℕ) → Repeats ⊥ P w → has_elem l w ≡ true → m l ≡ true
  only_round l w (skip s e) t = absurd s
  only_round l w (once p) t = d.only l w p t
  only_round l w (again u v e p r) t =
      elim (or_split (has_elem l u) (has_elem l v)
        (sym (has_elem-append l u v) ∙ sym (ap (has_elem l) e) ∙ t)) [
          | inl z ↦ d.only l u p z
          | inr z ↦ only_round l v r z
        ]

  -- One round or more.
  pub Describes-Repeats : Describes (Repeats ⊥ P) a m
  Describes-Repeats = record {
    every = λ l w h r. every_round l w h r;
    avoid = λ l h. let (w, p, s) = d.avoid l h in (w, once p, s);
    visit = λ l h. let (w, p, s) = d.visit l h in (w, once p, s);
    only = λ l w r t. only_round l w r t;
  }
