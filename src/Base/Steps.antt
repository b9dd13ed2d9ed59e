-- ===== src/Base/Steps.antt =====
-- Stateful code that may abort: a step takes the state to the new one, and tells whether it changed
-- something, as the functions do that return `changed`.
use dg.Base.{
  Bool, true, false, ◌||◌, Option, none, some, List, [], ◌∷◌, ◌≡◌, refl, All, Option-cases, inl,
  inr, arith, subst, sym, ap, if◌then◌else◌,
}

pub some_inj {ℓ} : {A : Type ℓ} (x y : A) → some x ≡ some y → x ≡ y
some_inj x y h = ap (λ o. elim o [ none ↦ x | some r ↦ r ]) h

or_left : (a b : Bool) → false ≡ (a || b) → a ≡ false
or_left a b h = ground arith

or_right : (a b : Bool) → false ≡ (a || b) → b ≡ false
or_right a b h = ground arith

-- `none` is a call of `abort`.
abbrev pub Step {ℓ} : Type ℓ → Type ℓ
Step S = S → Option (S × Bool)

module _ {ℓ} {S : Type ℓ} where
  abbrev pub idle : Step S
  idle s = some (s, false)

  abbrev pub pure_step : (S → S × Bool) → Step S
  pure_step f s = some (f s)

  -- `changed |= ` the result of the second, behind the first
  unfoldable pub both : Step S → Step S → Step S
  both f g s = elim (f s) [
    | none ↦ none
    | some (s', a) ↦ elim (g s') [ none ↦ none | some (s'', b) ↦ some (s'', a || b) ]
  ]

  -- A range-based for loop.
  unfoldable pub each {κ} : {A : Type κ} → (A → Step S) → List A → Step S
  unfolding both
  each f [] = idle
  each f (x ∷ xs) = both (f x) (each f xs)

  -- The two steps that `both` takes.
  pub both_steps :
      (f g : Step S) (s t : S) (c : Bool)
      → both f g s ≡ some (t, c)
      → (m : S) × (a : Bool) × (b : Bool) × (f s ≡ some (m, a))
        × (g m ≡ some (t, b))
        × (c ≡ (a || b))
  unfolding both
  both_steps f g s t c h = elim (Option-cases (f s)) [
    | inl e ↦ ground arith
    | inr ((m, a), e) ↦ elim (Option-cases (g m)) [
      | inl e' ↦ ground arith
      | inr ((t', b), e') ↦ (m, a, b, e, ground arith, ground arith)
    ]
  ]

  pub quiet_steps :
      (f g : Step S) (s t : S)
      → both f g s ≡ some (t, false)
      → (m : S) × (f s ≡ some (m, false)) × (g m ≡ some (t, false))
  quiet_steps f g s t h =
      let (m, a, b, e, e', eq) = both_steps f g s t false h in
      (
        m,
        subst (λ c. f s ≡ some (m, c)) (or_left a b eq) e,
        subst (λ c. g m ≡ some (t, c)) (or_right a b eq) e',
      )

-- A relation between the states before and behind a step, and whether something changed.
module _ {ℓ κ} {S : Type ℓ} (R : Bool → S → S → Type κ) where
  abbrev pub Keeps : Step S → Type (ℓ ⊔ κ)
  Keeps f = (s t : S) (c : Bool) → f s ≡ some (t, c) → R c s t

  -- Doing nothing is in the relation, and so is one step behind another.
  pub record Composes : Type (ℓ ⊔ κ) where
    pub nothing : (s : S) → R false s s
    pub compose : (a b : Bool) (s m t : S) → R a s m → R b m t → R (a || b) s t

  module _ (laws : Composes) where
    pub idle-Keeps : Keeps idle
    idle-Keeps s t c h = subst (λ r. R r.1 s r.0) (some_inj (s, false) (t, c) h) (laws.nothing s)

    pub pure_step-Keeps : (f : S → S × Bool) → ((s : S) → R (f s).1 s (f s).0) → Keeps (pure_step f)
    pure_step-Keeps f k s t c h = subst (λ r. R r.1 s r.0) (some_inj (f s) (t, c) h) (k s)

    pub both-Keeps : (f g : Step S) → Keeps f → Keeps g → Keeps (both f g)
    both-Keeps f g kf kg s t c h =
        let (m, a, b, e, e', eq) = both_steps f g s t c h in
        subst (λ x. R x s t) (sym eq) (laws.compose a b s m t (kf s m a e) (kg m t b e'))

    pub each-Keeps {ι} :
        {A : Type ι} (f : A → Step S) (xs : List A) → ((x : A) → Keeps (f x)) → Keeps (each f xs)
    unfolding each
    each-Keeps f [] k = idle-Keeps
    each-Keeps f (x ∷ xs) k = both-Keeps (f x) (each f xs) (k x) (each-Keeps f xs k)

-- What each round of a loop without changes establishes, where no later round without changes undoes
-- it.
module _ {ℓ κ ι} {S : Type ℓ} {A : Type ι} (Same : S → S → Type κ) (P : A → S → Type κ)
    (same_refl : (s : S) → Same s s) (same_trans : (s m t : S) → Same s m → Same m t → Same s t)
    (f : A → Step S) (round : (x : A) (s t : S) → f x s ≡ some (t, false) → Same s t × P x t)
    (kept : (x : A) (s t : S) → Same s t → P x s → P x t) where
  pub each-All :
      (xs : List A) (s t : S) → each f xs s ≡ some (t, false) → Same s t × All (λ x. P x t) xs
  unfolding each
  each-All [] s t h = (subst (λ r. Same s r.0) (some_inj (s, false) (t, false) h) (same_refl s), tt)
  each-All (x ∷ xs) s t h =
      let (m, first, later) = quiet_steps (f x) (each f xs) s t h in
      let (same, p) = round x s m first in
      let (same', rest) = each-All xs m t later in
      (same_trans s m t same same', (kept x m t same' p, rest))

-- The same, where each round may rely on what no step undoes.
module _ {ℓ κ ι} {S : Type ℓ} {A : Type ι} (Same : S → S → Type κ) (P : A → S → Type κ)
    (Inv : S → Type κ) (same_refl : (s : S) → Same s s)
    (same_trans : (s m t : S) → Same s m → Same m t → Same s t) (f : A → Step S)
    (round : (x : A) (s t : S) → Inv s → f x s ≡ some (t, false) → Same s t × P x t)
    (inv_kept : (s t : S) → Same s t → Inv s → Inv t)
    (kept : (x : A) (s t : S) → Same s t → P x s → P x t) where
  pub each-All-under :
      (xs : List A) (s t : S)
      → Inv s
      → each f xs s ≡ some (t, false)
      → Same s t × All (λ x. P x t) xs
  unfolding each
  each-All-under [] s t i h =
      (subst (λ r. Same s r.0) (some_inj (s, false) (t, false) h) (same_refl s), tt)
  each-All-under (x ∷ xs) s t i h =
      let (m, first, later) = quiet_steps (f x) (each f xs) s t h in
      let (same, p) = round x s m i first in
      let (same', rest) = each-All-under xs m t (inv_kept s m same i) later in
      (same_trans s m t same same', (kept x m t same' p, rest))

-- A predicate holds of a test where it holds of the branch that is taken.
pub if-branch {ℓ κ} :
    {X : Type ℓ} (P : X → Type κ) (b : Bool) {x y : X}
    → (b ≡ true → P x)
    → (b ≡ false → P y)
    → P (if b then x else y)
if-branch P true px py = px refl
if-branch P false px py = py refl

pub option-branch {ℓ κ ι} :
    {X : Type ℓ} {V : Type ι} (P : X → Type κ) (o : Option V) {x : X} {f : V → X}
    → P x
    → ((v : V) → P (f v))
    → P (elim o as (λ _. X) [ none ↦ x | some v ↦ f v ])
option-branch P none px pf = px
option-branch P (some v) px pf = pf v
