-- ===== src/PointsTo/Single/Laws.antt =====
-- SingleBitvectorPointsToSet.h: lookups behind the operations.
use dg.Base.{
  ℕ, suc, ◌≤◌, ◌≡◌, refl, sym, ap, ◌∙◌, true, false, not, ◌||◌, ◌&&◌, List, [], ◌∷◌, Bool-cases,
  inl, inr, ◌⊎◌, arith, ◌==◌, if◌then◌else◌, has_elem, Ascends, ap₂, subst,
}
use dg.Adt.Bitvector
use dg.Adt.Bitvector.{Bitvector, IsValid}
use dg.Adt.Bitvector.Laws.{get-set, get-unset}
use dg.Adt.Bitvector.Members.{has_elem-elements}
use dg.Offset.{is_unknown}
use dg.PointsTo.{Pointer}
use dg.PointsTo.Single.{
  Numbering, PointsToSet, at_unknown, points_to, ids_of_target, unset_all, remove_any,
  add_with_unknown_offset, add,
}

has_elem_below : (lo k : ℕ) (xs : List ℕ) → Ascends lo xs → suc k ≤ lo → has_elem k xs ≡ false
has_elem_below lo k [] a h = refl
has_elem_below lo k (x ∷ xs) (le, a) h = ground (arith, has_elem_below (suc x) k xs a)

-- Ascending lists with the same elements are equal.
pub ascending_eq :
    (lo : ℕ) (xs ys : List ℕ)
    → Ascends lo xs
    → Ascends lo ys
    → ((i : ℕ) → has_elem i xs ≡ has_elem i ys)
    → xs ≡ ys
ascending_eq lo [] [] a b h = refl
ascending_eq lo [] (y ∷ ys) a b h = ground (arith, h y)
ascending_eq lo (x ∷ xs) [] a b h = ground (arith, h x)
ascending_eq lo (x ∷ xs) (y ∷ ys) (le, a) (le', b) h =
    let head : x ≡ y =
      ground (arith, h x, h y, has_elem_below (suc x) y xs a, has_elem_below (suc y) x ys b) in
    let b' : Ascends (suc x) ys = subst (λ z. Ascends (suc z) ys) (sym head) b in
    let tail = ascending_eq (suc x) xs ys a b' (λ i.
      ground (arith, head, h i, has_elem_below (suc x) i xs a, has_elem_below (suc x) i ys b')) in
    ap₂ (λ z zs. z ∷ zs) head tail

-- Sets with the same numbers visit the same numbers.
pub elements_eq :
    (v w : Bitvector)
    → IsValid v
    → IsValid w
    → ((i : ℕ) → Bitvector.get v i ≡ Bitvector.get w i)
    → Bitvector.elements v ≡ Bitvector.elements w
elements_eq v w hv hw h =
    let (found, ascends, sizes) = has_elem-elements v hv in
    let (found', ascends', sizes') = has_elem-elements w hw in
    ascending_eq 0 (Bitvector.elements v) (Bitvector.elements w) ascends ascends'
      (λ i. found i ∙ h i ∙ sym (found' i))

module _ (N : Numbering) where
  get-unset_all :
      (ns : List ℕ) (v : PointsToSet) (j : ℕ)
      → IsValid v
      → IsValid (unset_all N ns v)
        × (Bitvector.get (unset_all N ns v) j ≡ (Bitvector.get v j && not (has_elem j ns)))
  unfolding unset_all
  get-unset_all [] v j h = (h, ground arith)
  get-unset_all (n ∷ ns) v j h =
      let (valid, looked) = get-unset v n j h in
      let (valid', looked') = get-unset_all ns (Bitvector.unset v n).0 j valid in
      (valid', ground (arith, looked, looked'))

  has_elem-ids_of_target :
      (t j : ℕ) (ns : List ℕ)
      → has_elem j (ids_of_target N t ns) ≡ (has_elem j ns && (N.pointer_of j).target == t)
  unfolding ids_of_target
  has_elem-ids_of_target t j [] = refl
  has_elem-ids_of_target t j (n ∷ ns) = elim (Bool-cases (n == j)) [
    | inl e ↦ let z : n ≡ j = ground arith in rw z (ground (arith, has_elem-ids_of_target t j ns))
    | inr e ↦ ground (arith, e, has_elem-ids_of_target t j ns)
  ]

  -- `removeAny` takes away the pointers to the target, and no others.
  pub get-remove_any :
      (t : ℕ) (v : PointsToSet) (j : ℕ)
      → IsValid v
      → IsValid (remove_any N t v).0
        × (Bitvector.get (remove_any N t v).0 j
            ≡ (Bitvector.get v j && not ((N.pointer_of j).target == t)))
  unfolding remove_any
  get-remove_any t v j h =
      let (found, ascends, sizes) = has_elem-elements v h in
      let (valid, looked) = get-unset_all (ids_of_target N t (Bitvector.elements v)) v j h in
      (valid, ground (arith, looked, has_elem-ids_of_target t j (Bitvector.elements v), found j))

  -- A lookup behind an addition, and its flag: it is raised unless the pointer, or the unknown offset
  -- of its target, was there.
  pub get-add :
      (p : Pointer) (v : PointsToSet) (j : ℕ)
      → IsValid v
      → IsValid (add N p v).0
        × (Bitvector.get (add N p v).0 j ≡ (
            if points_to N v (at_unknown p.target)
            then Bitvector.get v j
            else if is_unknown p.offset
            then (N.id (at_unknown p.target) == j
                || Bitvector.get v j && not ((N.pointer_of j).target == p.target))
            else (N.id p == j || Bitvector.get v j)))
  unfolding add add_with_unknown_offset
  get-add p v j h = elim (Bool-cases (points_to N v (at_unknown p.target))) [
    | inl e ↦ rw e (h, refl)
    | inr e ↦ elim (Bool-cases (is_unknown p.offset)) [
      | inl u ↦
          let (valid, looked) = get-remove_any p.target v j h in
          let (valid', looked', flag) =
            get-set (remove_any N p.target v).0 (N.id (at_unknown p.target)) j valid in
          rw (e, u) (valid', looked' ∙ ap (λ b. N.id (at_unknown p.target) == j || b) looked)
      | inr u ↦ let (valid, looked, flag) = get-set v (N.id p) j h in rw (e, u) (valid, looked)
    ]
  ]

  -- An addition that reports no change finds the unknown offset of the target, or the pointer.
  pub add_quiet :
      (p : Pointer) (v : PointsToSet)
      → IsValid v
      → (add N p v).1 ≡ false
      → (points_to N v (at_unknown p.target) ≡ true)
        ⊎ ((is_unknown p.offset ≡ false) × (points_to N v p ≡ true))
  unfolding add add_with_unknown_offset points_to
  add_quiet p v h e = elim (Bool-cases (Bitvector.get v (N.id (at_unknown p.target)))) [
    | inl f ↦ inl f
    | inr f ↦ elim (Bool-cases (is_unknown p.offset)) [
      | inl u ↦
          let i = N.id (at_unknown p.target) in
          let (valid, looked) = get-remove_any p.target v i h in
          let (valid', looked', flag) = get-set (remove_any N p.target v).0 i i valid in
          ground (arith, e, f, u, looked, flag)
      | inr u ↦
          let (valid, looked, flag) = get-set v (N.id p) 0 h in
          inr (u, ground (arith, e, f, u, flag))
    ]
  ]
