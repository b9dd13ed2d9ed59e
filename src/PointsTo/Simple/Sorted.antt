-- ===== src/PointsTo/Simple/Sorted.antt =====
-- SimplePointsToSet.h: the order of the pointers in a `std::set`.
use dg.Base.{
  ◌∙◌, ℕ, ◌≡◌, refl, Bool, true, false, not, ◌||◌, ◌==◌, List, [], ◌∷◌, Bool-cases, inl, inr, arith,
  All, All-map,
}
use dg.Base.Steps.{if-branch}
use dg.Offset.{unknown, is_unknown}
use dg.PointsTo.{Pointer, pointer_eq, pointer_lt, has_pointer, insert_pointer}
use dg.PointsTo.Simple.{PointsToSet, without_target, add, union_loop, union}

-- The pointers of a list ascend.
abbrev pub Sorted : List Pointer → Type 0
Sorted [] = Unit
Sorted (p ∷ ps) = All (λ q. pointer_lt p q ≡ true) ps × Sorted ps

lt_trans : (a b c : Pointer) → pointer_lt a b ≡ true → pointer_lt b c ≡ true → pointer_lt a c ≡ true
lt_trans a b c h k = ground arith

lt_other : (a b : Pointer) → pointer_lt a b ≡ false → pointer_eq b a ≡ false → pointer_lt b a ≡ true
lt_other a b h k = ground arith

lt_member :
    (r p : Pointer) (s : List Pointer)
    → All (λ q. pointer_lt r q ≡ true) s
    → has_pointer p s ≡ true
    → pointer_lt r p ≡ true
lt_member r p [] all h = ground arith
lt_member r p (q ∷ s) (lt, all) h = ground (arith, lt_member r p s all)

All-insert :
    (r p : Pointer) (s : List Pointer)
    → pointer_lt r p ≡ true
    → All (λ q. pointer_lt r q ≡ true) s
    → All (λ q. pointer_lt r q ≡ true) (insert_pointer p s)
All-insert r p [] h all = (h, tt)
All-insert r p (q ∷ s) h (lt, all) = elim (Bool-cases (pointer_lt p q)) [
  | inl e ↦ rw e (h, (lt, all))
  | inr e ↦ elim (Bool-cases (pointer_eq q p)) [
    | inl f ↦ rw (e, f) (lt, all)
    | inr f ↦ rw (e, f) (lt, All-insert r p s h all)
  ]
]

pub insert-Sorted : (p : Pointer) (s : List Pointer) → Sorted s → Sorted (insert_pointer p s)
insert-Sorted p [] h = (tt, tt)
insert-Sorted p (q ∷ s) (all, h) = elim (Bool-cases (pointer_lt p q)) [
  | inl e ↦ rw e ((e, All-map _ _ s (λ x. lt_trans p q x e) all), (all, h))
  | inr e ↦ elim (Bool-cases (pointer_eq q p)) [
    | inl f ↦ rw (e, f) (all, h)
    | inr f ↦ rw (e, f) (All-insert q p s (lt_other p q e f) all, insert-Sorted p s h)
  ]
]

-- Inserting what is there changes nothing.
pub insert_present :
    (p : Pointer) (s : List Pointer) → Sorted s → has_pointer p s ≡ true → insert_pointer p s ≡ s
insert_present p [] h e = ground arith
insert_present p (q ∷ s) (all, h) e = elim (Bool-cases (pointer_eq q p)) [
  | inl f ↦ ground (arith, f)
  | inr f ↦ ground (arith, f, e, insert_present p s h, lt_member q p s all)
]

All-without :
    (r : Pointer) (t : ℕ) (s : List Pointer)
    → All (λ q. pointer_lt r q ≡ true) s
    → All (λ q. pointer_lt r q ≡ true) (without_target t s)
unfolding without_target
All-without r t [] all = tt
All-without r t (q ∷ s) (lt, all) =
    if-branch (All (λ x. pointer_lt r x ≡ true)) (q.target == t) (λ e. All-without r t s all)
      (λ e. (lt, All-without r t s all))

without-Sorted : (t : ℕ) (s : List Pointer) → Sorted s → Sorted (without_target t s)
unfolding without_target
without-Sorted t [] h = tt
without-Sorted t (q ∷ s) (all, h) =
    if-branch Sorted (q.target == t) (λ e. without-Sorted t s h)
      (λ e. (All-without q t s all, without-Sorted t s h))

pub add-Sorted : (p : Pointer) (s : PointsToSet) → Sorted s → Sorted (add p s).0
unfolding add
add-Sorted p s h =
    let Keeps = λ (r : PointsToSet × Bool). Sorted r.0 in
    if-branch Keeps (is_unknown p.offset)
      (λ u.
        if-branch Keeps (has_pointer (record p { offset = unknown }) s) (λ e. h)
          (λ e. insert-Sorted _ _ (without-Sorted p.target s h)))
      (λ u.
        if-branch Keeps (has_pointer (record p { offset = unknown }) s) (λ e. h)
          (λ e. insert-Sorted p s h))

union_loop-Sorted :
    (s rhs : PointsToSet) (changed : Bool) → Sorted s → Sorted (union_loop s rhs changed).0
unfolding union_loop
union_loop-Sorted s [] changed h = h
union_loop-Sorted s (q ∷ rhs) changed h =
    union_loop-Sorted (insert_pointer q s) rhs (changed || not (has_pointer q s))
      (insert-Sorted q s h)

pub union-Sorted : (s rhs : PointsToSet) → Sorted s → Sorted (union s rhs).0
unfolding union
union-Sorted s rhs = union_loop-Sorted s rhs false

-- A flag that is raised stays raised.
union_loop_raised :
    (s rhs : PointsToSet) (changed : Bool) → (union_loop s rhs changed).1 ≡ false → changed ≡ false
unfolding union_loop
union_loop_raised s [] changed e = e
union_loop_raised s (q ∷ rhs) changed e =
    ground (arith, union_loop_raised (insert_pointer q s) rhs (changed || not (has_pointer q s)) e)

union_loop_same :
    (s rhs : PointsToSet) (changed : Bool)
    → Sorted s
    → (union_loop s rhs changed).1 ≡ false
    → (union_loop s rhs changed).0 ≡ s
unfolding union_loop
union_loop_same s [] changed h e = refl
union_loop_same s (q ∷ rhs) changed h e =
    let flag = changed || not (has_pointer q s) in
    let raised = union_loop_raised (insert_pointer q s) rhs flag e in
    union_loop_same (insert_pointer q s) rhs flag (insert-Sorted q s h) e
    ∙ insert_present q s h (ground (arith, raised))

pub union_same : (s rhs : PointsToSet) → Sorted s → (union s rhs).1 ≡ false → (union s rhs).0 ≡ s
unfolding union
union_same s rhs = union_loop_same s rhs false

not_without :
    (t : ℕ) (p : Pointer) (s : PointsToSet)
    → has_pointer p s ≡ false
    → has_pointer p (without_target t s) ≡ false
unfolding without_target
not_without t p [] e = e
not_without t p (q ∷ s) e = ground (arith, not_without t p s)

pub add_same : (p : Pointer) (s : PointsToSet) → Sorted s → (add p s).1 ≡ false → (add p s).0 ≡ s
unfolding add
add_same p s h =
    let Same = λ (r : PointsToSet × Bool). r.1 ≡ false → r.0 ≡ s in
    if-branch Same (is_unknown p.offset)
      (λ u.
        if-branch Same (has_pointer (record p { offset = unknown }) s) (λ e f. refl)
          (λ e f. ground (arith, f, not_without p.target (record p { offset = unknown }) s e)))
      (λ u.
        if-branch Same (has_pointer (record p { offset = unknown }) s) (λ e f. refl)
          (λ e f. insert_present p s h (ground (arith, f))))
