-- ===== src/PointsTo/Separate/Laws.antt =====
-- SeparateOffsetsPointsToSet.h: the pointers after `add`, and `mustPointTo`.
use dg.Base.{
  ℕ, false, ◌==◌, Ascends, has_elem, length, List, [], ◌∷◌, refl, ap, ◌∙◌, ◌≡◌, ◌≢◌, true, ◌&&◌,
  ◌||◌, arith, Bool-cases, inl, inr,
}
use dg.Offset.{unknown, is_unknown}
use dg.Adt.Bitvector
use dg.Adt.Bitvector.{Bitvector, empty_bitvector}
use dg.Adt.Bitvector.Laws as VectorLaws
use dg.Adt.Bitvector.Members as VectorMembers
use dg.Adt.Bitvector.Union as VectorUnion
use dg.PointsTo.{Pointer, pointer_eq}
use dg.PointsTo.Separate.{
  PointsToSet, add, union, points_to, may_point_to, must_point_to, is_singleton, empty_set, IsValid,
}

-- A well-formed set may point, after an addition, to what was added and to all that it may have
-- pointed to before.
pub may_point_to-add :
    (s : PointsToSet) (p q : Pointer)
    → IsValid s
    → (pointer_eq p q || may_point_to s q) ≡ true
    → may_point_to (add p s).0 q ≡ true
unfolding add may_point_to points_to
may_point_to-add s p q v h =
    let (_, n, _) = VectorLaws.get-set s.nodes p.target q.target v.nodes_valid in
    let (_, o, _) = VectorLaws.get-set s.offsets p.offset q.offset v.offsets_valid in
    let (_, u, _) = VectorLaws.get-set s.offsets p.offset unknown v.offsets_valid in
    let (_, e, _) =
      VectorLaws.get-set empty_bitvector p.offset unknown
        (record { ascending = tt; blocks = tt }) in
    elim (Bool-cases (Bitvector.get s.offsets unknown)) [
      | inl t ↦ ground (arith, n)
      | inr t ↦ elim (Bool-cases (is_unknown p.offset)) [
        | inl w ↦ ground (arith, n, e)
        | inr w ↦ ground (arith, n, o, u)
      ]
    ]

-- The union of well-formed sets points to exactly the pairs of a node of one of the sets and an
-- offset of one of them.
pub points_to-union :
    (s rhs : PointsToSet) (q : Pointer)
    → IsValid s
    → IsValid rhs
    → points_to (union s rhs).0 q ≡ (
        (Bitvector.get s.nodes q.target || Bitvector.get rhs.nodes q.target)
        && (Bitvector.get s.offsets q.offset || Bitvector.get rhs.offsets q.offset))
unfolding union points_to
points_to-union s rhs q v w =
    let (_, n) = VectorUnion.get-union s.nodes rhs.nodes q.target v.nodes_valid w.nodes_valid in
    let (_, o) =
      VectorUnion.get-union s.offsets rhs.offsets q.offset v.offsets_valid w.offsets_valid in
    rw (n, o)

-- An ascending list of one number, known by what it has.
one_elem :
    (a lo : ℕ) (xs : List ℕ) → Ascends lo xs → ((i : ℕ) → has_elem i xs ≡ (a == i)) → length xs ≡ 1
one_elem a lo [] s h = (let t = h a in ground arith)
one_elem a lo (x ∷ []) s h = omega arith
one_elem a lo (x ∷ y ∷ xs) (b, (c, s)) h = (let t = h x in let u = h y in ground arith)

two_elems :
    (a b : ℕ) (xs : List ℕ)
    → a ≢ b
    → has_elem a xs ≡ true
    → has_elem b xs ≡ true
    → (length xs == 1) ≡ false
two_elems a b [] apart h k = cc
two_elems a b (x ∷ []) apart h k = ground arith
two_elems a b (x ∷ y ∷ xs) apart h k = ground arith

empty-IsValid : Bitvector.IsValid empty_bitvector
empty-IsValid = record { ascending = tt; blocks = tt }

empty_has : (k : ℕ) → Bitvector.get empty_bitvector k ≡ false
unfolding Bitvector.get
empty_has k = refl

-- A bitvector that has one number has the size 1, and one that has two has another size.
size_of_one :
    (v : Bitvector) (a : ℕ)
    → Bitvector.IsValid v
    → ((i : ℕ) → Bitvector.get v i ≡ (a == i))
    → Bitvector.size v ≡ 1
size_of_one v a valid h =
    let (has, ascends, size) = VectorMembers.has_elem-elements v valid in
    size ∙ one_elem a 0 (Bitvector.elements v) ascends (λ i. has i ∙ h i)

size_of_two :
    (v : Bitvector) (a b : ℕ)
    → Bitvector.IsValid v
    → a ≢ b
    → Bitvector.get v a ≡ true
    → Bitvector.get v b ≡ true
    → (Bitvector.size v == 1) ≡ false
size_of_two v a b valid apart h k =
    let (has, ascends, size) = VectorMembers.has_elem-elements v valid in
    ap (λ n. n == 1) size ∙ two_elems a b (Bitvector.elements v) apart (has a ∙ h) (has b ∙ k)

-- The set has the nodes of both pointers, and their offset alone.
record HasBoth (p q : Pointer) (s : PointsToSet) : Type 0 where
  nodes_valid : Bitvector.IsValid s.nodes
  offsets_valid : Bitvector.IsValid s.offsets
  nodes : (j : ℕ) → Bitvector.get s.nodes j ≡ (q.target == j || p.target == j)
  offsets : (i : ℕ) → Bitvector.get s.offsets i ≡ (p.offset == i)

add-HasBoth_self : (p : Pointer) → HasBoth p p (add p empty_set).0
unfolding add
add-HasBoth_self p =
    let node = λ (j : ℕ). VectorLaws.get-set empty_bitvector p.target j empty-IsValid in
    let off = λ (i : ℕ). VectorLaws.get-set empty_bitvector p.offset i empty-IsValid in
    let none : (k : ℕ) → Bitvector.get empty_bitvector k ≡ false = empty_has in
    elim (Bool-cases (is_unknown p.offset)) [
      | inl u ↦
          rw (none unknown, u)
            (record {
              nodes_valid = (node 0).0;
              offsets_valid = (off 0).0;
              nodes = λ j. ground (arith, node j, none j);
              offsets = λ i. ground (arith, off i, none i);
            })
      | inr u ↦
          rw (none unknown, u)
            (record {
              nodes_valid = (node 0).0;
              offsets_valid = (off 0).0;
              nodes = λ j. ground (arith, node j, none j);
              offsets = λ i. ground (arith, off i, none i);
            })
    ]

add-HasBoth :
    (p q : Pointer) (s : PointsToSet)
    → p.offset ≡ q.offset
    → HasBoth p p s
    → HasBoth p q (add q s).0
unfolding add
add-HasBoth p q s same h =
    let node = λ (j : ℕ). VectorLaws.get-set s.nodes q.target j h.nodes_valid in
    let off = λ (i : ℕ). VectorLaws.get-set s.offsets q.offset i h.offsets_valid in
    elim (Bool-cases (Bitvector.get s.offsets unknown)) [
      | inl e ↦ rw e (record {
        nodes_valid = (node 0).0;
        offsets_valid = h.offsets_valid;
        nodes = λ j. ground (arith, node j, h.nodes j);
        offsets = h.offsets;
      })
      | inr e ↦
          let known : is_unknown q.offset ≡ false = ground (arith, h.offsets unknown) in
          rw (e, known)
            (record {
              nodes_valid = (node 0).0;
              offsets_valid = (off 0).0;
              nodes = λ j. ground (arith, node j, h.nodes j);
              offsets = λ i. ground (arith, off i, h.offsets i);
            })
    ]

-- After pointers to two different nodes at the same offset were added to an empty set, `mustPointTo`
-- says of both that the set must point to them, although the set is no singleton.
pub must_point_to_both :
    (p q : Pointer)
    → p.target ≢ q.target
    → p.offset ≡ q.offset
    → (must_point_to (add q (add p empty_set).0).0 p ≡ true)
      × (must_point_to (add q (add p empty_set).0).0 q ≡ true)
      × (is_singleton (add q (add p empty_set).0).0 ≡ false)
unfolding must_point_to is_singleton points_to
must_point_to_both p q apart same =
    let h = add-HasBoth p q (add p empty_set).0 same (add-HasBoth_self p) in
    let s = (add q (add p empty_set).0).0 in
    let one = size_of_one s.offsets p.offset h.offsets_valid h.offsets in
    let two : (Bitvector.size s.nodes == 1) ≡ false =
      size_of_two s.nodes p.target q.target h.nodes_valid apart (ground (arith, h.nodes p.target))
        (ground (arith, h.nodes q.target)) in
    (
      ground (arith, one, h.nodes p.target, h.offsets p.offset),
      ground (arith, one, h.nodes q.target, h.offsets q.offset),
      ground arith,
    )
