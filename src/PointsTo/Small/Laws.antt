-- ===== src/PointsTo/Small/Laws.antt =====
-- SmallOffsetsPointsToSet.h: positions of pointers, and the pointers after `add` and `removeAny`.
use dg.Base.{
  ℕ, zero, suc, ◌+◌, ◌≡◌, refl, ap₂, true, false, not, ◌&&◌, ◌||◌, ◌==◌, ◌<◌, arith, Bool,
  Bool-cases, inl, inr, leb, ltb, List, [], ◌∷◌, if◌then◌else◌,
}
use dg.Offset.{unknown, is_unknown}
use dg.Adt.Bitvector
use dg.Adt.Bitvector.{Bitvector, empty_bitvector}
use dg.Adt.Bitvector.Laws as VectorLaws
use dg.PointsTo.{Pointer, pointer_eq, has_pointer}
use dg.PointsTo.Pointers.{has_pointer-insert_pointer}
use dg.PointsTo.Small.{
  PointsToSet, add, remove_any, points_to, position, node_position, is_offset_valid, pointer_at,
  unset_loop, erase_loop,
}

-- The iterator gives back the pointer that a position was computed from, for a node numbered from
-- 1 and an offset that the bitvector can hold.
pub pointer_at-position :
    (p : Pointer) → 0 < p.target → is_offset_valid p.offset ≡ true → pointer_at (position p) ≡ p
unfolding pointer_at position is_offset_valid
pointer_at-position p h v =
    let same_target : (pointer_at (position p)).target ≡ p.target = ground arith in
    let same_offset : (pointer_at (position p)).offset ≡ p.offset = ground arith in
    ap₂ (λ t o. record { target = t; offset = o }) same_target same_offset

position_eq :
    (p q : Pointer)
    → 0 < p.target
    → 0 < q.target
    → is_offset_valid p.offset ≡ true
    → is_offset_valid q.offset ≡ true
    → (position p == position q) ≡ pointer_eq p q
unfolding position is_offset_valid
position_eq p q h k v w = ground arith

position_block :
    (t : ℕ) (q : Pointer)
    → 0 < t
    → 0 < q.target
    → is_offset_valid q.offset ≡ true
    → (leb (node_position t) (position q) && ltb (position q) (node_position t + 64))
      ≡ (q.target == t)
unfolding position is_offset_valid
position_block t q h k v = ground arith

get-unset_loop :
    (n i : ℕ) (v : Bitvector) (changed : Bool) (j : ℕ)
    → Bitvector.IsValid v
    → Bitvector.IsValid (unset_loop n i v changed).0
      × (Bitvector.get (unset_loop n i v changed).0 j
          ≡ (Bitvector.get v j && not (leb i j && ltb j (i + n))))
unfolding unset_loop
get-unset_loop zero i v changed j h = (h, ground arith)
get-unset_loop (suc n) i v changed j h =
    let (h', g) = VectorLaws.get-unset v i j h in
    let (h'', r) =
      get-unset_loop n (i + 1) (Bitvector.unset v i).0 (changed || (Bitvector.unset v i).1) j h' in
    (h'', ground (arith, g, r))

has_pointer-erase_loop :
    (t : ℕ) (q : Pointer) (qs : List Pointer) (changed : Bool)
    → has_pointer q (erase_loop t qs changed).0 ≡ (has_pointer q qs && not (q.target == t))
unfolding erase_loop
has_pointer-erase_loop t q [] changed = refl
has_pointer-erase_loop t q (x ∷ qs) changed =
    ground (arith, has_pointer-erase_loop t q qs true, has_pointer-erase_loop t q qs changed)

-- With a well-formed bitvector and nodes numbered from 1, `removeAny` keeps the bitvector well
-- formed and takes away the pointers to the target, whatever their offsets, and no others.
pub points_to-remove_any :
    (t : ℕ) (s : PointsToSet) (q : Pointer)
    → 0 < t
    → 0 < q.target
    → Bitvector.IsValid s.pointers
    → Bitvector.IsValid (remove_any t s).0.pointers
      × (points_to (remove_any t s).0 q ≡ (points_to s q && not (q.target == t)))
unfolding remove_any points_to
points_to-remove_any t s q h k v =
    let (v', g) = get-unset_loop 64 (node_position t) s.pointers false (position q) v in
    let changed = (unset_loop 64 (node_position t) s.pointers false).1 in
    (
      v',
      elim (Bool-cases (is_offset_valid q.offset)) [
        | inl w ↦ ground (arith, g, position_block t q h k w)
        | inr w ↦ ground (arith, has_pointer-erase_loop t q s.large_pointers changed)
      ],
    )

-- With a well-formed bitvector and nodes numbered from 1, what a set points to after an addition:
-- where the unknown offset of the target was there before, what it pointed to; for an unknown
-- offset, that pointer alone of those to the target; else one more.
pub points_to-add :
    (p : Pointer) (s : PointsToSet) (q : Pointer)
    → 0 < p.target
    → 0 < q.target
    → Bitvector.IsValid s.pointers
    → points_to (add p s).0 q ≡ (
        if points_to s (record p { offset = unknown })
        then points_to s q
        else if is_unknown p.offset
        then pointer_eq p q || points_to s q && not (q.target == p.target)
        else pointer_eq p q || points_to s q)
unfolding add points_to
points_to-add p s q h k v = elim (Bool-cases (points_to s (record p { offset = unknown }))) [
  | inl t ↦ ground (arith, t)
  | inr t ↦ elim (Bool-cases (is_unknown p.offset)) [
    | inl u ↦
        let s' = (remove_any p.target s).0 in
        let (v', r) = points_to-remove_any p.target s q h k v in
        let (_, g, _) = VectorLaws.get-set s'.pointers (position p) (position q) v' in
        elim (Bool-cases (is_offset_valid q.offset)) [
          | inl w ↦ ground (arith, t, g, r, position_eq p q)
          | inr w ↦ ground (arith, t, r)
        ]
    | inr u ↦
        let (_, g, _) = VectorLaws.get-set s.pointers (position p) (position q) v in
        elim (Bool-cases (is_offset_valid q.offset)) [
          | inl w ↦ ground (arith, t, g, position_eq p q)
          | inr w ↦ ground (arith, t, has_pointer-insert_pointer p q s.large_pointers)
        ]
  ]
]
