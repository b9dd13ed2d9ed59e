-- ===== src/PointsTo/Ids.antt =====
-- SingleBitvectorPointsToSet.h: `getPointerID` over the static tables `ids`, a map from pointers to
-- their numbers, and `idVector`, with the pointer of the number `n` at the index `n - 1`.
use dg.Base.{
  ℕ, zero, suc, ◌+◌, ◌-◌, ◌≤◌, ◌≡◌, refl, ap, ap₂, ◌∙◌, sym, true, Option, none, some, List, [],
  ◌∷◌, ◌++◌, All, All-map, length, length-append, arith, Bool-cases, Option-cases, inl, inr,
  if◌then◌else◌,
}
use dg.PointsTo.{Pointer, pointer_eq}

pub record Tables : Type 0 where
  pub ids : List (Pointer × ℕ)
  pub id_vector : List Pointer

-- `ids.find`
abbrev pub find_id : Pointer → List (Pointer × ℕ) → Option ℕ
find_id p [] = none
find_id p ((q, n) ∷ ids) = if pointer_eq q p then some n else find_id p ids

-- `idVector[i]`
abbrev pub item_at : List Pointer → ℕ → Option Pointer
item_at [] i = none
item_at (p ∷ ps) zero = some p
item_at (p ∷ ps) (suc i) = item_at ps i

-- `getPointerID`: the number, and the tables.
unfoldable pub get_pointer_id : Pointer → Tables → ℕ × Tables
get_pointer_id p t = elim (find_id p t.ids) [
  | some n ↦ (n, t)
  | none ↦ (
    length t.ids + 1,
    record { ids = (p, length t.ids + 1) ∷ t.ids; id_vector = t.id_vector ++ p ∷ [] },
  )
]

-- Every number of the map leads back to its pointer.
pub record IsNumbered (t : Tables) : Type 0 where
  pub same_length : length t.ids ≡ length t.id_vector
  pub leads_back : All (λ e. (1 ≤ e.1) × (item_at t.id_vector (e.1 - 1) ≡ some e.0)) t.ids

item_at-append :
    (ps qs : List Pointer) (i : ℕ) (p : Pointer)
    → item_at ps i ≡ some p
    → item_at (ps ++ qs) i ≡ some p
item_at-append [] qs i p h = cc
item_at-append (x ∷ ps) qs zero p h = h
item_at-append (x ∷ ps) qs (suc i) p h = item_at-append ps qs i p h

item_at_end : (ps : List Pointer) (p : Pointer) → item_at (ps ++ p ∷ []) (length ps) ≡ some p
item_at_end [] p = refl
item_at_end (x ∷ ps) p = item_at_end ps p

pointer_eq_lem : (p q : Pointer) → pointer_eq p q ≡ true → p ≡ q
pointer_eq_lem p q h =
    let t : p.target ≡ q.target = ground arith in
    let o : p.offset ≡ q.offset = ground arith in ap₂ (λ x y. record { target = x; offset = y }) t o

find_id_lem :
    (p : Pointer) (n : ℕ) (ids : List (Pointer × ℕ)) (id_vector : List Pointer)
    → All (λ e. (1 ≤ e.1) × (item_at id_vector (e.1 - 1) ≡ some e.0)) ids
    → find_id p ids ≡ some n
    → item_at id_vector (n - 1) ≡ some p
find_id_lem p n [] v all h = cc
find_id_lem p n ((q, m) ∷ ids) v ((pos, back), all) h = elim (Bool-cases (pointer_eq q p)) [
  | inl e ↦
      let same : q ≡ p = pointer_eq_lem q p e in
      let num : m ≡ n = ground (arith, h, e) in
      ap (λ i. item_at v (i - 1)) (sym num) ∙ back ∙ ap some same
  | inr e ↦ find_id_lem p n ids v all (ground (arith, h, e))
]

found_id :
    (p : Pointer) (n : ℕ) (t : Tables) → find_id p t.ids ≡ some n → get_pointer_id p t ≡ (n, t)
unfolding get_pointer_id
found_id p n t e = rw (e, get_pointer_id) refl

-- The tables with a new number.
abbrev extended : Pointer → Tables → Tables
extended p t = record { ids = (p, length t.ids + 1) ∷ t.ids; id_vector = t.id_vector ++ p ∷ [] }

new_id :
    (p : Pointer) (t : Tables)
    → find_id p t.ids ≡ none
    → get_pointer_id p t ≡ (length t.ids + 1, extended p t)
unfolding get_pointer_id
new_id p t e = rw (e, get_pointer_id) refl

extended_end :
    (p : Pointer) (t : Tables)
    → IsNumbered t
    → item_at (extended p t).id_vector (length t.ids + 1 - 1) ≡ some p
extended_end p t inv =
    let last : length t.ids + 1 - 1 ≡ length t.id_vector = omega (arith, inv.same_length) in
    ap (item_at (extended p t).id_vector) last ∙ item_at_end t.id_vector p

extended-IsNumbered : (p : Pointer) (t : Tables) → IsNumbered t → IsNumbered (extended p t)
extended-IsNumbered p t inv = record {
  same_length = omega (arith, inv.same_length, length-append t.id_vector (p ∷ []));
  leads_back = (
    (omega arith, extended_end p t inv),
    All-map _ _ t.ids
        (λ (x, n) (pos, back). (pos, item_at-append t.id_vector (p ∷ []) (n - 1) x back))
        inv.leads_back,
  );
}

-- What a request for a number gives.
abbrev IsGiven : Pointer → Pointer → ℕ → ℕ × Tables → Type 0
IsGiven p q m (n, t) =
    IsNumbered t
    × (find_id p t.ids ≡ some n)
    × (item_at t.id_vector (n - 1) ≡ some p)
    × (find_id q t.ids ≡ some m)

-- Where every number of the tables leads back to its pointer, a number that is asked for is in the
-- tables afterwards and leads back to its pointer, a number that was given before stays, and every
-- number still leads back to its pointer.
pub get_pointer_id_lem :
    (p q : Pointer) (m : ℕ) (t : Tables)
    → IsNumbered t
    → find_id q t.ids ≡ some m
    → IsGiven p q m (get_pointer_id p t)
get_pointer_id_lem p q m t inv known = elim (Option-cases (find_id p t.ids)) [
  | inr (n, e) ↦
      rw (found_id p n t e) (inv, e, find_id_lem p n t.ids t.id_vector inv.leads_back e, known)
  | inl e ↦ rw (new_id p t e) (
    extended-IsNumbered p t inv,
    ground arith,
    extended_end p t inv,
    elim (Bool-cases (pointer_eq p q)) [
      | inl f ↦
          let same : p ≡ q = pointer_eq_lem p q f in
          let gone : find_id q t.ids ≡ none = ap (λ x. find_id x t.ids) (sym same) ∙ e in
          ground (arith, known, gone)
      | inr f ↦ ground (arith, known, f)
    ],
  )
]
