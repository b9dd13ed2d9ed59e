-- ===== src/Intervals/Query.antt =====
-- The points of a map of intervals, and `le` of DisjunctiveIntervalMap.h.
use dg.Base.{ℕ, suc, ◌≤◌, ◌<◌, ◌≡◌, refl, Bool, false, ◌&&◌, ◌||◌, List, [], ◌∷◌, ◌++◌}
use dg.Base.{ltb, leb, if◌then◌else◌, arith, ◌⊎◌, none, ap, inl, inr}
use dg.Base.{Bool-cases, subst, sym, ◌∙◌}
use mathlib.Core.List.{append-nil}
use dg.Intervals.{
  Interval, Entry, lower_bound, unsnoc, Place, fault, at_end, at_entry, le, shift_le,
}
use dg.Intervals.Disjoint.{
  IsDisjoint, Between, Between-le, lower_bound_append, lower_bound_from, Before, lower_bound_view,
}

-- Some interval of the map has the point `x`.
abbrev pub covers : List Entry → ℕ → Bool
covers [] x = false
covers (e ∷ m) x = leb e.start x && leb x e.end || covers m x

pub covers-append :
    (xs ys : List Entry) (x : ℕ) → covers (xs ++ ys) x ≡ (covers xs x || covers ys x)
covers-append [] ys x = refl
covers-append (e ∷ xs) ys x = ground (arith, covers-append xs ys x)

pub covers_below : (lo : ℕ) (m : List Entry) (x : ℕ) → IsDisjoint lo m → x < lo → covers m x ≡ false
covers_below lo [] x d h = refl
covers_below lo (e ∷ m) x d h = ground (arith, covers_below (suc e.end) m x)

covers_above : (lo hi : ℕ) (m : List Entry) (x : ℕ) → Between lo hi m → hi ≤ x → covers m x ≡ false
covers_above lo hi [] x b h = refl
covers_above lo hi (e ∷ m) x b h =
    ground (arith, covers_above (suc e.end) hi m x, Between-le (suc e.end) hi m b.2)

module _ (s : ℕ) (m : List Entry) (d : IsDisjoint 0 m) where
  -- From `s` on, only the entry before the place and those from it on have points.
  pub covers_earlier :
      (b : Before s 0 (lower_bound s m).0 (lower_bound s m).1) (x : ℕ)
      → s ≤ x
      → covers m x ≡ (leb x b.prev.end || covers (lower_bound s m).1 x)
  covers_earlier b x h =
      let whole = ap (λ l. covers l x) (lower_bound_append s m) in
      let split = ap (λ l. covers l x) b.append_eq in
      ground (
        arith,
        whole,
        covers-append (lower_bound s m).0 (lower_bound s m).1 x,
        split,
        covers-append b.init (b.prev ∷ []) x,
        covers_above 0 b.prev.start b.init x b.init_between,
        b.earlier,
      )

  pub covers_first : (lower_bound s m).0 ≡ [] → (x : ℕ) → covers m x ≡ covers (lower_bound s m).1 x
  covers_first nothing x =
      let whole = ap (λ l. covers l x) (lower_bound_append s m) in
      let split = ap (λ l. covers l x) nothing in
      ground (arith, whole, covers-append (lower_bound s m).0 (lower_bound s m).1 x, split)

-- The map has the entry.
abbrev pub IsEntryOf : Entry → List Entry → Type 0
IsEntryOf e [] = ⊥
IsEntryOf e (x ∷ m) = (e ≡ x) ⊎ IsEntryOf e m

IsEntryOf-here : (e : Entry) (xs ys : List Entry) → IsEntryOf e (xs ++ e ∷ ys)
IsEntryOf-here e [] ys = inl refl
IsEntryOf-here e (x ∷ xs) ys = inr (IsEntryOf-here e xs ys)

IsEntryOf-append : (e : Entry) (xs ys : List Entry) → IsEntryOf e xs → IsEntryOf e (xs ++ ys)
IsEntryOf-append e [] ys h = absurd h
IsEntryOf-append e (x ∷ xs) ys (inl h) = inl h
IsEntryOf-append e (x ∷ xs) ys (inr h) = inr (IsEntryOf-append e xs ys h)

-- What the result of `le` says of the points of the interval.
abbrev pub IsFirst : Interval → List Entry → Place → Type 0
IsFirst i m fault = m ≡ []
IsFirst i m at_end = (x : ℕ) → i.start ≤ x → x ≤ i.end → covers m x ≡ false
IsFirst i m (at_entry e) =
    IsEntryOf e m
    × (e.start ≤ i.end)
    × (i.start ≤ e.end)
    × ((x : ℕ) → i.start ≤ x → x < e.start → covers m x ≡ false)

module _ (i : Interval) (m : List Entry) (v : i.start ≤ i.end) (d : IsDisjoint 0 m) where
  abbrev Found : List Entry → List Entry → Type 0
  Found below from = (unsnoc below ≡ none) × (below ≡ []) ⊎ Before i.start 0 below from

  here-IsFirst :
      (ge : Entry) (rest : List Entry)
      → IsDisjoint i.start (ge ∷ rest)
      → ((x : ℕ) → i.start ≤ x → covers m x ≡ covers (ge ∷ rest) x)
      → IsEntryOf ge m
      → IsFirst i m (if ltb i.end ge.start then at_end else at_entry ge)
  here-IsFirst ge rest d same there = elim (Bool-cases (ltb i.end ge.start)) [
    | inl far ↦ rw far (λ x h k.
        ground (arith, same x h, covers_below ge.start (ge ∷ rest) x (omega arith, d.1, d.2)))
    | inr near ↦ rw near (
      there,
      ground arith,
      omega arith,
      λ x h k.
          ground (arith, same x h, covers_below ge.start (ge ∷ rest) x (omega arith, d.1, d.2)),
    )
  ]

  from_there :
      (below : List Entry) (ge : Entry) (rest : List Entry)
      → below ++ ge ∷ rest ≡ m
      → IsEntryOf ge m
  from_there below ge rest whole = subst (IsEntryOf ge) whole (IsEntryOf-here ge below rest)

  Before-there :
      (below from : List Entry) (b : Before i.start 0 below from)
      → below ++ from ≡ m
      → IsEntryOf b.prev m
  Before-there below from b whole = subst (IsEntryOf b.prev) whole (
      IsEntryOf-append b.prev below from
        (subst (IsEntryOf b.prev) (sym b.append_eq) (IsEntryOf-here b.prev b.init [])))

  shift_le-IsFirst :
      (below from : List Entry)
      → below ++ from ≡ m
      → IsDisjoint i.start from
      → (view : Found below from)
      → ((b : Before i.start 0 below from) (x : ℕ)
          → i.start ≤ x
          → covers m x ≡ (leb x b.prev.end || covers from x))
      → (below ≡ [] → (x : ℕ) → covers m x ≡ covers from x)
      → IsFirst i m (shift_le i below from)
  shift_le-IsFirst below [] whole f (inl (no_entry, nothing)) between first =
      unfold shift_le in rw (no_entry, shift_le) (sym whole ∙ append-nil below ∙ nothing)
  shift_le-IsFirst below (ge ∷ rest) whole f (inl (no_entry, nothing)) between first =
      unfold shift_le in
      rw (no_entry, shift_le)
        (here-IsFirst ge rest f (λ x h. first nothing x) (from_there below ge rest whole))
  shift_le-IsFirst below [] whole f (inr b) between first =
      elim (Bool-cases (leb i.start b.prev.end)) [
        | inl near ↦
            unfold shift_le in
            rw (b.unsnoc_eq, near, shift_le)
              (
                Before-there below _ b whole,
                omega (arith, b.earlier),
                ground arith,
                λ x h k. absurd (omega (arith, b.earlier)),
              )
        | inr far ↦
            unfold shift_le in
            rw (b.unsnoc_eq, far, shift_le) (λ x h k. ground (arith, between b x h))
      ]
  shift_le-IsFirst below (ge ∷ rest) whole f (inr b) between first =
      elim (Bool-cases (leb i.start b.prev.end)) [
        | inl near ↦
            unfold shift_le in
            rw (b.unsnoc_eq, near, shift_le)
              (
                Before-there below _ b whole,
                omega (arith, b.earlier),
                ground arith,
                λ x h k. absurd (omega (arith, b.earlier)),
              )
        | inr far ↦
            unfold shift_le in
            rw (b.unsnoc_eq, far, shift_le)
              (here-IsFirst ge rest f (λ x h. ground (arith, between b x h))
                (from_there below ge rest whole))
      ]

  -- For an interval whose start is not after its end and a map of disjoint intervals, `le` finds
  -- the first interval of the map that has a point in common with the given one, or says that
  -- there is none; it faults only where the map is empty.
  pub le-IsFirst : IsFirst i m (le i m)
  unfolding le
  le-IsFirst =
      shift_le-IsFirst (lower_bound i.start m).0 (lower_bound i.start m).1
        (lower_bound_append i.start m) (lower_bound_from i.start 0 m d)
        (lower_bound_view i.start 0 m d) (λ b x h. covers_earlier i.start m d b x h)
        (λ nothing x. covers_first i.start m d nothing x)
