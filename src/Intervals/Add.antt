-- ===== src/Intervals/Add.antt =====
-- `_add` of DisjunctiveIntervalMap.h, by the points of the intervals.
use dg.Base.{
  ℕ, suc, ◌+◌, ◌-◌, ◌≤◌, ◌<◌, ◌≡◌, refl, Bool, true, false, not, ◌&&◌, ◌||◌, List, [], ◌∷◌, ◌++◌,
}
use dg.Base.{leb, ◌==◌, if◌then◌else◌, has_elem, All, arith, ◌⊎◌, ap, inl, inr, length}
use dg.Base.{Bool-cases, ◌∙◌, ltb→lt}
use dg.Base.Sets.{has_elem-insert}
use dg.Offset.{unknown}
use dg.Intervals.{
  before, behind, Interval, Entry, lower_bound, add_value, past, after_entry, fill_gap, add_loop,
  add_cut, add_interval, split_ext_borders,
}
use dg.Intervals.Disjoint.{
  before_known, behind_known, holds, IsDisjoint, Between, IsDisjoint-append, IsDisjoint-le,
  holds_below, holds-append, lower_bound_append, lower_bound_from, lower_bound_below, IsCut,
}
use dg.Intervals.Cut.{split_ext_borders-IsSplit}

-- A value is there after it was added or, on an update, in the place of all others.
abbrev pub joined : Bool → ℕ → ℕ → Bool → Bool
joined update val w old = val == w || not update && old

singleton_has_elem :
    (val w : ℕ) (xs : List ℕ)
    → (length xs == 1 && has_elem val xs) ≡ true
    → has_elem w xs ≡ (val == w)
singleton_has_elem val w [] h = cc
singleton_has_elem val w (x ∷ []) h = ground arith
singleton_has_elem val w (x ∷ y ∷ xs) h = absurd (ground arith)

-- The interval stays as it is, the values get the new one.
pub record IsGiven (update : Bool) (val : ℕ) (e e' : Entry) (changed : Bool) : Type 0 where
  pub start_eq : e'.start ≡ e.start
  pub end_eq : e'.end ≡ e.end
  pub given : (w : ℕ) → has_elem w e'.values ≡ joined update val w (has_elem w e.values)
  pub unchanged : changed ≡ false → e' ≡ e

add_value-IsGiven :
    (update : Bool) (val : ℕ) (e : Entry)
    → IsGiven update val e (add_value update val e).0 (add_value update val e).1
unfolding add_value
add_value-IsGiven false val e = record {
  start_eq = refl;
  end_eq = refl;
  given = λ w. has_elem-insert val w e.values;
  unchanged = ground arith;
}
add_value-IsGiven true val e = record {
  start_eq = ground arith;
  end_eq = ground arith;
  given = λ w. ground (arith, singleton_has_elem val w e.values);
  unchanged = ground arith;
}

-- The points of [start, stop] get the value, and no other changes.
pub record IsAdded (update : Bool) (val start stop lo : ℕ) (m out : List Entry) (changed : Bool)
    : Type 0 where
  pub disjoint : IsDisjoint lo out
  pub added :
      (x w : ℕ)
      → holds out x w
        ≡ (if leb start x && leb x stop then joined update val w (holds m x w) else holds m x w)
  pub unchanged : changed ≡ false → out ≡ m

abbrev EndsBy : ℕ → Entry → Type 0
EndsBy stop e = (e.end ≤ stop) ⊎ (stop < e.start)

past-IsDisjoint :
    (stop lo : ℕ) (m : List Entry) → IsDisjoint lo m → past stop m ≡ true → IsDisjoint (suc stop) m
unfolding past
past-IsDisjoint stop lo [] d p = tt
past-IsDisjoint stop lo (e ∷ m) d p = (ltb→lt stop e.start p, d.1, d.2)

module _ (update : Bool) (val : ℕ) where
  after_entry-IsAdded :
      (stop at : ℕ) (added : Bool) (m : List Entry) (rest : List Entry × Bool)
      → at ≤ stop
      → stop < unknown
      → IsDisjoint (suc at) m
      → (at < stop
          → past stop m ≡ false
          → IsAdded update val (at + 1) stop (at + 1) m rest.0 rest.1)
      → IsAdded update val
          (at + 1)
          stop
          (suc at)
          m
          (after_entry val stop at added m rest).0
          (after_entry val stop at added m rest).1
        × ((after_entry val stop at added m rest).1 ≡ false → added ≡ false)
  unfolding after_entry
  after_entry-IsAdded stop at added m rest h known d ih = elim (Bool-cases (at == stop)) [
    | inl done ↦
        rw (done, after_entry)
          (record { disjoint = d; added = λ x w. ground arith; unchanged = λ f. refl }, λ f. f)
    | inr go ↦ elim (Bool-cases (past stop m)) [
      | inl fill ↦
          let later = past-IsDisjoint stop (suc at) m d fill in
          let next = behind_known at (ground arith) in
          rw (go, fill, after_entry)
            (
              record {
                disjoint = ground (arith, next, later);
                added = λ x w. ground (arith, next, holds_below (suc stop) m x w later);
                unchanged = λ f. cc;
              },
              λ f. cc,
            )
      | inr more ↦
          let r = ih (ground arith) more in
          rw (go, more, after_entry)
            (
              record {
                disjoint = IsDisjoint-le (suc at) (at + 1) rest.0 (omega arith) r.disjoint;
                added = λ x w. r.added x w;
                unchanged = λ f. r.unchanged (ground arith);
              },
              λ f. ground arith,
            )
    ]
  ]

  fill_gap-IsAdded :
      (start stop : ℕ) (e e' : Entry) (m tail : List Entry) (added changed : Bool)
      → IsGiven update val e e' added
      → IsDisjoint start (e ∷ m)
      → e.end ≤ stop
      → stop < unknown
      → IsAdded update val (e.end + 1) stop (suc e.end) m tail changed
      → (changed ≡ false → added ≡ false)
      → IsAdded update val start stop start
          (e ∷ m)
          (fill_gap val start e.start (e' ∷ tail, changed)).0
          (fill_gap val start e.start (e' ∷ tail, changed)).1
  unfolding fill_gap
  fill_gap-IsAdded start stop e e' m tail added changed g d h known t f =
      let last : start < e.start → before e.start ≡ e.start - 1 =
        λ k. before_known e.start (omega arith) (omega arith) in
      record {
        disjoint = ground (arith, last, g.start_eq, g.end_eq, t.disjoint);
        added = λ x w. ground (
          arith,
          last,
          g.start_eq,
          g.end_eq,
          g.given w,
          t.added x w,
          holds_below (suc e.end) m x w,
        );
        unchanged = ground (arith, g.unchanged, t.unchanged);
      }

  add_loop-IsAdded :
      (start stop : ℕ) (m : List Entry)
      → start ≤ stop
      → stop < unknown
      → IsDisjoint start m
      → All (EndsBy stop) m
      → past stop m ≡ false
      → IsAdded update val start stop start m
          (add_loop update val start stop m).0
          (add_loop update val start stop m).1
  unfolding add_loop past
  add_loop-IsAdded start stop [] h known d c p = cc
  add_loop-IsAdded start stop (e ∷ m) h known d c p =
      let value = add_value update val e in
      let rest = add_loop update val (behind e.end) stop m in
      let fits : e.end ≤ stop = ground arith in
      let (t, f) = after_entry-IsAdded stop e.end value.1 m rest fits known d.2 (λ lt q.
        rw (behind_known e.end (omega arith)) (
          add_loop-IsAdded (e.end + 1) stop m (omega arith) known
            (IsDisjoint-le (e.end + 1) (suc e.end) m (omega arith) d.2) c.1 q)) in
      fill_gap-IsAdded start stop e value.0 m (after_entry val stop e.end value.1 m rest).0 value.1
        (after_entry val stop e.end value.1 m rest).1 (add_value-IsGiven update val e) d fits known
        t f

  -- What lies before the interval stays, behind it comes what the loop made of the rest.
  after_below :
      (i : Interval) (below from out : List Entry) (changed : Bool)
      → i.start ≤ i.end
      → Between 0 i.start below
      → IsDisjoint i.start from
      → IsAdded update val i.start i.end i.start from out changed
      → IsAdded update val i.start i.end 0 (below ++ from) (below ++ out) changed
  after_below i below from out changed h b d a = record {
    disjoint = IsDisjoint-append 0 i.start below out b a.disjoint;
    added = λ x w. ground (
      arith,
      holds-append 0 i.start below from x w b d,
      holds-append 0 i.start below out x w b a.disjoint,
      a.added x w,
    );
    unchanged = λ f. ap (λ l. below ++ l) (a.unchanged f);
  }

  new_entry-IsAdded :
      (i : Interval) (from : List Entry)
      → i.start ≤ i.end
      → IsDisjoint i.start from
      → past i.end from ≡ true
      → IsAdded update val i.start i.end i.start from
          (record { start = i.start; end = i.end; values = val ∷ [] } ∷ from)
          true
  new_entry-IsAdded i from h d p =
      let later = past-IsDisjoint i.end i.start from d p in
      record {
        disjoint = ground (arith, later);
        added = λ x w. ground (arith, holds_below (suc i.end) from x w later);
        unchanged = λ f. cc;
      }

  All-EndsBy : (i : Interval) (m : List Entry) → All (IsCut i) m → All (EndsBy i.end) m
  All-EndsBy i [] c = tt
  All-EndsBy i (e ∷ m) c = (c.0.1, All-EndsBy i m c.1)

  flagged :
      {start stop lo : ℕ} (m out : List Entry) (c c' : Bool)
      → IsAdded update val start stop lo m out c
      → (c' ≡ false → c ≡ false)
      → IsAdded update val start stop lo m out c'
  flagged m out c c' a f = record {
    disjoint = a.disjoint;
    added = a.added;
    unchanged = λ g. a.unchanged (f g);
  }

  add_cut-IsAdded :
      (i : Interval) (m : List Entry) (changed : Bool)
      → i.start ≤ i.end
      → i.end < unknown
      → IsDisjoint 0 m
      → All (IsCut i) m
      → IsAdded update val i.start i.end 0 m
          (add_cut update i val m changed).0
          (add_cut update i val m changed).1
        × ((add_cut update i val m changed).1 ≡ false → changed ≡ false)
  add_cut-IsAdded i m changed h known d c =
      let (b, cut) = lower_bound_below i 0 m (omega arith) d c in
      let later = lower_bound_from i.start 0 m d in
      let whole = lower_bound_append i.start m in
      elim (Bool-cases (past i.end (lower_bound i.start m).1)) [
        | inl p ↦
            let a =
              after_below i (lower_bound i.start m).0 (lower_bound i.start m).1 _ true h b later
                (new_entry-IsAdded i (lower_bound i.start m).1 h later p) in
            unfold add_cut in rw (p, add_cut) ((rw whole at a), λ f. cc)
        | inr p ↦
            let a =
              after_below i (lower_bound i.start m).0 (lower_bound i.start m).1 _ _ h b later (
                add_loop-IsAdded i.start i.end (lower_bound i.start m).1 h known later
                  (All-EndsBy i (lower_bound i.start m).1 cut) p) in
            unfold add_cut in
            rw (p, add_cut) (flagged m _ _ _ (rw whole at a) (λ f. ground arith), λ f. ground arith)
      ]

  -- Adding a value at an interval of known offsets, whose start is not after its end, to a map of
  -- disjoint intervals, or updating it there, leaves the intervals disjoint, gives every point of the new
  -- interval the value (together with the values it had, or in their place), changes no other
  -- point, and reports no change only where the map stays as it is.
  pub add_interval-IsAdded :
      (i : Interval) (m : List Entry)
      → i.start ≤ i.end
      → i.end < unknown
      → IsDisjoint 0 m
      → IsAdded update val i.start i.end 0 m
          (add_interval update i val m).0
          (add_interval update i val m).1
  unfolding add_interval
  add_interval-IsAdded i [] h known d = record {
    disjoint = ground arith;
    added = λ x w. ground arith;
    unchanged = λ f. cc;
  }
  add_interval-IsAdded i (e ∷ m) h known d =
      let s = split_ext_borders-IsSplit i h known (e ∷ m) d in
      let cut = split_ext_borders i (e ∷ m) in
      let (a, f) = add_cut-IsAdded i cut.0 cut.1 h known s.disjoint s.cut in
      record {
        disjoint = a.disjoint;
        added = λ x w. a.added x w ∙ rw (s.same x w);
        unchanged = λ g. a.unchanged g ∙ s.unchanged (f g);
      }
