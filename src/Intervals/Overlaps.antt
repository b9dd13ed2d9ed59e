-- ===== src/Intervals/Overlaps.antt =====
-- `overlaps` and `overlapsFull` of DisjunctiveIntervalMap.h, by the points of the intervals.
use dg.Base.{ℕ, ◌+◌, ◌≤◌, ◌<◌, ◌≡◌, true, false, ◌||◌, List, [], ◌∷◌}
use dg.Base.{leb, arith, ◌⊎◌, none, inl, inr}
use dg.Intervals.{
  before, Interval, Entry, lower_bound, unsnoc, overlaps, overlaps_full, full_loop, overlaps_at,
  full_at, interval_overlaps,
}
use dg.Offset.{sub}
use dg.Intervals.Disjoint.{
  before_least, behind_most, IsDisjoint, lower_bound_from, Before, lower_bound_view,
}
use dg.Intervals.Query.{covers, covers_earlier, covers_first}

abbrev Found : Interval → List Entry → List Entry → Type 0
Found i below from = (unsnoc below ≡ none) × (below ≡ []) ⊎ Before i.start 0 below from

-- A point of the interval that the map has.
abbrev pub Meets : Interval → List Entry → Type 0
Meets i m = (x : ℕ) × (i.start ≤ x) × (x ≤ i.end) × (covers m x ≡ true)

full_loop-covers :
    (stop last : ℕ) (m : List Entry) (x : ℕ)
    → full_loop stop last m ≡ true
    → last < x
    → x ≤ stop
    → covers m x ≡ true
unfolding full_loop
full_loop-covers stop last [] x f h k = absurd (ground arith)
full_loop-covers stop last (e ∷ m) x f h k =
    ground (arith, behind_most last, full_loop-covers stop e.end m x)

module _ (i : Interval) (m : List Entry) (v : i.start ≤ i.end) (d : IsDisjoint 0 m) where
  -- The points from the start of the interval on, by the place that `lower_bound` found.
  abbrev Points : List Entry → List Entry → Type 0
  Points below from =
      ((b : Before i.start 0 below from) (x : ℕ)
        → i.start ≤ x
        → covers m x ≡ (leb x b.prev.end || covers from x))
      × (below ≡ [] → (x : ℕ) → covers m x ≡ covers from x)

  points : Points (lower_bound i.start m).0 (lower_bound i.start m).1
  points =
      (λ b x h. covers_earlier i.start m d b x h, λ nothing x. covers_first i.start m d nothing x)

  overlaps_at-Meets :
      (below from : List Entry)
      → Found i below from
      → Points below from
      → IsDisjoint i.start from
      → overlaps_at i below from ≡ true
      → Meets i m
  unfolding overlaps_at
  overlaps_at-Meets below [] (inl (no_entry, nothing)) p f t = absurd (ground (arith, no_entry))
  overlaps_at-Meets below (ge ∷ rest) (inl (no_entry, nothing)) p f t =
      (ge.start, f.0, ground arith, ground (arith, p.1 nothing ge.start))
  overlaps_at-Meets below [] (inr b) p f t =
      (i.start, omega arith, v, ground (arith, b.unsnoc_eq, p.0 b i.start))
  overlaps_at-Meets below (ge ∷ rest) (inr b) p f t =
      (ge.start, f.0, ground arith, ground (arith, p.0 b ge.start))

  -- Where `overlaps` says so of an interval whose start is not after its end and of a map of
  -- disjoint intervals, the map does have a point of the interval.
  pub overlaps-Meets : overlaps i m ≡ true → Meets i m
  unfolding overlaps
  overlaps-Meets t =
      overlaps_at-Meets (lower_bound i.start m).0 (lower_bound i.start m).1
        (lower_bound_view i.start 0 m d) points (lower_bound_from i.start 0 m d) t

  full_at-covers :
      (below from : List Entry)
      → Found i below from
      → Points below from
      → IsDisjoint i.start from
      → full_at i below from ≡ true
      → (x : ℕ) → i.start ≤ x
      → x ≤ i.end
      → covers m x ≡ true
  unfolding full_at
  full_at-covers below [] (inl (no_entry, nothing)) p f t x h k = absurd (ground (arith, no_entry))
  full_at-covers below (ge ∷ rest) (inl (no_entry, nothing)) p f t x h k =
      ground (arith, no_entry, p.1 nothing x, full_loop-covers i.end ge.end rest x)
  full_at-covers below [] (inr b) p f t x h k = ground (arith, b.unsnoc_eq, p.0 b x h)
  full_at-covers below (ge ∷ rest) (inr b) p f t x h k =
      ground
        (arith, before_least ge.start, b.unsnoc_eq, p.0 b x h, full_loop-covers i.end ge.end rest x)

  -- Where `overlapsFull` says so of an interval whose start is not after its end and of a map of
  -- disjoint intervals, the map has every point of the interval.
  pub overlaps_full-covers :
      overlaps_full i m ≡ true → (x : ℕ) → i.start ≤ x → x ≤ i.end → covers m x ≡ true
  unfolding overlaps_full
  overlaps_full-covers t =
      full_at-covers (lower_bound i.start m).0 (lower_bound i.start m).1
        (lower_bound_view i.start 0 m d) points (lower_bound_from i.start 0 m d) t

-- Where an interval begins behind the start of the first interval of the map and not after its
-- end, and ends before the second one, `overlaps` answers no, although the map has the start of
-- the interval.
pub overlaps_misses :
    (i : Interval) (prev next : Entry) (m : List Entry)
    → prev.start < i.start
    → i.start ≤ prev.end
    → i.start ≤ i.end
    → i.end < next.start
    → (overlaps i (prev ∷ next ∷ m) ≡ false) × (covers (prev ∷ next ∷ m) i.start ≡ true)
unfolding overlaps lower_bound overlaps_at
overlaps_misses i prev next m h k v far = (ground arith, ground arith)

-- Where an interval begins behind the start of the first interval of the map and ends within it,
-- and a gap follows before the second one, `overlapsFull` answers no, although the map has every
-- point of the interval.
pub overlaps_full_misses :
    (i : Interval) (prev next : Entry) (m : List Entry)
    → prev.start < i.start
    → i.start ≤ i.end
    → i.end ≤ prev.end
    → prev.end + 1 < next.start
    → (overlaps_full i (prev ∷ next ∷ m) ≡ false)
      × ((x : ℕ) → i.start ≤ x → x ≤ i.end → covers (prev ∷ next ∷ m) x ≡ true)
unfolding overlaps_full lower_bound full_at unsnoc before sub
overlaps_full_misses i prev next m h v k gap = (ground arith, λ x p q. ground arith)

-- `Interval::overlaps`, asked of a second interval whose start is not after its end, compares the
-- start of the first with the end of the second alone: it says yes to every later interval.
pub interval_overlaps_lem :
    (a b : Interval) → b.start ≤ b.end → interval_overlaps a b ≡ leb a.start b.end
unfolding interval_overlaps
interval_overlaps_lem a b h = ground arith
