-- ===== src/Samples/Ranges.antt =====
-- Maps of disjoint intervals at concrete inputs:
-- include/dg/analysis/ReachingDefinitions/DisjunctiveIntervalMap.h.
use dg.Base.{ℕ, ◌≡◌, ◌≤◌, true, false, List, [], ◌∷◌, refl, arith}
use dg.Intervals.{Interval, Entry, add_interval, overlaps, overlaps_full, le}
use dg.Intervals.Disjoint.{IsDisjoint}
use dg.Intervals.Add as IntervalsAdd
use dg.Intervals.Add.{IsAdded}
use dg.Intervals.Query
use dg.Intervals.Query.{covers, IsFirst}
use dg.Intervals.Overlaps
use dg.Intervals.Overlaps.{Meets}

abbrev low : Entry
low = record { start = 0; end = 9; values = 1 ∷ [] }

abbrev high : Entry
high = record { start = 20; end = 29; values = 2 ∷ [] }

abbrev two_entries : List Entry
two_entries = low ∷ high ∷ []

two_entries-IsDisjoint : IsDisjoint 0 two_entries
two_entries-IsDisjoint = (omega arith, omega arith, (omega arith, omega arith, tt))

abbrev across : Interval
across = record { start = 5; end = 24 }

abbrev inner : Interval
inner = record { start = 5; end = 6 }

abbrev outer : Interval
outer = record { start = 20; end = 25 }

add_interval-IsAdded_example :
    IsAdded true 3 5 24 0 two_entries
      (add_interval true across 3 two_entries).0
      (add_interval true across 3 two_entries).1
add_interval-IsAdded_example =
    IntervalsAdd.add_interval-IsAdded true 3 across two_entries (omega arith) (omega arith)
      two_entries-IsDisjoint

le-IsFirst_example : IsFirst across two_entries (le across two_entries)
le-IsFirst_example = Query.le-IsFirst across two_entries (omega arith) two_entries-IsDisjoint

overlaps-across : overlaps across two_entries ≡ true
unfolding overlaps
overlaps-across = refl

overlaps-Meets_example : Meets across two_entries
overlaps-Meets_example =
    Overlaps.overlaps-Meets across two_entries (omega arith) two_entries-IsDisjoint overlaps-across

overlaps_full-outer : overlaps_full outer two_entries ≡ true
unfolding overlaps_full
overlaps_full-outer = refl

overlaps_full-covers_example : covers two_entries 23 ≡ true
overlaps_full-covers_example =
    Overlaps.overlaps_full-covers outer two_entries (omega arith) two_entries-IsDisjoint
      overlaps_full-outer 23 (omega arith) (omega arith)

overlaps_misses_example : (overlaps inner two_entries ≡ false) × (covers two_entries 5 ≡ true)
overlaps_misses_example =
    Overlaps.overlaps_misses inner low high [] (omega arith) (omega arith) (omega arith)
      (omega arith)

overlaps_full_misses_example :
    (overlaps_full inner two_entries ≡ false)
    × ((x : ℕ) → 5 ≤ x → x ≤ 6 → covers two_entries x ≡ true)
overlaps_full_misses_example =
    Overlaps.overlaps_full_misses inner low high [] (omega arith) (omega arith) (omega arith)
      (omega arith)
