-- ===== src/Intervals.antt =====
-- include/dg/analysis/ReachingDefinitions/DisjunctiveIntervalMap.h, with offsets, the default, for
-- the points of the intervals and natural numbers for the values. The `std::map`, whose order compares the starts only,
-- is a list in ascending order of the starts; an iterator is a place that splits it in two.
pub mod Disjoint
pub mod Cut
pub mod Add
pub mod Query
pub mod Overlaps
use dg.Base.{ℕ, ◌+◌, ◌-◌, Bool, true, false, not, ◌&&◌, ◌||◌, Option, none, some}
use dg.Base.{List, [], ◌∷◌, ◌++◌, ltb, leb, ◌==◌, if◌then◌else◌, has_elem, length}
use dg.Base.Sets.{insert}
use dg.Offset
use dg.Offset.{Offset, sub}

-- The points before and behind a point, by `operator-` and `operator+` of offsets.
unfoldable pub before : Offset → Offset
unfolding sub
before x = sub x 1

unfoldable pub behind : Offset → Offset
unfolding Offset.add
behind x = Offset.add x 1

pub record Interval : Type 0 where
  pub start : ℕ
  pub end : ℕ

-- A key of the map with its set of values.
pub record Entry : Type 0 where
  pub start : ℕ
  pub end : ℕ
  pub values : List ℕ

-- `Interval::overlaps`
unfoldable pub interval_overlaps : Interval → Interval → Bool
interval_overlaps a b = leb a.start b.start && leb b.start a.end || leb a.start b.end

-- `Interval::covers`
unfoldable pub interval_covers : Interval → Interval → Bool
interval_covers a b = leb a.start b.start && leb b.end a.end

-- The place that `lower_bound` finds: what lies before it and what lies from it on.
unfoldable pub lower_bound : ℕ → List Entry → List Entry × List Entry
lower_bound s [] = ([], [])
lower_bound s (e ∷ m) =
    if ltb e.start s
    then (let (below, from) = lower_bound s m in (e ∷ below, from))
    else ([], e ∷ m)

-- `--it` at a place: the entry before it, and what lies before that entry.
unfoldable pub unsnoc : List Entry → Option (List Entry × Entry)
unsnoc [] = none
unsnoc (e ∷ m) = elim (unsnoc m) [ none ↦ some ([], e) | some (init, last) ↦ some (e ∷ init, last) ]

-- `splitIntervalHint`: [a, at] and [at + 1, b], each with the values.
abbrev pub lower_part : Entry → ℕ → Entry
lower_part e at = record e { end = at }

abbrev pub upper_part : Entry → ℕ → Entry
upper_part e at = record e { start = behind at }

-- `splitExtBorders` where no entry starts at `i.start` or later: what becomes of the last entry.
unfoldable pub cut_last : Interval → Entry → List Entry × Bool
cut_last i e =
    if ltb i.end e.end
    then (let low = lower_part e i.end in
        let high = upper_part e i.end in
        if leb i.start low.end
        then (lower_part low (before i.start) ∷ upper_part low (before i.start) ∷ high ∷ [], true)
        else (low ∷ high ∷ [], true))
    else (if leb i.start e.end
        then (lower_part e (before i.start) ∷ upper_part e (before i.start) ∷ [], true)
        else (e ∷ [], false))

-- The loop of `splitExtBorders` over the entries that start at `i.start` or later.
unfoldable pub cut_right : Interval → List Entry → List Entry × Bool
cut_right i [] = ([], false)
cut_right i (e ∷ m) =
    let rest = cut_right i m in
    if leb e.start i.end
    then (if ltb i.end e.end
        then (lower_part e i.end ∷ upper_part e i.end ∷ m, true)
        else (e ∷ rest.0, rest.1))
    else (e ∷ m, false)

-- The overlap from the entry before the place, in the other case of `splitExtBorders`. An end
-- after `i.end` lies after `i.start` too.
unfoldable pub cut_prev : Interval → Entry → List Entry × Bool
cut_prev i e =
    if leb i.start e.end
    then (let low = lower_part e (before i.start) in
        let high = upper_part e (before i.start) in
        if ltb i.end e.end
        then (low ∷ lower_part high i.end ∷ upper_part high i.end ∷ [], true)
        else (low ∷ high ∷ [], true))
    else (e ∷ [], false)

-- `splitExtBorders` at the place that `lower_bound` found.
unfoldable pub split_at : Interval → List Entry → List Entry → List Entry × Bool
unfolding cut_last cut_right cut_prev unsnoc
split_at i below [] = elim (unsnoc below) [
  | none ↦ (below, false)
  | some (init, last) ↦ (let (parts, changed) = cut_last i last in (init ++ parts, changed))
]
split_at i below (e ∷ m) =
    let (from, changed) = cut_right i (e ∷ m) in
    elim (unsnoc below) [
      | none ↦ (from, changed)
      | some (init, prev) ↦
          (let (parts, changed') = cut_prev i prev in
            (init ++ (parts ++ from), changed || changed'))
    ]

-- `splitExtBorders`
unfoldable pub split_ext_borders : Interval → List Entry → List Entry × Bool
unfolding split_at lower_bound
split_ext_borders i m = let (below, from) = lower_bound i.start m in split_at i below from

-- `_addValue`
unfoldable pub add_value : Bool → ℕ → Entry → Entry × Bool
add_value update val e =
    if update
    then (if length e.values == 1 && has_elem val e.values
        then (e, false)
        else (record e { values = val ∷ [] }, true))
    else (record e { values = insert val e.values }, not (has_elem val e.values))

-- The test behind `++it` in the loop of `_add`: no entry is left that starts in the interval.
unfoldable pub past : ℕ → List Entry → Bool
past stop [] = true
past stop (e ∷ m) = ltb stop e.start

-- The end of a round of the loop of `_add`, behind the entry that ends at `at`: the loop stops at
-- the end of the interval, or fills what is left of it behind the last entry, or goes on to `rest`.
unfoldable pub after_entry : ℕ → ℕ → ℕ → Bool → List Entry → List Entry × Bool → List Entry × Bool
unfolding past
after_entry val stop at added m rest =
    if at == stop
    then (m, added)
    else if past stop m
    then (record { start = behind at; end = stop; values = val ∷ [] } ∷ m, true)
    else (rest.0, added || rest.1)

-- The start of a round: a gap before the entry is filled.
unfoldable pub fill_gap : ℕ → ℕ → ℕ → List Entry × Bool → List Entry × Bool
fill_gap val start entry_start (out, changed) =
    if ltb start entry_start
    then (record { start = start; end = before entry_start; values = val ∷ [] } ∷ out, true)
    else (out, changed)

-- The loop of `_add` over the entries from the place on; the rest of the interval that it still
-- has to cover is [start, stop].
unfoldable pub add_loop : Bool → ℕ → ℕ → ℕ → List Entry → List Entry × Bool
unfolding add_value after_entry fill_gap
add_loop update val start stop [] = ([], false)
add_loop update val start stop (e ∷ m) =
    let (e', added) = add_value update val e in
    let (tail, changed) =
      after_entry val stop e.end added m (add_loop update val (behind e.end) stop m) in
    fill_gap val start e.start (e' ∷ tail, changed)

-- `_add` behind `splitExtBorders`
unfoldable pub add_cut : Bool → Interval → ℕ → List Entry → Bool → List Entry × Bool
unfolding add_loop past lower_bound
add_cut update i val m changed =
    let (below, from) = lower_bound i.start m in
    if past i.end from
    then (below ++ record { start = i.start; end = i.end; values = val ∷ [] } ∷ from, true)
    else (let (from', changed') = add_loop update val i.start i.end from in
        (below ++ from', changed || changed'))

-- `_add`: the new map, and whether it was updated anyhow.
unfoldable pub add_interval : Bool → Interval → ℕ → List Entry → List Entry × Bool
unfolding add_cut split_ext_borders
add_interval update i val [] =
    (record { start = i.start; end = i.end; values = val ∷ [] } ∷ [], true)
add_interval update i val (e ∷ m) =
    let (cut, changed) = split_ext_borders i (e ∷ m) in add_cut update i val cut changed

-- `add`
abbrev pub add : Interval → ℕ → List Entry → List Entry × Bool
add i val m = add_interval false i val m

-- `update`
abbrev pub update : Interval → ℕ → List Entry → List Entry × Bool
update i val m = add_interval true i val m

-- `overlaps` at the place that `lower_bound` found. An empty map is at no place but the end.
unfoldable pub overlaps_at : Interval → List Entry → List Entry → Bool
unfolding unsnoc
overlaps_at i below [] = elim (unsnoc below) [
  | none ↦ false
  | some (init, last) ↦ leb i.start last.end
]
overlaps_at i below (ge ∷ rest) = leb ge.start i.end

-- `overlaps`
unfoldable pub overlaps : Interval → List Entry → Bool
unfolding lower_bound overlaps_at
overlaps i m = let (below, from) = lower_bound i.start m in overlaps_at i below from

-- The loop of `overlapsFull`, after the entry that ends at `last_end`.
unfoldable pub full_loop : ℕ → ℕ → List Entry → Bool
full_loop stop last_end [] = not (ltb last_end stop)
full_loop stop last_end (e ∷ m) =
    let rest = full_loop stop e.end m in
    if ltb last_end stop then (if e.start == behind last_end then rest else false) else true

-- `overlapsFull` at the place that `lower_bound` found
unfoldable pub full_at : Interval → List Entry → List Entry → Bool
unfolding unsnoc full_loop
full_at i below [] = elim (unsnoc below) [ none ↦ false | some (init, last) ↦ leb i.end last.end ]
full_at i below (ge ∷ rest) =
    if ltb i.start ge.start
    then elim (unsnoc below) [
      | none ↦ false
      | some (init, prev) ↦
          if prev.end == before ge.start then full_loop i.end ge.end rest else false
    ]
    else full_loop i.end ge.end rest

-- `overlapsFull`
unfoldable pub overlaps_full : Interval → List Entry → Bool
unfolding lower_bound full_at
overlaps_full i m = let (below, from) = lower_bound i.start m in full_at i below from

-- What `le` returns. `fault`: it takes the last element of an empty `std::map`.
pub data Place : Type 0 where
  fault at_end : Place
  at_entry : Entry → Place

-- `_shift_le`
unfoldable pub shift_le : Interval → List Entry → List Entry → Place
unfolding unsnoc
shift_le i below [] = elim (unsnoc below) [
  | none ↦ fault
  | some (init, last) ↦ if leb i.start last.end then at_entry last else at_end
]
shift_le i below (ge ∷ rest) =
    let here = if ltb i.end ge.start then at_end else at_entry ge in
    elim (unsnoc below) [
      | none ↦ here
      | some (init, prev) ↦ if leb i.start prev.end then at_entry prev else here
    ]

-- `le`
unfoldable pub le : Interval → List Entry → Place
unfolding lower_bound shift_le
le i m = let (below, from) = lower_bound i.start m in shift_le i below from
