-- ===== src/Intervals/Cut.antt =====
-- `splitExtBorders` of DisjunctiveIntervalMap.h, by the points of the intervals.
use dg.Base.{ℕ, suc, ◌≤◌, ◌<◌, ◌≡◌, refl, Bool, false, ◌||◌, List, [], ◌∷◌, ◌++◌}
use dg.Base.{◌∙◌, All, arith, ◌⊎◌, none, some, inl, inr}
use mathlib.Core.List.{append-nil, append_assoc}
use dg.Offset.{unknown}
use dg.Intervals.{
  before, behind, Interval, Entry, lower_bound, unsnoc, cut_last, cut_right, cut_prev, split_at,
  split_ext_borders,
}
use dg.Intervals.Disjoint.{
  before_known, behind_known, holds, IsDisjoint, Between, Between-le, IsDisjoint-append,
  IsDisjoint-le, holds_below, holds-append, lower_bound_append, lower_bound_from, IsCut, Before,
  lower_bound_view,
}

-- What a splitting of `m` keeps and brings about.
pub record IsSplit (i : Interval) (lo : ℕ) (m out : List Entry) (changed : Bool) : Type 0 where
  pub disjoint : IsDisjoint lo out
  pub cut : All (IsCut i) out
  pub same : (x w : ℕ) → holds out x w ≡ holds m x w
  pub unchanged : changed ≡ false → out ≡ m

module _ (i : Interval) (valid : i.start ≤ i.end) (known : i.end < unknown) where
  Between-IsCut : (lo hi : ℕ) (m : List Entry) → Between lo hi m → hi ≤ i.start → All (IsCut i) m
  Between-IsCut lo hi [] b h = tt
  Between-IsCut lo hi (e ∷ m) b h =
      let k = Between-le (suc e.end) hi m b.2 in
      ((inl (omega arith), inl (omega arith)), Between-IsCut (suc e.end) hi m b.2 h)

  later-IsCut : (lo : ℕ) (m : List Entry) → IsDisjoint lo m → i.end < lo → All (IsCut i) m
  later-IsCut lo [] d h = tt
  later-IsCut lo (e ∷ m) d h =
      ((inr (omega arith), inr (omega arith)), later-IsCut (suc e.end) m d.2 (omega arith))

  All-append : (xs ys : List Entry) → All (IsCut i) xs → All (IsCut i) ys → All (IsCut i) (xs ++ ys)
  All-append [] ys a b = b
  All-append (x ∷ xs) ys a b = (a.0, All-append xs ys a.1 b)

  cut_right-IsSplit :
      (lo : ℕ) (m : List Entry)
      → IsDisjoint i.start m
      → IsDisjoint lo m
      → IsSplit i lo m (cut_right i m).0 (cut_right i m).1
  unfolding cut_right
  cut_right-IsSplit lo [] h d = record {
    disjoint = tt;
    cut = tt;
    same = λ x w. refl;
    unchanged = λ f. refl;
  }
  cut_right-IsSplit lo (e ∷ m) h d =
      let next = behind_known i.end known in
      let ih =
        cut_right-IsSplit (suc e.end) m (IsDisjoint-le i.start (suc e.end) m (omega arith) d.2)
          d.2 in
      record {
        disjoint = ground (arith, next, ih.disjoint);
        cut = ground (arith, next, ih.cut, later-IsCut (suc e.end) m d.2);
        same = λ x w. ground (arith, next, ih.same x w);
        unchanged = ground (arith, ih.unchanged);
      }

  -- What becomes of the one entry that starts before the interval.
  abbrev Splits : Entry → List Entry → Bool → Type 0
  Splits e out changed =
      Between e.start (suc e.end) out
      × All (IsCut i) out
      × ((x w : ℕ) → holds out x w ≡ holds (e ∷ []) x w)
      × (changed ≡ false → out ≡ e ∷ [])

  cut_last-Splits :
      (e : Entry) → e.start < i.start → e.start ≤ e.end → Splits e (cut_last i e).0 (cut_last i e).1
  unfolding cut_last
  cut_last-Splits e h k =
      let next = behind_known i.end known in
      let last = before_known i.start (omega arith) (omega arith) in
      let back : behind (before i.start) ≡ i.start =
        behind_known (before i.start) (omega (arith, last)) ∙ omega (arith, last) in
      (
        ground (arith, next, last, back),
        ground (arith, next, last, back),
        λ x w. ground (arith, next, last, back),
        ground (arith, next, last, back),
      )

  cut_prev-Splits :
      (e : Entry) → e.start < i.start → e.start ≤ e.end → Splits e (cut_prev i e).0 (cut_prev i e).1
  unfolding cut_prev
  cut_prev-Splits e h k =
      let next = behind_known i.end known in
      let last = before_known i.start (omega arith) (omega arith) in
      let back : behind (before i.start) ≡ i.start =
        behind_known (before i.start) (omega (arith, last)) ∙ omega (arith, last) in
      (
        ground (arith, next, last, back),
        ground (arith, next, last, back),
        λ x w. ground (arith, next, last, back),
        ground (arith, next, last, back),
      )

  -- The entries before, the split entry, and the split rest make up the split map.
  join :
      (lo : ℕ) (e : Entry) (init out rest rest' : List Entry) (c c' : Bool)
      → Between lo e.start init
      → e.start < i.start
      → e.start ≤ e.end
      → Splits e out c
      → IsDisjoint (suc e.end) rest
      → IsSplit i (suc e.end) rest rest' c'
      → IsSplit i lo (init ++ e ∷ rest) (init ++ (out ++ rest')) (c' || c)
  join lo e init out rest rest' c c' b h k s d r =
      let (between, cut, same, unchanged) = s in
      let tail = IsDisjoint-append e.start (suc e.end) out rest' between r.disjoint in
      let old : IsDisjoint e.start (e ∷ rest) = (omega arith, k, d) in
      record {
        disjoint = IsDisjoint-append lo e.start init (out ++ rest') b tail;
        cut =
            All-append init (out ++ rest') (Between-IsCut lo e.start init b (omega arith))
              (All-append out rest' cut r.cut);
        same = λ x w. ground (
          arith,
          holds-append lo e.start init (out ++ rest') x w b tail,
          holds-append lo e.start init (e ∷ rest) x w b old,
          holds-append e.start (suc e.end) out rest' x w between r.disjoint,
          same x w,
          r.same x w,
          holds_below (suc e.end) rest x w d,
        );
        unchanged = ground (arith, unchanged, r.unchanged);
      }

  IsSplit-refl :
      (lo : ℕ) (m : List Entry) → IsDisjoint lo m → All (IsCut i) m → IsSplit i lo m m false
  IsSplit-refl lo m d c = record {
    disjoint = d;
    cut = c;
    same = λ x w. refl;
    unchanged = λ f. refl;
  }

  -- The four cases of `split_at`.
  split_at_empty : (below : List Entry) → unsnoc below ≡ none → split_at i below [] ≡ (below, false)
  unfolding split_at
  split_at_empty below e = rw (e, split_at)

  split_at_last :
      (below init : List Entry) (last : Entry)
      → unsnoc below ≡ some (init, last)
      → split_at i below [] ≡ (init ++ (cut_last i last).0, (cut_last i last).1)
  unfolding split_at
  split_at_last below init last e = rw (e, split_at)

  split_at_first :
      (below : List Entry) (x : Entry) (xs : List Entry)
      → unsnoc below ≡ none
      → split_at i below (x ∷ xs) ≡ cut_right i (x ∷ xs)
  unfolding split_at
  split_at_first below x xs e = rw (e, split_at)

  split_at_middle :
      (below init : List Entry) (prev x : Entry) (xs : List Entry)
      → unsnoc below ≡ some (init, prev)
      → split_at i below (x ∷ xs) ≡ (
        init ++ ((cut_prev i prev).0 ++ (cut_right i (x ∷ xs)).0),
        (cut_right i (x ∷ xs)).1 || (cut_prev i prev).1,
      )
  unfolding split_at
  split_at_middle below init prev x xs e = rw (e, split_at)

  split_at-IsSplit :
      (below from : List Entry)
      → (unsnoc below ≡ none) × (below ≡ []) ⊎ Before i.start 0 below from
      → IsDisjoint i.start from
      → IsSplit i 0 (below ++ from) (split_at i below from).0 (split_at i below from).1
  split_at-IsSplit below [] (inl (no_entry, nothing)) d =
      rw (split_at_empty below no_entry, nothing) (IsSplit-refl 0 [] tt tt)
  split_at-IsSplit below [] (inr b) d =
      let parts = cut_last i b.prev in
      let split =
        join 0 b.prev b.init parts.0 [] [] parts.1 false b.init_between b.earlier b.ordered
          (cut_last-Splits b.prev b.earlier b.ordered) tt
          (IsSplit-refl (suc b.prev.end) [] tt tt) in
      rw (append-nil below, split_at_last below b.init b.prev b.unsnoc_eq, b.append_eq)
        (rw append-nil at split)
  split_at-IsSplit below (x ∷ xs) (inl (no_entry, nothing)) d =
      rw (split_at_first below x xs no_entry, nothing)
        (cut_right-IsSplit 0 (x ∷ xs) d (IsDisjoint-le 0 i.start (x ∷ xs) (omega arith) d))
  split_at-IsSplit below (x ∷ xs) (inr b) d =
      let parts = cut_prev i b.prev in
      let from = cut_right i (x ∷ xs) in
      let split =
        join 0 b.prev b.init parts.0 (x ∷ xs) from.0 parts.1 from.1 b.init_between b.earlier
          b.ordered (cut_prev-Splits b.prev b.earlier b.ordered) b.apart
          (cut_right-IsSplit (suc b.prev.end) (x ∷ xs) d b.apart) in
      rw
        (
          split_at_middle below b.init b.prev x xs b.unsnoc_eq,
          b.append_eq,
          append_assoc b.init (b.prev ∷ []) (x ∷ xs),
        )
        split

  pub split_ext_borders-IsSplit :
      (m : List Entry)
      → IsDisjoint 0 m
      → IsSplit i 0 m (split_ext_borders i m).0 (split_ext_borders i m).1
  unfolding split_ext_borders
  split_ext_borders-IsSplit m d =
      let split =
        split_at-IsSplit (lower_bound i.start m).0 (lower_bound i.start m).1
          (lower_bound_view i.start 0 m d) (lower_bound_from i.start 0 m d) in
      rw (lower_bound_append i.start m) at split
