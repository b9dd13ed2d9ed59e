-- ===== src/Intervals/Disjoint.antt =====
-- What a map of intervals stands for: at each point, a set of values. The intervals of the map do
-- not overlap, and each has a start that is not after its end.
use dg.Base.{◌+◌, ◌-◌, ℕ, suc, ◌≤◌, ◌<◌, ◌≡◌, refl, Bool, false, ◌&&◌, List, [], ◌∷◌, ◌++◌}
use dg.Base.{
  ltb, leb, if◌then◌else◌, has_elem, All, arith, ◌⊎◌, none, some, ap, inl, inr, Bool-cases, ltb→lt,
  subst, sym, ◌∙◌,
}
use dg.Offset
use dg.Offset.{Offset, unknown}
use dg.Intervals.{before, behind, Interval, Entry, lower_bound, unsnoc}

pub before_known : (x : Offset) → 1 ≤ x → x < unknown → before x ≡ x - 1
unfolding before Offset.sub
before_known x h k = ground arith

pub behind_known : (x : Offset) → x < unknown → behind x ≡ x + 1
unfolding behind Offset.add
behind_known x h = ground arith

pub before_least : (x : Offset) → x ≤ before x + 1
unfolding before Offset.sub
before_least x = ground arith

pub behind_most : (x : Offset) → behind x ≤ x + 1
unfolding behind Offset.add
behind_most x = ground arith

-- The point `x` has the value `w`.
abbrev pub holds : List Entry → ℕ → ℕ → Bool
holds [] x w = false
holds (e ∷ m) x w = if leb e.start x && leb x e.end then has_elem w e.values else holds m x w

-- The intervals ascend from `lo` on, without an overlap.
abbrev pub IsDisjoint : ℕ → List Entry → Type 0
IsDisjoint lo [] = Unit
IsDisjoint lo (e ∷ m) = (lo ≤ e.start) × (e.start ≤ e.end) × IsDisjoint (suc e.end) m

-- The same, and they end before `hi`.
abbrev pub Between : ℕ → ℕ → List Entry → Type 0
Between lo hi [] = lo ≤ hi
Between lo hi (e ∷ m) = (lo ≤ e.start) × (e.start ≤ e.end) × Between (suc e.end) hi m

pub Between-le : (lo hi : ℕ) (m : List Entry) → Between lo hi m → lo ≤ hi
Between-le lo hi [] h = h
Between-le lo hi (e ∷ m) h = omega (arith, Between-le (suc e.end) hi m h.2)

pub IsDisjoint-append :
    (lo mid : ℕ) (xs ys : List Entry)
    → Between lo mid xs
    → IsDisjoint mid ys
    → IsDisjoint lo (xs ++ ys)
IsDisjoint-append lo mid [] [] b d = tt
IsDisjoint-append lo mid [] (y ∷ ys) b d = (omega arith, d.1, d.2)
IsDisjoint-append lo mid (x ∷ xs) ys b d = (b.0, b.1, IsDisjoint-append (suc x.end) mid xs ys b.2 d)

pub IsDisjoint-le : (lo hi : ℕ) (m : List Entry) → lo ≤ hi → IsDisjoint hi m → IsDisjoint lo m
IsDisjoint-le lo hi [] h d = tt
IsDisjoint-le lo hi (e ∷ m) h d = (omega arith, d.1, d.2)

pub holds_below :
    (lo : ℕ) (m : List Entry) (x w : ℕ) → IsDisjoint lo m → x < lo → holds m x w ≡ false
holds_below lo [] x w d h = refl
holds_below lo (e ∷ m) x w d h = ground (arith, holds_below (suc e.end) m x w)

-- Two maps end to end: the point decides which one is asked.
pub holds-append :
    (lo mid : ℕ) (xs ys : List Entry) (x w : ℕ)
    → Between lo mid xs
    → IsDisjoint mid ys
    → holds (xs ++ ys) x w ≡ (if ltb x mid then holds xs x w else holds ys x w)
holds-append lo mid [] ys x w b d = ground (arith, holds_below mid ys x w d)
holds-append lo mid (e ∷ xs) ys x w b d =
    ground (arith, holds-append (suc e.end) mid xs ys x w b.2 d, Between-le (suc e.end) mid xs b.2)

-- The place that `lower_bound` finds splits the map, and what lies from it on starts there.
pub lower_bound_append : (s : ℕ) (m : List Entry) → (lower_bound s m).0 ++ (lower_bound s m).1 ≡ m
unfolding lower_bound
lower_bound_append s [] = refl
lower_bound_append s (e ∷ m) = ground (arith, lower_bound_append s m)

pub lower_bound_from :
    (s lo : ℕ) (m : List Entry) → IsDisjoint lo m → IsDisjoint s (lower_bound s m).1
unfolding lower_bound
lower_bound_from s lo [] d = tt
lower_bound_from s lo (e ∷ m) d = ground (arith, lower_bound_from s (suc e.end) m d.2)

-- No interval crosses the borders of `i`.
abbrev pub IsCut : Interval → Entry → Type 0
IsCut i e = ((e.end < i.start) ⊎ (i.start ≤ e.start)) × ((e.end ≤ i.end) ⊎ (i.end < e.start))

pub lower_bound_below :
    (i : Interval) (lo : ℕ) (m : List Entry)
    → lo ≤ i.start
    → IsDisjoint lo m
    → All (IsCut i) m
    → Between lo i.start (lower_bound i.start m).0 × All (IsCut i) (lower_bound i.start m).1
unfolding lower_bound
lower_bound_below i lo [] h d c = (h, tt)
lower_bound_below i lo (e ∷ m) h d c = ground (arith, lower_bound_below i (suc e.end) m)

-- The entry before the place that `lower_bound` finds, if there is one.
pub record Before (s lo : ℕ) (below from : List Entry) : Type 0 where
  pub init : List Entry
  pub prev : Entry
  pub unsnoc_eq : unsnoc below ≡ some (init, prev)
  pub append_eq : below ≡ init ++ prev ∷ []
  pub init_between : Between lo prev.start init
  pub ordered : prev.start ≤ prev.end
  pub earlier : prev.start < s
  pub apart : IsDisjoint (suc prev.end) from

pub lower_bound_view :
    (s lo : ℕ) (m : List Entry)
    → IsDisjoint lo m
    → (unsnoc (lower_bound s m).0 ≡ none) × ((lower_bound s m).0 ≡ [])
      ⊎ Before s lo (lower_bound s m).0 (lower_bound s m).1
unfolding lower_bound unsnoc
lower_bound_view s lo [] d = inl (refl, refl)
lower_bound_view s lo (e ∷ m) d = elim (Bool-cases (ltb e.start s)) [
  | inr late ↦ rw late (inl (refl, refl))
  | inl early ↦ rw early (elim (lower_bound_view s (suc e.end) m d.2) [
    | inl (no_entry, nothing) ↦ inr (record {
      init = [];
      prev = e;
      unsnoc_eq = rw (no_entry, unsnoc);
      append_eq = rw nothing;
      init_between = d.0;
      ordered = d.1;
      earlier = ltb→lt e.start s early;
      apart = before_all e m d.2 nothing;
    })
    | inr b ↦ inr (record {
      init = e ∷ b.init;
      prev = b.prev;
      unsnoc_eq = rw (b.unsnoc_eq, unsnoc);
      append_eq = ap (λ l. e ∷ l) b.append_eq;
      init_between = (d.0, d.1, b.init_between);
      ordered = b.ordered;
      earlier = b.earlier;
      apart = b.apart;
    })
  ])
]
  where
    before_all :
        (e : Entry) (m : List Entry)
        → IsDisjoint (suc e.end) m
        → (lower_bound s m).0 ≡ []
        → IsDisjoint (suc e.end) (lower_bound s m).1
    before_all e m d nothing =
        let whole = lower_bound_append s m in
        subst (IsDisjoint (suc e.end)) (sym whole ∙ ap (λ l. l ++ (lower_bound s m).1) nothing) d
