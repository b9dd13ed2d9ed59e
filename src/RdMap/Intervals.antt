-- ===== src/RdMap/Intervals.antt =====
-- `intervalsDisjunctive` of RDMap.h, by the bytes of the two ranges.
use dg.Base.{Bool-cases, ◌↔◌, ℕ, ◌+◌, ◌≤◌, ◌<◌, ◌≡◌, ◌⊎◌, inl, inr, true, false, max, arith}
use dg.Offset.{unknown}
use dg.RdMap.{intervals_disjunctive}

-- The bytes of a range; a range of unknown length has no end.
abbrev pub HasByte : ℕ → ℕ → ℕ → Type 0
HasByte start len x = (start ≤ x) × ((len ≡ unknown) ⊎ (x < start + len))

-- A positive answer rules out a common byte, and behind a negative one the greater start is a common
-- byte.
pub intervals_disjunctive_lem :
    (a a_len b b_len : ℕ)
    → 0 < a_len
    → 0 < b_len
    → (intervals_disjunctive a a_len b b_len ≡ true
        → (x : ℕ) → HasByte a a_len x
        → ¬ HasByte b b_len x)
      × (intervals_disjunctive a a_len b b_len ≡ false
          → HasByte a a_len (max a b) × HasByte b b_len (max a b))
unfolding intervals_disjunctive
intervals_disjunctive_lem a a_len b b_len h k = (λ t x p q. ground arith, λ t. ground arith)

-- Two ranges of at least one byte are not disjunctive exactly when some byte is in both.
pub intervals_disjunctive_iff :
    (a a_len b b_len : ℕ)
    → 0 < a_len
    → 0 < b_len
    → (intervals_disjunctive a a_len b b_len ≡ false)
      ↔ ((x : ℕ) × HasByte a a_len x × HasByte b b_len x)
intervals_disjunctive_iff a a_len b b_len h k =
    let (apart, common) = intervals_disjunctive_lem a a_len b b_len h k in
    (
      λ t. let (p, q) = common t in (max a b, p, q),
      λ (x, p, q). elim (Bool-cases (intervals_disjunctive a a_len b b_len)) [
        | inl t ↦ absurd (apart t x p q)
        | inr t ↦ t
      ],
    )
