-- ===== src/RdMap/StrongUpdate.antt =====
-- The strong update of `merge` in BasicRDMap.cpp, whose sums are sums of two `uint64_t`.
use dg.Base.{ℕ, ◌+◌, ◌≤◌, ◌<◌, ◌^◌, ◌≡◌, ◌≢◌, List, [], ◌∷◌}
use dg.Base.{◌==◌, arith, Bool-cases, inl, inr, All, ◌⊎◌}
use dg.Offset.{unknown}
use dg.RdMap.{DefSite, skip, judge, overwrites}
use dg.RdMap.Intervals.{HasByte}

-- A site whose bytes are known and lie below 2 ^ 64.
abbrev pub IsConcrete : DefSite → Type 0
IsConcrete d = (d.offset ≢ unknown) × (d.len ≢ unknown) × (d.offset + d.len < 2 ^ 64)

abbrev pub Any : (DefSite → Type 0) → List DefSite → Type 0
Any P [] = ⊥
Any P (c ∷ cs) = P c ⊎ Any P cs

-- All bytes of `d` are bytes of `c`, in the same object.
abbrev pub Contains : DefSite → DefSite → Type 0
Contains d c =
    (c.target ≡ d.target) × ((x : ℕ) → HasByte d.offset d.len x → HasByte c.offset c.len x)

-- Where the offset and the length of all sites are known and their sums are below 2 ^ 64, the loop
-- over the writes leaves a definition out only if a single write to the same object overwrites all
-- of its bytes.
pub judge-Contains :
    (d : DefSite) (cs : List DefSite)
    → IsConcrete d
    → All IsConcrete cs
    → judge d cs ≡ skip
    → Any (Contains d) cs
unfolding judge
judge-Contains d [] h k t = cc
judge-Contains d (c ∷ cs) h k t = elim (Bool-cases (c.target == d.target)) [
  | inr other ↦ inr (judge-Contains d cs h k.1 (ground arith))
  | inl same ↦ elim (Bool-cases (overwrites c d)) [
    | inl o ↦ inl (ground arith, λ x b. ground arith)
    | inr o ↦ inr (judge-Contains d cs h k.1 (ground arith))
  ]
]

-- A definition of unknown length, at an offset after 0, is left out behind a write of known length
-- to the same object that covers its first byte and has a next byte below 2 ^ 64 - 1, which the
-- definition has and the write has not: the sum of the offset and the length wraps around.
pub judge_wraps :
    (d c : DefSite) (cs : List DefSite)
    → c.target ≡ d.target
    → d.len ≡ unknown
    → 0 < d.offset
    → c.offset ≤ d.offset
    → d.offset < c.offset + c.len
    → c.offset + c.len < unknown
    → c.len ≢ unknown
    → (judge d (c ∷ cs) ≡ skip)
      × HasByte d.offset d.len (c.offset + c.len)
      × (¬ HasByte c.offset c.len (c.offset + c.len))
unfolding judge
judge_wraps d c cs same len pos start reach small known =
    (ground arith, ground arith, λ b. ground arith)
