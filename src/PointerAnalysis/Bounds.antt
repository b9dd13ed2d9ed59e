-- ===== src/PointerAnalysis/Bounds.antt =====
-- PointerAnalysis.cpp: the offsets that `processGep` and `processMemcpy` compute.
use dg.Base.{
  ℕ, ◌+◌, ◌-◌, ◌≤◌, ◌<◌, ◌^◌, ◌%◌, ◌≡◌, ◌⊎◌, inl, inr, Bool, true, false, ◌||◌, ◌&&◌, not, arith,
  Bool-cases, refl,
}
use dg.Base.Steps.{if-branch}
use dg.Base.{◌==◌, if◌then◌else◌, ltb, leb}
use dg.Offset.{Offset, unknown, is_unknown}
use dg.PointsTo.{Pointer}
use dg.PointerAnalysis.{Program}
use dg.PointerAnalysis.Load.{gep_result}
use dg.PointerAnalysis.Copy.{is_copied, copied_offset}

in_bounds :
    (src dest off size bound : ℕ)
    → src ≤ off
    → off < unknown
    → dest < unknown
    → leb (unknown - dest) ((off + 2 ^ 64 - src) % 2 ^ 64) ≡ false
    → (leb size (((off + 2 ^ 64 - src) % 2 ^ 64 + dest) % 2 ^ 64)
        || leb bound (((off + 2 ^ 64 - src) % 2 ^ 64 + dest) % 2 ^ 64))
      ≡ false
    → (src + ((off + 2 ^ 64 - src) % 2 ^ 64 + dest) % 2 ^ 64 ≡ dest + off)
      × (((off + 2 ^ 64 - src) % 2 ^ 64 + dest) % 2 ^ 64 < size)
      × (((off + 2 ^ 64 - src) % 2 ^ 64 + dest) % 2 ^ 64 < bound)
in_bounds src dest off size bound h ho hd e f =
    let shift : (off + 2 ^ 64 - src) % 2 ^ 64 ≡ off - src = omega arith in
    let room : off - src + dest < unknown = ground (arith, e, shift) in
    let sum : ((off + 2 ^ 64 - src) % 2 ^ 64 + dest) % 2 ^ 64 ≡ off - src + dest = omega arith in
    (omega arith, ground arith, ground arith)

inside :
    (b : Bool) (sum size bound : ℕ)
    → ((((if b then unknown else sum) == 0) || ltb (if b then unknown else sum) size)
        && ltb (if b then unknown else sum) bound)
      ≡ true
    → ((if b then unknown else sum) ≡ unknown)
      ⊎ ((b ≡ false)
          × ((if b then unknown else sum) ≡ sum)
          × (((if b then unknown else sum) ≡ 0) ⊎ ((if b then unknown else sum) < size))
          × ((if b then unknown else sum) < bound))
inside true sum size bound e = inl refl
inside false sum size bound e = elim (Bool-cases (sum == 0)) [
  | inl z ↦ inr (refl, refl, inl (ground arith), ground arith)
  | inr z ↦ inr (refl, refl, inr (ground arith), ground arith)
]

module _ (A : Program) where
  reached :
      (src_offset len off : Offset)
      → src_offset < unknown
      → off < unknown
      → is_copied A src_offset len off ≡ true
      → src_offset ≤ off
  unfolding is_copied
  reached src_offset len off hs ho c = ground arith

  -- The offset that a copy stores an entry at is unknown, or it is the offset of the entry shifted by
  -- the difference of the two pointers, without wrapping around, below the size of the destination and
  -- below the bound of the field sensitivity. The entry is copied, and all three offsets are known.
  pub copied_offset_lem :
      (src_offset dest_offset len : Offset) (dest : ℕ) (off : Offset)
      → src_offset < unknown
      → dest_offset < unknown
      → off < unknown
      → is_copied A src_offset len off ≡ true
      → (copied_offset A src_offset dest_offset dest off ≡ unknown)
        ⊎ ((src_offset + copied_offset A src_offset dest_offset dest off ≡ dest_offset + off)
            × (copied_offset A src_offset dest_offset dest off < A.node_size dest)
            × (copied_offset A src_offset dest_offset dest off < A.field_sensitivity))
  unfolding copied_offset is_copied
  copied_offset_lem src_offset dest_offset len dest off hs hd ho c =
      let Shifted = λ (v : Offset).
        (v ≡ unknown)
        ⊎ ((src_offset + v ≡ dest_offset + off)
            × (v < A.node_size dest)
            × (v < A.field_sensitivity)) in
      let shift = (off + 2 ^ 64 - src_offset) % 2 ^ 64 in
      let new_off = (shift + dest_offset) % 2 ^ 64 in
      let from : src_offset ≤ off = reached src_offset len off hs ho c in
      if-branch Shifted
        (not (is_unknown off) && (not (is_unknown src_offset) && not (is_unknown dest_offset)))
        (λ known.
          if-branch Shifted (leb (unknown - dest_offset) shift) (λ e. inl refl)
            (λ e.
              if-branch Shifted (leb (A.node_size dest) new_off || leb A.field_sensitivity new_off)
                (λ f. inl refl)
                (λ f. inr (
                  in_bounds src_offset dest_offset off (A.node_size dest) A.field_sensitivity from
                    ho hd e f))))
        (λ known. inl refl)

  -- A shift of a pointer keeps its target. The offset that it yields is unknown; or both offsets are
  -- known, and it is their sum modulo 2 ^ 64, zero or below the size of the memory, and below the bound
  -- of the field sensitivity.
  pub gep_result_lem :
      (p : Pointer) (off : Offset)
      → ((gep_result A p off).target ≡ p.target)
        × (((gep_result A p off).offset ≡ unknown)
            ⊎ (((is_unknown p.offset || is_unknown off) ≡ false)
                × ((gep_result A p off).offset ≡ (p.offset + off) % 2 ^ 64)
                × (((gep_result A p off).offset ≡ 0)
                    ⊎ ((gep_result A p off).offset < A.node_size p.target))
                × ((gep_result A p off).offset < A.field_sensitivity)))
  unfolding gep_result
  gep_result_lem p off =
      let either = is_unknown p.offset || is_unknown off in
      let sum = if either then unknown else (p.offset + off) % 2 ^ 64 in
      let Inside = λ (v : Offset).
        (v ≡ unknown)
        ⊎ ((either ≡ false)
            × (v ≡ (p.offset + off) % 2 ^ 64)
            × ((v ≡ 0) ⊎ (v < A.node_size p.target))
            × (v < A.field_sensitivity)) in
      (
        refl,
        if-branch Inside
            ((sum == 0 || ltb sum (A.node_size p.target)) && ltb sum A.field_sensitivity)
            (λ e.
              inside either ((p.offset + off) % 2 ^ 64) (A.node_size p.target) A.field_sensitivity
                e)
            (λ e. inl refl),
      )
