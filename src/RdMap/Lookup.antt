-- ===== src/RdMap/Lookup.antt =====
-- `get` of BasicRDMap.cpp, by the bytes that are asked for.
use dg.Base.{ℕ, ◌<◌, ◌≡◌, refl, true, false, ◌&&◌, ◌||◌, List, [], ◌∷◌, ◌==◌}
use dg.Base.{arith, Bool-cases, inl, inr, ap, sym, ◌∙◌, All, ◌⊎◌, has_elem, max, ◌↔◌}
use dg.Base.Sets.{insert, has_elem-insert}
use dg.Offset.{unknown, is_unknown}
use dg.RdMap.{
  DefSite, NodesSet, RdMap, is_relevant, insert_all, get, intervals_disjunctive, intervals_overlap,
}
use dg.RdMap.Intervals.{HasByte, intervals_disjunctive_lem}

-- A definition at `c` may define a byte that is asked for at `d`: both are in one object, and an
-- offset is not known or the two have a byte in common.
abbrev pub MayDefine : DefSite → DefSite → Type 0
MayDefine d c =
    (c.target ≡ d.target)
    × ((d.offset ≡ unknown)
        ⊎ (c.offset ≡ unknown)
        ⊎ (x : ℕ) × HasByte c.offset c.len x × HasByte d.offset d.len x)

relevant_iff :
    (d c : DefSite)
    → 0 < d.len
    → 0 < c.len
    → ((c.target == d.target && is_relevant d c) ≡ true) ↔ MayDefine d c
unfolding is_relevant intervals_overlap
relevant_iff d c h k =
    let (apart, common) = intervals_disjunctive_lem c.offset c.len d.offset d.len k h in
    (
      λ t. elim (Bool-cases (is_unknown d.offset)) [
        | inl u ↦ (ground arith, inl (ground arith))
        | inr u ↦ elim (Bool-cases (is_unknown c.offset)) [
          | inl v ↦ (ground arith, inr (inl (ground arith)))
          | inr v ↦
              let (p, r) = common (ground arith) in
              (ground arith, inr (inr (max c.offset d.offset, p, r)))
        ]
      ],
      λ (same, why). elim why [
        | inl u ↦ ground arith
        | inr (inl v) ↦ ground arith
        | inr (inr (x, p, r)) ↦
            elim (Bool-cases (intervals_disjunctive c.offset c.len d.offset d.len)) [
              | inl t ↦ absurd (apart t x p r)
              | inr t ↦ ground arith
            ]
      ],
    )

has_elem-insert_all :
    (n : ℕ) (ns ret : List ℕ) → has_elem n (insert_all ns ret) ≡ (has_elem n ns || has_elem n ret)
has_elem-insert_all n [] ret = refl
has_elem-insert_all n (k ∷ ns) ret =
    ground (arith, has_elem-insert_all n ns (insert k ret), has_elem-insert k n ret)

-- An entry that has the node and may define a byte that is asked for.
abbrev pub Defines : DefSite → ℕ → RdMap → Type 0
Defines d n [] = ⊥
Defines d n ((c, s) ∷ m) = MayDefine d c × (has_elem n s.nodes ≡ true) ⊎ Defines d n m

abbrev pub HaveBytes : RdMap → Type 0
HaveBytes m = All (λ entry. 0 < entry.0.len) m

get_relevant :
    (d c : DefSite) (s : NodesSet) (m : RdMap) (ret : List ℕ)
    → (c.target == d.target && is_relevant d c) ≡ true
    → get d ((c, s) ∷ m) ret ≡ get d m (insert_all s.nodes ret)
unfolding get
get_relevant d c s m ret h = rw h

get_irrelevant :
    (d c : DefSite) (s : NodesSet) (m : RdMap) (ret : List ℕ)
    → (c.target == d.target && is_relevant d c) ≡ false
    → get d ((c, s) ∷ m) ret ≡ get d m ret
unfolding get
get_irrelevant d c s m ret h = rw h

-- A lookup adds to the result exactly the nodes of the definitions in the map that may define a
-- byte that is asked for, where all ranges have a byte at least.
pub get_iff :
    (d : DefSite) (n : ℕ) (m : RdMap) (ret : List ℕ)
    → 0 < d.len
    → HaveBytes m
    → (has_elem n (get d m ret) ≡ true) ↔ ((has_elem n ret ≡ true) ⊎ Defines d n m)
unfolding get
get_iff d n [] ret h b = (λ t. inl t, λ t. elim t [ inl p ↦ p | inr p ↦ absurd p ])
get_iff d n ((c, s) ∷ m) ret h b =
    let (may, rel) = relevant_iff d c h b.0 in
    elim (Bool-cases (c.target == d.target && is_relevant d c)) [
      | inl t ↦
          let (there, back) = get_iff d n m (insert_all s.nodes ret) h b.1 in
          let split = has_elem-insert_all n s.nodes ret in
          (
            λ got. elim (there (sym (ap (has_elem n) (get_relevant d c s m ret t)) ∙ got)) [
              | inl p ↦ elim (Bool-cases (has_elem n s.nodes)) [
                | inl q ↦ inr (inl (may t, q))
                | inr q ↦ inl (ground arith)
              ]
              | inr p ↦ inr (inr p)
            ],
            λ why.
                ap (has_elem n) (get_relevant d c s m ret t)
                ∙ back (elim why [
                  | inl p ↦ inl (ground arith)
                  | inr (inl (_, q)) ↦ inl (ground arith)
                  | inr (inr p) ↦ inr p
                ]),
          )
      | inr t ↦
          let (there, back) = get_iff d n m ret h b.1 in
          (
            λ got. elim (there (sym (ap (has_elem n) (get_irrelevant d c s m ret t)) ∙ got)) [
              | inl p ↦ inl p
              | inr p ↦ inr (inr p)
            ],
            λ why.
                ap (has_elem n) (get_irrelevant d c s m ret t)
                ∙ back (elim why [
                  | inl p ↦ inl p
                  | inr (inl (r, _)) ↦ let yes_rel = rel r in ground arith
                  | inr (inr p) ↦ inr p
                ]),
          )
    ]
