-- ===== src/RdMap/Growth.antt =====
-- `merge` of BasicRDMap.cpp: what its result says about a change, and a measure that grows with it.
use dg.Base.{
  ℕ, suc, ◌+◌, ◌*◌, ◌≤◌, ◌<◌, ◌≡◌, refl, ◌∙◌, ap, subst, Bool, true, false, not, ◌&&◌, ◌||◌, ltb,
  List, [], ◌∷◌, ◌==◌, if◌then◌else◌, has_elem, length, Ascends, All, arith, Bool-cases, inl, inr,
}
use dg.Base.Sets.{insert, has_elem-insert, Ascends-insert, length-insert, length-le}
use dg.RdMap.{
  DefSite, NodesSet, site_eq, site_lt, unknown_memory, insert_node, insert_nodes, put_site,
  nodes_at, crop, RdMap, MergeOptions, merge_into, merge_entry, merge,
}
use dg.RdMap.Nodes.{nodes_at-put_site, eq_of_site_eq, site_eq_self}
use dg.RdMap.Merge.{merge_entry_lem}

abbrev pub bit : Bool → ℕ
bit b = if b then 1 else 0

-- The site is one of the list.
abbrev pub is_site : DefSite → List DefSite → Bool
is_site d [] = false
is_site d (c ∷ cs) = site_eq c d || is_site d cs

-- The numbers below `M` stand for the nodes, 0 among them, and `D` has all sites. No set is bigger
-- than `size`.
module _ (M size : ℕ) (some_node : 0 < M) (D : List DefSite) where
  abbrev pub IsNodesSet : NodesSet → Type 0
  IsNodesSet s = Ascends 0 s.nodes × ((v : ℕ) → has_elem v s.nodes ≡ true → v < M)

  abbrev pub IsMap : RdMap → Type 0
  IsMap m =
      All
        (λ ((d, s) : DefSite × NodesSet). (is_site d D ≡ true) × IsNodesSet s × (crop size d s ≡ s))
        m

  -- A set that stands for every node ranks above all others.
  abbrev rank : NodesSet → ℕ
  rank s = if s.is_unknown_set then suc M else length s.nodes

  rank-le : (s : NodesSet) → IsNodesSet s → rank s ≤ suc M
  rank-le s (a, b) = ground (arith, length-le M 0 s.nodes (omega arith) a b)

  record Filled (s s' : NodesSet) (changed : Bool) : Type 0 where
    is_set : IsNodesSet s'
    same : changed ≡ false → s' ≡ s
    more : rank s + bit changed ≤ rank s'

  insert-IsNodesSet :
      (n : ℕ) (s : NodesSet)
      → n < M
      → IsNodesSet s
      → IsNodesSet (record s { nodes = insert n s.nodes })
  insert-IsNodesSet n s low (a, b) = (
    Ascends-insert 0 n s.nodes (omega arith) a,
    λ v t. ground (arith, has_elem-insert n v s.nodes, b v),
  )

  insert_node-Filled :
      (n : ℕ) (s : NodesSet)
      → n < M
      → IsNodesSet s
      → Filled s (insert_node n s).0 (insert_node n s).1
  unfolding insert_node
  insert_node-Filled n s low h = elim (Bool-cases s.is_unknown_set) [
    | inl e ↦ rw e (record { is_set = h; same = λ z. refl; more = ground arith })
    | inr e ↦ elim (Bool-cases (n == 0)) [
      | inl z ↦
          rw (e, z)
            (record {
              is_set = ((omega arith, tt), λ v t. ground arith);
              same = λ f. absurd (ground arith);
              more = ground (arith, rank-le s h, length-le M 0 s.nodes (omega arith) h.0 h.1);
            })
      | inr z ↦
          rw (e, z)
            (record {
              is_set = insert-IsNodesSet n s low h;
              same = λ f. (let old : has_elem n s.nodes ≡ true = ground arith in rw old refl);
              more = elim (Bool-cases (has_elem n s.nodes)) [
                | inl old ↦ rw old (omega arith)
                | inr new ↦ ground (arith, length-insert n s.nodes new)
              ];
            })
    ]
  ]

  insert_nodes-Filled :
      (ns : List ℕ) (s : NodesSet)
      → ((v : ℕ) → has_elem v ns ≡ true → v < M)
      → IsNodesSet s
      → Filled s (insert_nodes ns s).0 (insert_nodes ns s).1
  unfolding insert_nodes
  insert_nodes-Filled [] s low h = record { is_set = h; same = λ z. refl; more = ground arith }
  insert_nodes-Filled (n ∷ ns) s low h =
      let f = insert_node-Filled n s (low n (ground arith)) h in
      let g = insert_nodes-Filled ns (insert_node n s).0 (λ v t. low v (ground arith)) f.is_set in
      record {
        is_set = g.is_set;
        same = λ z. g.same (ground arith) ∙ f.same (ground arith);
        more = ground (arith, f.more, g.more);
      }

  crop_again : (d : DefSite) (s : NodesSet) → crop size d (crop size d s) ≡ crop size d s
  crop_again d s = ground arith

  crop-IsNodesSet : (d : DefSite) (s : NodesSet) → IsNodesSet s → IsNodesSet (crop size d s)
  crop-IsNodesSet d s h =
      elim (Bool-cases (not (d.target == unknown_memory) && ltb size (length s.nodes))) [
        | inl e ↦ rw e ((omega arith, tt), λ v t. ground arith)
        | inr e ↦ rw e h
      ]

  rank-crop : (d : DefSite) (s : NodesSet) → IsNodesSet s → rank s ≤ rank (crop size d s)
  rank-crop d s h = ground (arith, rank-le s h)

  put_site-IsMap :
      (d : DefSite) (s : NodesSet) (m : RdMap)
      → is_site d D ≡ true
      → IsNodesSet s
      → crop size d s ≡ s
      → IsMap m
      → IsMap (put_site d s m)
  put_site-IsMap d s [] i h c a = ((i, h, c), tt)
  put_site-IsMap d s ((e, t) ∷ m) i h c (p, a) = elim (Bool-cases (site_lt d e)) [
    | inl l ↦ rw l ((i, h, c), (p, a))
    | inr l ↦ elim (Bool-cases (site_eq e d)) [
      | inl q ↦ rw (l, q) ((i, h, c), a)
      | inr q ↦ rw (l, q) (p, put_site-IsMap d s m i h c a)
    ]
  ]

  nodes_at-IsNodesSet : (d : DefSite) (m : RdMap) → IsMap m → IsNodesSet (nodes_at d m)
  nodes_at-IsNodesSet d [] a = (tt, λ v t. absurd (ground arith))
  nodes_at-IsNodesSet d ((e, t) ∷ m) (p, a) = elim (Bool-cases (site_eq e d)) [
    | inl q ↦ rw (nodes_at, q) p.1
    | inr q ↦ rw (nodes_at, q) (nodes_at-IsNodesSet d m a)
  ]

  crop-nodes_at : (d : DefSite) (m : RdMap) → IsMap m → crop size d (nodes_at d m) ≡ nodes_at d m
  crop-nodes_at d [] a = ground arith
  crop-nodes_at d ((e, t) ∷ m) (p, a) = elim (Bool-cases (site_eq e d)) [
    | inl q ↦
        let z : e ≡ d = eq_of_site_eq e d q in
        rw (nodes_at, q) (subst (λ x. crop size x t ≡ t) z p.2)
    | inr q ↦ rw (nodes_at, q) (crop-nodes_at d m a)
  ]

  -- The ranks of the sets of all sites.
  abbrev total_from : List DefSite → RdMap → ℕ
  total_from [] m = 0
  total_from (d ∷ ds) m = rank (nodes_at d m) + total_from ds m

  abbrev pub total : RdMap → ℕ
  total m = total_from D m

  total_from-grows :
      (ds : List DefSite) (m m' : RdMap)
      → ((c : DefSite) → rank (nodes_at c m) ≤ rank (nodes_at c m'))
      → total_from ds m ≤ total_from ds m'
  total_from-grows [] m m' h = omega arith
  total_from-grows (d ∷ ds) m m' h = omega (arith, h d, total_from-grows ds m m' h)

  total_from-more :
      (ds : List DefSite) (d : DefSite) (m m' : RdMap)
      → is_site d ds ≡ true
      → rank (nodes_at d m) < rank (nodes_at d m')
      → ((c : DefSite) → rank (nodes_at c m) ≤ rank (nodes_at c m'))
      → total_from ds m < total_from ds m'
  total_from-more [] d m m' i l h = cc
  total_from-more (e ∷ ds) d m m' i l h = elim (Bool-cases (site_eq e d)) [
    | inl q ↦
        let z : e ≡ d = eq_of_site_eq e d q in
        let first : rank (nodes_at e m) < rank (nodes_at e m') = rw z l in
        omega (arith, first, total_from-grows ds m m' h)
    | inr q ↦ let rest = total_from-more ds d m m' (ground arith) l h in omega (arith, rest, h e)
  ]

  -- What a merge says about a change: where it says that there was none, every site has the same
  -- set; else the ranks grow.
  pub record Merged (m m' : RdMap) (changed : Bool) : Type 0 where
    pub is_map : IsMap m'
    pub same : changed ≡ false → (c : DefSite) → nodes_at c m' ≡ nodes_at c m
    pub more : total m + bit changed ≤ total m'

  pub Merged-nothing : (m : RdMap) → IsMap m → Merged m m false
  Merged-nothing m a = record { is_map = a; same = λ z c. refl; more = omega arith }

  Merged-then :
      (m m' m'' : RdMap) (b c : Bool) → Merged m m' b → Merged m' m'' c → Merged m m'' (b || c)
  Merged-then m m' m'' b c f g = record {
    is_map = g.is_map;
    same = λ z d. g.same (ground arith) d ∙ f.same (ground arith) d;
    more = ground (arith, f.more, g.more);
  }

  module _ (o : MergeOptions) (apart : o.merge_unknown ≡ false) (fits : o.max_set_size ≡ size) where
    merge_into-Merged :
        (d : DefSite) (ns : List ℕ) (m : RdMap)
        → is_site d D ≡ true
        → ((v : ℕ) → has_elem v ns ≡ true → v < M)
        → IsMap m
        → Merged m (merge_into o d d ns m).0 (merge_into o d d ns m).1
    unfolding merge_into
    merge_into-Merged d ns m i low a =
        let s = nodes_at d m in
        let old = nodes_at-IsNodesSet d m a in
        let f = insert_nodes-Filled ns s low old in
        let s' = crop size d (insert_nodes ns s).0 in
        let grows = rank-crop d (insert_nodes ns s).0 f.is_set in
        let each : (c : DefSite) → rank (nodes_at c m) ≤ rank (nodes_at c (put_site d s' m)) = λ c.
          elim (Bool-cases (site_eq d c)) [
            | inl q ↦
                let z : d ≡ c = eq_of_site_eq d c q in
                let less : rank (nodes_at d m) ≤ rank s' = omega (arith, f.more, grows) in
                rw (nodes_at-put_site c d s' m, q)
                  (subst (λ x. rank (nodes_at x m) ≤ rank s') z less)
            | inr q ↦ rw (nodes_at-put_site c d s' m, q) (omega arith)
          ] in
        rw fits (record {
          is_map =
              put_site-IsMap d s' m i (crop-IsNodesSet d (insert_nodes ns s).0 f.is_set)
                (crop_again d (insert_nodes ns s).0) a;
          same = λ e c. elim (Bool-cases (site_eq d c)) [
            | inl q ↦
                let z : d ≡ c = eq_of_site_eq d c q in
                let kept : s' ≡ nodes_at d m = ap (crop size d) (f.same e) ∙ crop-nodes_at d m a in
                rw (nodes_at-put_site c d s' m, q) (subst (λ x. s' ≡ nodes_at x m) z kept)
            | inr q ↦ rw (nodes_at-put_site c d s' m, q) refl
          ];
          more = elim (Bool-cases (insert_nodes ns s).1) [
            | inl e ↦
                let here : rank (nodes_at d m) < rank (nodes_at d (put_site d s' m)) =
                  rw (nodes_at-put_site d d s' m, site_eq_self d) (ground (arith, f.more, grows)) in
                rw e (omega (arith, total_from-more D d m (put_site d s' m) i here each))
            | inr e ↦ rw e (omega (arith, total_from-grows D m (put_site d s' m) each))
          ];
        })

    merge_entry-Merged :
        (d : DefSite) (s : NodesSet) (m : RdMap)
        → is_site d D ≡ true
        → IsNodesSet s
        → IsMap m
        → Merged m (merge_entry o (d, s) m).0 (merge_entry o (d, s) m).1
    merge_entry-Merged d s m i h a = elim (merge_entry_lem o apart d s m) [
      | inl (v, e) ↦ rw e (Merged-nothing m a)
      | inr e ↦ rw e (merge_into-Merged d s.nodes m i h.1 a)
    ]

    -- Merging another map that is as large at most.
    pub merge-Merged :
        (other m : RdMap) → IsMap other → IsMap m → Merged m (merge o m other).0 (merge o m other).1
    unfolding merge
    merge-Merged [] m h a = Merged-nothing m a
    merge-Merged ((d, s) ∷ other) m (h, hs) a =
        let first = merge_entry-Merged d s m h.0 h.1 a in
        let rest = merge-Merged other (merge_entry o (d, s) m).0 hs first.is_map in
        Merged-then m (merge_entry o (d, s) m).0 (merge o (merge_entry o (d, s) m).0 other).0
          (merge_entry o (d, s) m).1 (merge o (merge_entry o (d, s) m).0 other).1 first rest

  pub total-le : (m : RdMap) → IsMap m → total m ≤ length D * suc M
  total-le m a = go D
    where
      go : (ds : List DefSite) → total_from ds m ≤ length ds * suc M
      go [] = omega arith
      go (d ∷ ds) = ground (arith, rank-le (nodes_at d m) (nodes_at-IsNodesSet d m a), go ds)
