-- ===== src/RdMap/Merge.antt =====
-- `merge` of BasicRDMap.cpp: the definitions of both maps after it.
use dg.Base.{ℕ, ◌≡◌, ◌≢◌, refl, true, false, List, [], ◌∷◌}
use dg.Base.{subst, has_elem, Bool-cases, inl, inr, ◌⊎◌}
use dg.RdMap.{
  DefSite, NodesSet, site_eq, insert_nodes, nodes_at, crop, RdMap, Verdict, keep, keep_as_unknown,
  skip, strong_update, MergeOptions, merge_into, merge_entry, merge,
}
use dg.RdMap.Nodes.{
  knows, knows-insert_nodes, knows-insert_nodes_old, knows-crop, nodes_at-put_site, eq_of_site_eq,
  site_eq_self,
}

-- The map has the site `d` with the set `s`.
abbrev pub IsEntry : DefSite → NodesSet → RdMap → Type 0
IsEntry d s [] = ⊥
IsEntry d s (entry ∷ m) = ((d, s) ≡ entry) ⊎ IsEntry d s m

abbrev pub verdict : MergeOptions → DefSite → Verdict
verdict o d = strong_update o.info o.no_update o.strong_update_unknown d

module _ (o : MergeOptions) where
  merge_into_old :
      (d c : DefSite) (ns : List ℕ) (m : RdMap) (n : ℕ)
      → knows (nodes_at c m) n ≡ true
      → knows (nodes_at c (merge_into o d d ns m).0) n ≡ true
  unfolding merge_into
  merge_into_old d c ns m n h = elim (Bool-cases (site_eq d c)) [
    | inl e ↦
        let z : d ≡ c = eq_of_site_eq d c e in
        let old : knows (nodes_at d m) n ≡ true = rw z h in
        rw (nodes_at-put_site c d (crop o.max_set_size d (insert_nodes ns (nodes_at d m)).0) m, e)
          (knows-crop o.max_set_size d (insert_nodes ns (nodes_at d m)).0 n
            (knows-insert_nodes_old ns n (nodes_at d m) old))
    | inr e ↦
        rw (nodes_at-put_site c d (crop o.max_set_size d (insert_nodes ns (nodes_at d m)).0) m, e) h
  ]

  merge_into_new :
      (d : DefSite) (ns : List ℕ) (m : RdMap) (n : ℕ)
      → has_elem n ns ≡ true
      → knows (nodes_at d (merge_into o d d ns m).0) n ≡ true
  unfolding merge_into
  merge_into_new d ns m n h =
      rw
        (
          nodes_at-put_site d d (crop o.max_set_size d (insert_nodes ns (nodes_at d m)).0) m,
          site_eq_self d,
        )
        (knows-crop o.max_set_size d (insert_nodes ns (nodes_at d m)).0 n
          (knows-insert_nodes ns n (nodes_at d m) h))

  module _ (apart : o.merge_unknown ≡ false) where
    -- Without `merge_unknown` an entry is left out or merged into its own site.
    pub merge_entry_lem :
        (d : DefSite) (s : NodesSet) (m : RdMap)
        → (verdict o d ≡ skip) × (merge_entry o (d, s) m ≡ (m, false))
          ⊎ (merge_entry o (d, s) m ≡ merge_into o d d s.nodes m)
    unfolding merge_entry
    merge_entry_lem d s m = go (verdict o d) refl
      where
        go :
            (v : Verdict)
            → verdict o d ≡ v
            → (verdict o d ≡ skip) × (merge_entry o (d, s) m ≡ (m, false))
              ⊎ (merge_entry o (d, s) m ≡ merge_into o d d s.nodes m)
        go keep e = inr (rw (e, merge_entry))
        go keep_as_unknown e = inr (rw (e, merge_entry) (rw apart))
        go skip e = inl (e, rw (e, merge_entry))

    merge_entry_old :
        (d c : DefSite) (s : NodesSet) (m : RdMap) (n : ℕ)
        → knows (nodes_at c m) n ≡ true
        → knows (nodes_at c (merge_entry o (d, s) m).0) n ≡ true
    merge_entry_old d c s m n h = elim (merge_entry_lem d s m) [
      | inl (v, e) ↦ rw e h
      | inr e ↦ rw e (merge_into_old d c s.nodes m n h)
    ]

    -- Without `merge_unknown`, merging another map into a map forgets no node that the map knew at
    -- any site.
    pub merge_old :
        (other : RdMap) (c : DefSite) (m : RdMap) (n : ℕ)
        → knows (nodes_at c m) n ≡ true
        → knows (nodes_at c (merge o m other).0) n ≡ true
    unfolding merge
    merge_old [] c m n h = h
    merge_old ((d, s) ∷ other) c m n h =
        merge_old other c (merge_entry o (d, s) m).0 n (merge_entry_old d c s m n h)

    -- Without `merge_unknown`, merging another map brings in every definition of it that the
    -- strong update does not leave out: its site then has each of its nodes, or stands for every
    -- node.
    pub merge_new :
        (other m : RdMap) (d : DefSite) (s : NodesSet) (n : ℕ)
        → IsEntry d s other
        → verdict o d ≢ skip
        → has_elem n s.nodes ≡ true
        → knows (nodes_at d (merge o m other).0) n ≡ true
    unfolding merge
    merge_new [] m d s n there kept t = absurd there
    merge_new ((c, r) ∷ other) m d s n (inl here) kept t = elim (merge_entry_lem d s m) [
      | inl (v, e) ↦ absurd (kept v)
      | inr e ↦
          let known =
            merge_old other d (merge_entry o (d, s) m).0 n
              (rw e (merge_into_new d s.nodes m n t)) in
          subst (λ x. knows (nodes_at d (merge o (merge_entry o x m).0 other).0) n ≡ true) here
            known
    ]
    merge_new ((c, r) ∷ other) m d s n (inr there) kept t =
        merge_new other (merge_entry o (c, r) m).0 d s n there kept t
