-- ===== src/Reaching/Rounds.antt =====
-- ReachingDefinitions.cpp: after a round of `run` the nodes behind unchanged predecessors have
-- everything that reaches them.
use dg.Base.{
  ℕ, ◌<◌, ◌≡◌, ◌≢◌, refl, sym, ap, subst, Bool, true, false, ◌&&◌, ◌||◌, some, List, [], ◌∷◌, ◌==◌,
  ◌⊎◌, if◌then◌else◌, has_elem, arith, Bool-cases, inl, inr,
}
use dg.RdMap.{DefSite, RdMap, site_eq, nodes_at, skip, strong_update}
use dg.RdMap.Nodes.{knows, eq_of_site_eq}
use dg.RdMap.Merge.{IsEntry}
use dg.Reaching.{Analysis, State, process_node, iterate}
use dg.Reaching.Process.{process_node_new, process_node_other}
use dg.Reaching.Growth.{IsState, process_node-Moved}

-- A set with a node in it is an entry of the map.
IsEntry-nodes_at :
    (d : DefSite) (x : ℕ) (m : RdMap)
    → has_elem x (nodes_at d m).nodes ≡ true
    → IsEntry d (nodes_at d m) m
IsEntry-nodes_at d x [] h = cc
IsEntry-nodes_at d x ((c, s) ∷ m) h = elim (Bool-cases (site_eq c d)) [
  | inl e ↦ let z : c ≡ d = eq_of_site_eq c d e in rw (nodes_at, e) (inl (ap (λ y. (y, s)) (sym z)))
  | inr e ↦
      let same : nodes_at d ((c, s) ∷ m) ≡ nodes_at d m = rw (nodes_at, e) refl in
      let t = subst (λ r. has_elem x r.nodes ≡ true) same h in
      subst (λ r. IsEntry d r ((c, s) ∷ m)) (sym same) (inr (IsEntry-nodes_at d x m t))
]

changed_at :
    (c : Bool) (n p : ℕ) (ns : List ℕ)
    → has_elem p (if c then n ∷ ns else ns) ≡ (c && n == p || has_elem p ns)
changed_at true n p ns = refl
changed_at false n p ns = refl

module _ (A : Analysis) where
  -- The node has every definition in the maps of its predecessors that the strong update with the
  -- sites that it overwrites does not leave out.
  abbrev pub HasAll : ℕ → State → Type 0
  HasAll node st =
      (p x : ℕ) (d : DefSite)
      → has_elem p (A.graph.predecessors node) ≡ true
      → has_elem x (nodes_at d (st p).def_map).nodes ≡ true
      → strong_update A.info (some (st node).overwritten) A.strong_update_unknown d ≢ skip
      → knows (nodes_at d (st node).def_map) x ≡ true

  module _ (M N : ℕ) (some_node : 0 < M) (D : List DefSite) where
    process_node-HasAll :
        (node : ℕ) (st : State)
        → node < N
        → IsState A M N some_node D st
        → HasAll node (process_node A node st).0
    process_node-HasAll node st low h p x d before has kept = elim (Bool-cases (node == p)) [
      | inl e ↦
          let z : node ≡ p = ground arith in
          let here =
            subst (λ j. has_elem x (nodes_at d ((process_node A node st).0 j).def_map).nodes ≡ true)
              (sym z) has in
          ground arith
      | inr e ↦
          let f = process_node-Moved A M N some_node D node st low h in
          let other = process_node_other A node p st e in
          let has' : has_elem x (nodes_at d (st p).def_map).nodes ≡ true =
            subst (λ n. has_elem x (nodes_at d n.def_map).nodes ≡ true) other has in
          process_node_new A node p x d (nodes_at d (st p).def_map) st before e
            (IsEntry-nodes_at d x (st p).def_map has')
            (subst (λ o. strong_update A.info (some o) A.strong_update_unknown d ≢ skip)
              (f.over node) kept)
            has'
    ]

    -- Processing another node that did not change keeps what holds of a node.
    HasAll-other :
        (n node : ℕ) (st : State)
        → n < N
        → IsState A M N some_node D st
        → (n == node) ≡ false
        → (has_elem n (A.graph.predecessors node) ≡ true → (process_node A n st).1 ≡ false)
        → HasAll node st
        → HasAll node (process_node A n st).0
    HasAll-other n node st low h e quiet old p x d before has kept =
        let f = process_node-Moved A M N some_node D n st low h in
        let same = process_node_other A n node st e in
        let has' : has_elem x (nodes_at d (st p).def_map).nodes ≡ true =
          elim (Bool-cases (n == p)) [
            | inl z ↦
                let q : p ≡ n = ground arith in
                let c : (process_node A n st).1 ≡ false =
                  quiet (subst (λ j. has_elem j (A.graph.predecessors node) ≡ true) q before) in
                subst (λ s. has_elem x s.nodes ≡ true) (f.same c p d) has
            | inr z ↦
                subst (λ n. has_elem x (nodes_at d n.def_map).nodes ≡ true)
                  (process_node_other A n p st z) has
          ] in
        subst (λ r. knows (nodes_at d r.def_map) x ≡ true) (sym same)
          (old p x d before has' (
            subst (λ r. strong_update A.info (some r.overwritten) A.strong_update_unknown d ≢ skip)
              same kept))

    -- After a round, a node has all where it was processed or had all before, and no predecessor of
    -- it is to be processed again.
    pub iterate-HasAll :
        (nodes : List ℕ) (node : ℕ) (st : State)
        → ((v : ℕ) → has_elem v nodes ≡ true → v < N)
        → IsState A M N some_node D st
        → ((has_elem node nodes ≡ true) ⊎ HasAll node st)
        → ((p : ℕ)
            → has_elem p (A.graph.predecessors node) ≡ true
            → has_elem p (iterate A nodes st).1 ≡ false)
        → HasAll node (iterate A nodes st).0
    unfolding iterate
    iterate-HasAll [] node st low h (inl t) quiet = cc
    iterate-HasAll [] node st low h (inr t) quiet = t
    iterate-HasAll (n ∷ ns) node st low h start quiet =
        let (st', c) = process_node A n st in
        let low' : n < N = low n (ground arith) in
        let f = process_node-Moved A M N some_node D n st low' h in
        iterate-HasAll ns node st' (λ v t. low v (ground arith)) f.is_state
          (elim (Bool-cases (n == node)) [
            | inl e ↦
                let z : n ≡ node = ground arith in
                inr (subst (λ j. HasAll j st') z (process_node-HasAll n st low' h))
            | inr e ↦ elim start [
              | inl t ↦ inl (ground arith)
              | inr t ↦ inr (
                  HasAll-other n node st low' h e
                    (λ before.
                      ground (arith, changed_at c n n (iterate A ns st').1, quiet n before))
                    t)
            ]
          ])
          (λ p before. ground (arith, changed_at c n p (iterate A ns st').1, quiet p before))
