-- ===== src/Reaching/Process.antt =====
-- ReachingDefinitions.cpp: what `processNode` and a round over the nodes do to the maps.
use dg.Base.{
  ℕ, true, false, ◌≡◌, ◌≢◌, refl, subst, List, [], ◌∷◌, ◌==◌, arith, some, Bool-cases, inl, inr,
  has_elem, ◌∙◌,
}
use dg.RdMap.{DefSite, NodesSet, nodes_at, skip, strong_update}
use dg.RdMap.Nodes.{knows}
use dg.RdMap.Merge.{IsEntry, merge_old, merge_new}
use dg.Reaching.{
  Analysis, State, with_map, merge_options, merge_from, merge_all, process_node, iterate,
}

-- The map of the node `k` has the node `x` at the site `c`.
abbrev pub KnowsAt : ℕ → DefSite → ℕ → State → Type 0
KnowsAt k c x st = knows (nodes_at c (st k).def_map) x ≡ true

module _ (A : Analysis) where
  merge_from_old :
      (node n x : ℕ) (c : DefSite) (st : State)
      → KnowsAt node c x st
      → knows (nodes_at c (merge_from A node n st).0) x ≡ true
  unfolding merge_from
  merge_from_old node n x c st h = elim (Bool-cases (node == n)) [
    | inl e ↦ rw e h
    | inr e ↦ rw e (
        merge_old (merge_options A (st node).overwritten) refl (st n).def_map c (st node).def_map x
          h)
  ]

  step_old :
      (node n k x : ℕ) (c : DefSite) (st : State)
      → KnowsAt k c x st
      → KnowsAt k c x (with_map node (merge_from A node n st).0 st)
  step_old node n k x c st h = elim (Bool-cases (node == k)) [
    | inl e ↦
        let z : k ≡ node = ground arith in
        rw e (merge_from_old node n x c st (subst (λ j. KnowsAt j c x st) z h))
    | inr e ↦ rw e h
  ]

  merge_all_old :
      (node : ℕ) (ns : List ℕ) (k x : ℕ) (c : DefSite) (st : State)
      → KnowsAt k c x st
      → KnowsAt k c x (merge_all A node ns st).0
  unfolding merge_all
  merge_all_old node [] k x c st h = h
  merge_all_old node (n ∷ ns) k x c st h =
      merge_all_old node ns k x c (with_map node (merge_from A node n st).0 st)
        (step_old node n k x c st h)

  merge_all_other :
      (node : ℕ) (ns : List ℕ) (k : ℕ) (st : State)
      → (node == k) ≡ false
      → (merge_all A node ns st).0 k ≡ st k
  unfolding merge_all
  merge_all_other node [] k st e = refl
  merge_all_other node (n ∷ ns) k st e =
      merge_all_other node ns k (with_map node (merge_from A node n st).0 st) e ∙ rw e refl

  module _ (node p x : ℕ) (d : DefSite) (s : NodesSet) (apart : (node == p) ≡ false)
      (is_in : has_elem x s.nodes ≡ true) where
    -- The map of `p` has the entry, and the node does not overwrite it.
    abbrev Offers : State → Type 0
    Offers st =
        IsEntry d s (st p).def_map
        × (strong_update A.info (some (st node).overwritten) A.strong_update_unknown d ≢ skip)

    Offers-step :
        (n : ℕ) (st : State) → Offers st → Offers (with_map node (merge_from A node n st).0 st)
    Offers-step n st (there, kept) =
        let self : (node == node) ≡ true = ground arith in (rw apart there, rw self kept)

    step_new :
        (st : State) → Offers st → KnowsAt node d x (with_map node (merge_from A node p st).0 st)
    unfolding merge_from
    step_new st (there, kept) =
        let self : (node == node) ≡ true = ground arith in
        rw (self, apart)
          (merge_new (merge_options A (st node).overwritten) refl (st p).def_map (st node).def_map d
            s x there kept is_in)

    merge_all_new :
        (ns : List ℕ) (st : State)
        → has_elem p ns ≡ true
        → Offers st
        → KnowsAt node d x (merge_all A node ns st).0
    unfolding merge_all
    merge_all_new [] st h o = cc
    merge_all_new (n ∷ ns) st h o = elim (Bool-cases (n == p)) [
      | inl e ↦
          let z : p ≡ n = ground arith in
          merge_all_old node ns node x d (with_map node (merge_from A node n st).0 st) (
            subst (λ j. KnowsAt node d x (with_map node (merge_from A node j st).0 st)) z
              (step_new st o))
      | inr e ↦
          merge_all_new ns (with_map node (merge_from A node n st).0 st) (ground arith)
            (Offers-step n st o)
    ]

  -- When a node is processed, every definition in the map of another node that is a predecessor of
  -- it, unless the strong update with the sites that the node overwrites leaves it out, is in the
  -- node's map afterwards: the site has each of its nodes, or stands for every node.
  pub process_node_new :
      (node p x : ℕ) (d : DefSite) (s : NodesSet) (st : State)
      → has_elem p (A.graph.predecessors node) ≡ true
      → (node == p) ≡ false
      → IsEntry d s (st p).def_map
      → strong_update A.info (some (st node).overwritten) A.strong_update_unknown d ≢ skip
      → has_elem x s.nodes ≡ true
      → knows (nodes_at d ((process_node A node st).0 node).def_map) x ≡ true
  unfolding process_node
  process_node_new node p x d s st before apart there kept is_in =
      merge_all_new node p x d s apart is_in (A.graph.predecessors node) st before (there, kept)

  -- Processing a node leaves all other nodes as they are.
  pub process_node_other :
      (node k : ℕ) (st : State) → (node == k) ≡ false → (process_node A node st).0 k ≡ st k
  unfolding process_node
  process_node_other node k st e = merge_all_other node (A.graph.predecessors node) k st e

  -- A round over any nodes forgets no definition: what the map of any node has at any site before
  -- it, the map has there after it.
  pub iterate_old :
      (nodes : List ℕ) (k x : ℕ) (c : DefSite) (st : State)
      → knows (nodes_at c (st k).def_map) x ≡ true
      → knows (nodes_at c ((iterate A nodes st).0 k).def_map) x ≡ true
  unfolding iterate process_node
  iterate_old [] k x c st h = h
  iterate_old (n ∷ nodes) k x c st h =
      iterate_old nodes k x c (process_node A n st).0
        (merge_all_old n (A.graph.predecessors n) k x c st h)
