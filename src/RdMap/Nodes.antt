-- ===== src/RdMap/Nodes.antt =====
-- `RDNodesSet` of RDMap.h: what a set of nodes knows, and the map from sites to sets.
use dg.Base.{ℕ, ◌≡◌, refl, true, ◌||◌, some, List, [], ◌∷◌, ◌==◌, if◌then◌else◌}
use dg.Base.{has_elem, Bool, arith, Bool-cases, inl, inr}
use dg.Base.Sets.{has_elem-insert}
use dg.RdMap.{
  DefSite, NodesSet, site_eq, insert_node, insert_nodes, find_site, put_site, nodes_at, crop, RdMap,
}

-- The set has the node, or stands for every node.
abbrev pub knows : NodesSet → ℕ → Bool
knows s n = s.is_unknown_set || has_elem n s.nodes

pub knows-insert_node_self : (n : ℕ) (s : NodesSet) → knows (insert_node n s).0 n ≡ true
unfolding insert_node
knows-insert_node_self n s = ground (arith, has_elem-insert n n s.nodes)

pub knows-insert_node :
    (k n : ℕ) (s : NodesSet) → knows s n ≡ true → knows (insert_node k s).0 n ≡ true
unfolding insert_node
knows-insert_node k n s h = ground (arith, has_elem-insert k n s.nodes)

pub knows-insert_nodes_old :
    (ns : List ℕ) (n : ℕ) (s : NodesSet) → knows s n ≡ true → knows (insert_nodes ns s).0 n ≡ true
unfolding insert_nodes
knows-insert_nodes_old [] n s h = h
knows-insert_nodes_old (k ∷ ns) n s h =
    knows-insert_nodes_old ns n (insert_node k s).0 (knows-insert_node k n s h)

pub knows-insert_nodes :
    (ns : List ℕ) (n : ℕ) (s : NodesSet)
    → has_elem n ns ≡ true
    → knows (insert_nodes ns s).0 n ≡ true
unfolding insert_nodes
knows-insert_nodes [] n s h = cc
knows-insert_nodes (k ∷ ns) n s h = elim (Bool-cases (k == n)) [
  | inl e ↦
      let z : k ≡ n = ground arith in
      knows-insert_nodes_old ns n (insert_node k s).0 (rw z (knows-insert_node_self n s))
  | inr e ↦ knows-insert_nodes ns n (insert_node k s).0 (ground arith)
]

pub knows-crop :
    (size : ℕ) (d : DefSite) (s : NodesSet) (n : ℕ)
    → knows s n ≡ true
    → knows (crop size d s) n ≡ true
knows-crop size d s n h = ground arith

pub find-put_site :
    (e d : DefSite) (s : NodesSet) (m : RdMap)
    → find_site e (put_site d s m) ≡ (if site_eq d e then some s else find_site e m)
find-put_site e d s [] = refl
find-put_site e d s ((c, t) ∷ m) = ground (arith, find-put_site e d s m)

pub nodes_at-put_site :
    (e d : DefSite) (s : NodesSet) (m : RdMap)
    → nodes_at e (put_site d s m) ≡ (if site_eq d e then s else nodes_at e m)
nodes_at-put_site e d s m = ground (arith, find-put_site e d s m)

pub eq_of_site_eq : (a b : DefSite) → site_eq a b ≡ true → a ≡ b
eq_of_site_eq a b h = ground arith

pub site_eq_self : (a : DefSite) → site_eq a a ≡ true
site_eq_self a = ground arith
