-- ===== src/RdMap/Update.antt =====
-- `add` and `update` of BasicRDMap.cpp, by what each site knows.
use dg.Base.{ℕ, ◌≡◌, ◌||◌, ◌&&◌, ◌==◌, if◌then◌else◌, arith, Bool-cases, inl, inr, ap, refl}
use dg.Base.Sets.{has_elem-insert}
use dg.RdMap.{
  DefSite, RdMap, NodesSet, site_eq, nodes_at, insert_node, no_nodes, unknown_memory, add, update,
}
use dg.RdMap.Nodes.{knows, nodes_at-put_site, eq_of_site_eq}

knows-insert_node_iff :
    (n k : ℕ) (s : NodesSet)
    → knows (insert_node n s).0 k ≡ (n == k || n == unknown_memory || knows s k)
unfolding insert_node
knows-insert_node_iff n k s = ground (arith, has_elem-insert n k s.nodes)

-- After an addition a site knows the nodes that it knew, the site of the addition also the node that
-- was added, and every node if that one stands for the unknown memory.
pub knows-add :
    (d e : DefSite) (n k : ℕ) (m : RdMap)
    → knows (nodes_at e (add d n m).0) k
      ≡ (site_eq d e && (n == k || n == unknown_memory) || knows (nodes_at e m) k)
unfolding add
knows-add d e n k m = elim (Bool-cases (site_eq d e)) [
  | inl t ↦
      let z : d ≡ e = eq_of_site_eq d e t in
      rw (nodes_at-put_site e d (insert_node n (nodes_at d m)).0 m, t)
        (ground (arith, knows-insert_node_iff n k (nodes_at d m), ap (λ x. nodes_at x m) z))
  | inr t ↦ rw (nodes_at-put_site e d (insert_node n (nodes_at d m)).0 m, t) refl
]

-- After an update the site knows the node alone, or every node if that one stands for the unknown
-- memory; all other sites know what they knew.
pub knows-update :
    (d e : DefSite) (n k : ℕ) (m : RdMap)
    → knows (nodes_at e (update d n m).0) k
      ≡ (if site_eq d e then n == k || n == unknown_memory else knows (nodes_at e m) k)
unfolding update
knows-update d e n k m = elim (Bool-cases (site_eq d e)) [
  | inl t ↦
      rw (nodes_at-put_site e d (insert_node n no_nodes).0 m, t)
        (ground (arith, knows-insert_node_iff n k no_nodes))
  | inr t ↦ rw (nodes_at-put_site e d (insert_node n no_nodes).0 m, t) refl
]
