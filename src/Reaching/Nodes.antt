-- ===== src/Reaching/Nodes.antt =====
-- ReachingDefinitions.h: a node after a definition was added to it.
use dg.Base.{ℕ, Bool, true, false, ◌≡◌, List, [], ◌∷◌, ◌||◌, ◌&&◌, ◌==◌, if◌then◌else◌, arith, refl}
use dg.RdMap.{DefSite, site_eq, nodes_at, unknown_memory}
use dg.RdMap.Nodes.{knows}
use dg.RdMap.Update.{knows-update}
use dg.Reaching.{RdNode, insert_site, has_site, add_def, is_overwritten}

has_site-insert_site :
    (e d : DefSite) (ds : List DefSite)
    → has_site e (insert_site d ds) ≡ (site_eq d e || has_site e ds)
unfolding has_site insert_site
has_site-insert_site e d [] = refl
has_site-insert_site e d (c ∷ cs) = ground (arith, has_site-insert_site e d cs)

-- After a definition was added to a node, the node's map has the node alone at the site of the
-- definition (or every node, where the node stands for the unknown memory), and what it had at the
-- other sites; the node's definitions gain that site and no other, and so do the sites that it
-- overwrites if the update is strong, which stay as they were if it is not.
pub add_def_lem :
    (this k : ℕ) (d e : DefSite) (strong : Bool) (n : RdNode)
    → (knows (nodes_at e (add_def this d strong n).def_map) k ≡ (
        if site_eq d e
        then this == k || this == unknown_memory
        else knows (nodes_at e n.def_map) k))
      × (has_site e (add_def this d strong n).defs ≡ (site_eq d e || has_site e n.defs))
      × (is_overwritten e (add_def this d strong n) ≡ (strong && site_eq d e || is_overwritten e n))
unfolding add_def is_overwritten
add_def_lem this k d e true n = (
  knows-update d e this k n.def_map,
  has_site-insert_site e d n.defs,
  has_site-insert_site e d n.overwritten,
)
add_def_lem this k d e false n =
    (knows-update d e this k n.def_map, has_site-insert_site e d n.defs, refl)
