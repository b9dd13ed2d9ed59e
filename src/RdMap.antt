-- ===== src/RdMap.antt =====
-- include/dg/analysis/ReachingDefinitions/RDMap.h and
-- lib/analysis/ReachingDefinitions/BasicRDMap.cpp: definition sites, sets of defining nodes and the
-- map from the sites to the sets. Nodes are numbers; what the map asks of a node is a `NodeInfo`.
pub mod Intervals
pub mod Nodes
pub mod Lookup
pub mod Merge
pub mod StrongUpdate
pub mod Update
pub mod Growth
use dg.Base.{
  ℕ, ◌+◌, ◌-◌, ◌%◌, ◌^◌, ◌++◌, Bool, true, false, not, ◌&&◌, ◌||◌, Option, none, some, List, [],
  ◌∷◌,
}
use dg.Base.{ltb, leb, ◌==◌, if◌then◌else◌, has_elem, length}
use dg.Base.Sets.{insert}
use dg.Offset.{Offset, unknown, is_unknown}

-- `intervalsDisjunctive`
unfoldable pub intervals_disjunctive : ℕ → ℕ → ℕ → ℕ → Bool
intervals_disjunctive a a_len b b_len =
    if a_len == unknown
    then (if b_len == unknown then false else if leb a b then false else leb b_len (a - b))
    else if b_len == unknown
    then (if leb a b then leb a_len (b - a) else false)
    else if leb a b
    then leb a_len (b - a)
    else leb b_len (a - b)

-- `intervalsOverlap`
unfoldable pub intervals_overlap : ℕ → ℕ → ℕ → ℕ → Bool
unfolding intervals_disjunctive
intervals_overlap a1 a2 b1 b2 = not (intervals_disjunctive a1 a2 b1 b2)

-- `GenericDefSite`
pub record DefSite : Type 0 where
  pub target : ℕ
  pub offset : Offset
  pub len : Offset

-- `operator==` and `operator<` of `GenericDefSite`
abbrev pub site_eq : DefSite → DefSite → Bool
site_eq a b = a.target == b.target && a.offset == b.offset && a.len == b.len

abbrev pub site_lt : DefSite → DefSite → Bool
site_lt a b =
    if a.target == b.target
    then (if a.offset == b.offset then ltb a.len b.len else ltb a.offset b.offset)
    else ltb a.target b.target

-- The node `UNKNOWN_MEMORY`.
abbrev pub unknown_memory : ℕ
unknown_memory = 0

-- `RDNodesSet`
pub record NodesSet : Type 0 where
  pub nodes : List ℕ
  pub is_unknown_set : Bool

abbrev pub no_nodes : NodesSet
no_nodes = record { nodes = []; is_unknown_set = false }

-- `makeUnknown`
abbrev pub make_unknown : NodesSet
make_unknown = record { nodes = unknown_memory ∷ []; is_unknown_set = true }

-- `RDNodesSet::insert`: the new set, and whether it changed.
unfoldable pub insert_node : ℕ → NodesSet → NodesSet × Bool
insert_node n s =
    if s.is_unknown_set
    then (s, false)
    else if n == unknown_memory
    then (make_unknown, true)
    else (record s { nodes = insert n s.nodes }, not (has_elem n s.nodes))

-- The loops that insert all nodes of another set.
unfoldable pub insert_nodes : List ℕ → NodesSet → NodesSet × Bool
insert_nodes [] s = (s, false)
insert_nodes (n ∷ ns) s =
    let (s', changed) = insert_node n s in
    let (s'', changed') = insert_nodes ns s' in (s'', changed || changed')

abbrev pub RdMap : Type 0
RdMap = List (DefSite × NodesSet)

-- `_defs.find`
abbrev pub find_site : DefSite → RdMap → Option NodesSet
find_site d [] = none
find_site d ((c, s) ∷ m) = if site_eq c d then some s else find_site d m

-- A write to `_defs[d]`, which keeps the order of the sites.
abbrev pub put_site : DefSite → NodesSet → RdMap → RdMap
put_site d s [] = (d, s) ∷ []
put_site d s ((c, t) ∷ m) =
    if site_lt d c
    then (d, s) ∷ (c, t) ∷ m
    else if site_eq c d
    then (d, s) ∷ m
    else (c, t) ∷ put_site d s m

-- `_defs[d]`, which is a new empty set where there is none.
abbrev pub nodes_at : DefSite → RdMap → NodesSet
nodes_at d m = elim (find_site d m) [ none ↦ no_nodes | some s ↦ s ]

-- `BasicRDMap::add`
unfoldable pub add : DefSite → ℕ → RdMap → RdMap × Bool
add d n m = let (s, changed) = insert_node n (nodes_at d m) in (put_site d s m, changed)

-- `BasicRDMap::update`
unfoldable pub update : DefSite → ℕ → RdMap → RdMap × Bool
update d n m =
    let old = nodes_at d m in
    (
      put_site d (insert_node n no_nodes).0 m,
      not (has_elem n old.nodes) || ltb 1 (length old.nodes),
    )

-- The test of the loops of `get`: an entry of the object is taken where its bytes may be asked for.
unfoldable pub is_relevant : DefSite → DefSite → Bool
unfolding intervals_overlap
is_relevant d c =
    if is_unknown d.offset
    then true
    else is_unknown c.offset || intervals_overlap c.offset c.len d.offset d.len

abbrev pub insert_all : List ℕ → List ℕ → List ℕ
insert_all [] ret = ret
insert_all (n ∷ ns) ret = insert_all ns (insert n ret)

-- `BasicRDMap::get`: the set `ret` with the nodes that were found. `getObjectRange` is the entries
-- with the same target, which lie side by side.
unfoldable pub get : DefSite → RdMap → List ℕ → List ℕ
unfolding is_relevant
get d [] ret = ret
get d ((c, s) ∷ m) ret =
    get d m (if c.target == d.target && is_relevant d c then insert_all s.nodes ret else ret)

-- What `merge` asks of the node that stands for the memory: its size, and whether its type is
-- DYN_ALLOC.
pub record NodeInfo : Type 0 where
  pub size : ℕ → ℕ
  pub is_dyn_alloc : ℕ → Bool

-- The first loop over `no_update`: one write overwrites the whole memory.
unfoldable pub overwrites_whole : NodeInfo → DefSite → List DefSite → Bool
overwrites_whole info d [] = false
overwrites_whole info d (c ∷ cs) =
    c.target == d.target && c.offset == 0 && leb (info.size d.target) c.len
    || overwrites_whole info d cs

-- What the second loop over `no_update` finds first.
pub data Verdict : Type 0 where
  keep keep_as_unknown skip : Verdict

-- The sum of two `uint64_t`.
abbrev pub wrap_add : ℕ → ℕ → ℕ
wrap_add a b = (a + b) % 2 ^ 64

-- The test of the second loop: the write `c` overwrites the definition `d`.
abbrev pub overwrites : DefSite → DefSite → Bool
overwrites c d = leb c.offset d.offset && leb (wrap_add d.offset d.len) (wrap_add c.offset c.len)

-- The second loop over the writes of `no_update` to the same object.
unfoldable pub judge : DefSite → List DefSite → Verdict
judge d [] = keep
judge d (c ∷ cs) =
    let rest = judge d cs in
    if not (c.target == d.target)
    then rest
    else if is_unknown c.offset
    then keep_as_unknown
    else if overwrites c d
    then skip
    else rest

-- The strong update of `merge`: whether a definition is left out, or kept as it is, or kept as one
-- at an unknown offset. Without `no_update` nothing is left out.
unfoldable pub strong_update : NodeInfo → Option (List DefSite) → Bool → DefSite → Verdict
unfolding overwrites_whole judge
strong_update info none strong_update_unknown d =
    if is_unknown d.offset then keep_as_unknown else keep
strong_update info (some no_update) strong_update_unknown d =
    if strong_update_unknown && is_unknown d.offset && ltb 0 (info.size d.target)
    then (if overwrites_whole info d no_update then skip else keep_as_unknown)
    else if info.is_dyn_alloc d.target
    then (if is_unknown d.offset then keep_as_unknown else keep)
    else elim (judge d no_update) [
      | keep ↦ if is_unknown d.offset then keep_as_unknown else keep
      | v ↦ v
    ]

abbrev pub unknown_site : ℕ → DefSite
unknown_site target = record { target = target; offset = unknown; len = unknown }

-- The loop of `merge_unknown`: the nodes of all other sites of the object, and the map without
-- those sites.
unfoldable pub gather : ℕ → RdMap → List ℕ × RdMap
gather target [] = ([], [])
gather target ((c, s) ∷ m) =
    let (ns, rest) = gather target m in
    if c.target == target && not (site_eq c (unknown_site target))
    then (s.nodes ++ ns, rest)
    else (ns, (c, s) ∷ rest)

-- The set of the site is cropped if it is too big.
abbrev pub crop : ℕ → DefSite → NodesSet → NodesSet
crop max_set_size d s =
    if not (d.target == unknown_memory) && ltb max_set_size (length s.nodes)
    then make_unknown
    else s

-- The options of `merge` that stay the same in its loop.
pub record MergeOptions : Type 0 where
  pub info : NodeInfo
  pub no_update : Option (List DefSite)
  pub strong_update_unknown : Bool
  pub max_set_size : ℕ
  pub merge_unknown : Bool

-- The end of a round of `merge`: the nodes of the other map go to the set of the site `d`.
unfoldable pub merge_into : MergeOptions → DefSite → DefSite → List ℕ → RdMap → RdMap × Bool
unfolding insert_nodes
merge_into o d site ns m =
    let (s, changed) = insert_nodes ns (nodes_at site m) in
    (put_site site (crop o.max_set_size d s) m, changed)

-- A round of `merge`, for one entry of the other map.
unfoldable pub merge_entry : MergeOptions → DefSite × NodesSet → RdMap → RdMap × Bool
unfolding strong_update merge_into gather
merge_entry o (d, s) m = elim (strong_update o.info o.no_update o.strong_update_unknown d) [
  | skip ↦ (m, false)
  | keep ↦ merge_into o d d s.nodes m
  | keep_as_unknown ↦
      if o.merge_unknown
      then (let (ns, rest) = gather d.target m in
          let (s', changed) = insert_nodes ns (nodes_at (unknown_site d.target) m) in
          let (m', changed') =
            merge_into o d (unknown_site d.target) s.nodes
              (put_site (unknown_site d.target) s' rest) in
          (m', changed || changed'))
      else merge_into o d d s.nodes m
]

-- `BasicRDMap::merge` of another map.
unfoldable pub merge : MergeOptions → RdMap → RdMap → RdMap × Bool
unfolding merge_entry
merge o m [] = (m, false)
merge o m (entry ∷ other) =
    let (m', changed) = merge_entry o entry m in
    let (m'', changed') = merge o m' other in (m'', changed || changed')
