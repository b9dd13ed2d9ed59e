-- ===== src/Samples/Sites.antt =====
-- Definition sites and their maps at concrete inputs:
-- include/dg/analysis/ReachingDefinitions/RDMap.h.
use dg.Base.{ℕ, ◌+◌, ◌≡◌, ◌≢◌, ◌↔◌, ◌⊎◌, true, false, some, [], ◌∷◌, refl, has_elem, arith}
use dg.Offset.{unknown}
use dg.RdMap.{
  DefSite, RdMap, NodesSet, MergeOptions, skip, strong_update, overwrites_whole, judge,
  intervals_disjunctive, get, merge, nodes_at,
}
use dg.RdMap.Intervals
use dg.RdMap.Intervals.{HasByte}
use dg.RdMap.StrongUpdate
use dg.RdMap.StrongUpdate.{IsConcrete, Contains, Any}
use dg.RdMap.Lookup
use dg.RdMap.Lookup.{Defines}
use dg.RdMap.Nodes.{knows}
use dg.RdMap.Merge
use dg.RdMap.Merge.{verdict}
use dg.Base.{inl}

intervals_disjunctive_iff_example :
    (intervals_disjunctive 0 4 2 unknown ≡ false) ↔ ((x : ℕ) × HasByte 0 4 x × HasByte 2 unknown x)
intervals_disjunctive_iff_example =
    Intervals.intervals_disjunctive_iff 0 4 2 unknown (omega arith) (omega arith)

abbrev first_bytes : DefSite
first_bytes = record { target = 7; offset = 0; len = 4 }

abbrev all_bytes : DefSite
all_bytes = record { target = 7; offset = 0; len = 8 }

abbrev tail : DefSite
tail = record { target = 7; offset = 2; len = unknown }

judge_first : judge first_bytes (all_bytes ∷ []) ≡ skip
unfolding judge
judge_first = refl

judge-Contains_example : Any (Contains first_bytes) (all_bytes ∷ [])
judge-Contains_example =
    StrongUpdate.judge-Contains first_bytes (all_bytes ∷ []) (omega arith, omega arith, omega arith)
      ((omega arith, omega arith, omega arith), tt) judge_first

judge_wraps_example :
    (judge tail (all_bytes ∷ []) ≡ skip) × HasByte 2 unknown (0 + 8) × (¬ HasByte 0 8 (0 + 8))
judge_wraps_example =
    StrongUpdate.judge_wraps tail all_bytes [] (omega arith) (omega arith) (omega arith)
      (omega arith) (omega arith) (omega arith) (omega arith)

abbrev one_node : NodesSet
one_node = record { nodes = 3 ∷ []; is_unknown_set = false }

abbrev other_node : NodesSet
other_node = record { nodes = 4 ∷ []; is_unknown_set = false }

abbrev one_site : RdMap
one_site = (first_bytes, one_node) ∷ []

abbrev other_site : RdMap
other_site = (all_bytes, other_node) ∷ []

get_iff_example :
    (has_elem 3 (get tail one_site []) ≡ true) ↔ ((has_elem 3 [] ≡ true) ⊎ Defines tail 3 one_site)
get_iff_example = Lookup.get_iff tail 3 one_site [] (omega arith) (omega arith, tt)

abbrev options : MergeOptions
options = record {
  info = record { size = λ n. 8; is_dyn_alloc = λ n. false };
  no_update = some (all_bytes ∷ []);
  strong_update_unknown = true;
  max_set_size = unknown;
  merge_unknown = false;
}

-- A site that the write to all bytes does not overwrite.
abbrev next_bytes : DefSite
next_bytes = record { target = 7; offset = 6; len = 4 }

kept : verdict options next_bytes ≢ skip
unfolding strong_update judge overwrites_whole
kept = λ e. cc

merge_new_example :
    knows (nodes_at next_bytes (merge options one_site ((next_bytes, other_node) ∷ [])).0) 4 ≡ true
merge_new_example =
    Merge.merge_new options refl ((next_bytes, other_node) ∷ []) one_site next_bytes other_node 4
      (inl refl) kept refl
