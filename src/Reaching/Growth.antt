-- ===== src/Reaching/Growth.antt =====
-- ReachingDefinitions.cpp: how the maps of all nodes grow when nodes are processed, and what
-- `processNode` says about it.
use dg.Base.{
  ℕ, zero, suc, ◌+◌, ◌*◌, ◌≤◌, ◌<◌, ◌≡◌, refl, sym, ◌∙◌, subst, Bool, true, false, ◌||◌, List, [],
  ◌∷◌, ◌==◌, if◌then◌else◌, has_elem, length, arith, Bool-cases, inl, inr,
}
use dg.RdMap.{DefSite, RdMap, nodes_at}
use dg.RdMap.Growth.{IsMap, total, bit, Merged, Merged-nothing, merge-Merged, total-le}
use dg.Reaching.{
  Analysis, State, with_map, merge_options, merge_from, merge_all, process_node, iterate,
}

abbrev pub any_of : List ℕ → Bool
any_of [] = false
any_of (n ∷ ns) = true

any_of_more :
    (c : Bool) (n : ℕ) (ns : List ℕ) → any_of (if c then n ∷ ns else ns) ≡ (c || any_of ns)
any_of_more true n ns = refl
any_of_more false n ns = refl

module _ (A : Analysis) (M N : ℕ) (some_node : 0 < M) (D : List DefSite) where
  -- The sites of all maps are among `D`, the nodes in them are below `M`, and no set is bigger than
  -- the analysis allows.
  abbrev pub IsState : State → Type 0
  IsState st = (k : ℕ) → IsMap M A.max_set_size some_node D (st k).def_map

  abbrev total_of : RdMap → ℕ
  total_of m = total M A.max_set_size some_node D m

  abbrev sum_below : ℕ → State → ℕ
  sum_below zero st = 0
  sum_below (suc k) st = total_of (st k).def_map + sum_below k st

  sum_below-grows :
      (k : ℕ) (st st' : State)
      → ((j : ℕ) → total_of (st j).def_map ≤ total_of (st' j).def_map)
      → sum_below k st ≤ sum_below k st'
  sum_below-grows zero st st' h = omega arith
  sum_below-grows (suc k) st st' h = omega (arith, h k, sum_below-grows k st st' h)

  sum_below-more :
      (k node x : ℕ) (st st' : State)
      → node < k
      → total_of (st node).def_map + x ≤ total_of (st' node).def_map
      → ((j : ℕ) → total_of (st j).def_map ≤ total_of (st' j).def_map)
      → sum_below k st + x ≤ sum_below k st'
  sum_below-more zero node x st st' l m h = omega arith
  sum_below-more (suc k) node x st st' l m h = elim (Bool-cases (k == node)) [
    | inl e ↦
        let z : node ≡ k = ground arith in
        let here = subst (λ j. total_of (st j).def_map + x ≤ total_of (st' j).def_map) z m in
        omega (arith, here, sum_below-grows k st st' h)
    | inr e ↦ omega (arith, h k, sum_below-more k node x st st' (ground arith) m h)
  ]

  -- All maps together.
  abbrev pub sum_all : State → ℕ
  sum_all st = sum_below N st

  -- What a step says about a change: where it says that there was none, every map has the same sets;
  -- else they grow.
  pub record Moved (st st' : State) (changed : Bool) : Type 0 where
    pub is_state : IsState st'
    pub same :
        changed ≡ false
        → (k : ℕ) (c : DefSite) → nodes_at c (st' k).def_map ≡ nodes_at c (st k).def_map
    pub over : (k : ℕ) → (st' k).overwritten ≡ (st k).overwritten
    pub more : sum_all st + bit changed ≤ sum_all st'

  Moved-nothing : (st : State) → IsState st → Moved st st false
  Moved-nothing st h = record {
    is_state = h;
    same = λ z k c. refl;
    over = λ k. refl;
    more = omega arith;
  }

  Moved-then :
      (st st' st'' : State) (b c : Bool)
      → Moved st st' b
      → Moved st' st'' c
      → Moved st st'' (b || c)
  Moved-then st st' st'' b c f g = record {
    is_state = g.is_state;
    same = λ z k d. g.same (ground arith) k d ∙ f.same (ground arith) k d;
    over = λ k. g.over k ∙ f.over k;
    more = ground (arith, f.more, g.more);
  }

  merge_from-Merged :
      (node n : ℕ) (st : State)
      → IsState st
      → Merged M A.max_set_size some_node D
          (st node).def_map
          (merge_from A node n st).0
          (merge_from A node n st).1
  unfolding merge_from
  merge_from-Merged node n st h = elim (Bool-cases (node == n)) [
    | inl e ↦ rw e (Merged-nothing M A.max_set_size some_node D (st node).def_map (h node))
    | inr e ↦ rw e (
        merge-Merged M A.max_set_size some_node D (merge_options A (st node).overwritten) refl refl
          (st n).def_map (st node).def_map (h n) (h node))
  ]

  with_map-Moved :
      (node : ℕ) (m : RdMap) (changed : Bool) (st : State)
      → node < N
      → IsState st
      → Merged M A.max_set_size some_node D (st node).def_map m changed
      → Moved st (with_map node m st) changed
  with_map-Moved node m changed st low h f = record {
    is_state = λ k. elim (Bool-cases (node == k)) [ inl e ↦ rw e f.is_map | inr e ↦ rw e (h k) ];
    same = λ z k c. elim (Bool-cases (node == k)) [
      | inl e ↦
          let q : node ≡ k = ground arith in
          rw e (subst (λ j. nodes_at c m ≡ nodes_at c (st j).def_map) q (f.same z c))
      | inr e ↦ rw e refl
    ];
    over = λ k. elim (Bool-cases (node == k)) [ inl e ↦ rw e refl | inr e ↦ rw e refl ];
    more =
        sum_below-more N node (bit changed) st (with_map node m st) low
          (let self : (node == node) ≡ true = ground arith in rw self f.more)
          λ j. elim (Bool-cases (node == j)) [
            | inl e ↦
                let q : node ≡ j = ground arith in
                let less : total_of (st node).def_map ≤ total_of m = omega (arith, f.more) in
                rw e (subst (λ i. total_of (st i).def_map ≤ total_of m) q less)
            | inr e ↦ rw e (omega arith)
          ];
  }

  merge_all-Moved :
      (node : ℕ) (ns : List ℕ) (st : State)
      → node < N
      → IsState st
      → Moved st (merge_all A node ns st).0 (merge_all A node ns st).1
  unfolding merge_all
  merge_all-Moved node [] st low h = Moved-nothing st h
  merge_all-Moved node (n ∷ ns) st low h =
      let (m, c) = merge_from A node n st in
      let first = with_map-Moved node m c st low h (merge_from-Merged node n st h) in
      let rest = merge_all-Moved node ns (with_map node m st) low first.is_state in
      Moved-then st (with_map node m st) (merge_all A node ns (with_map node m st)).0 c
        (merge_all A node ns (with_map node m st)).1 first rest

  pub process_node-Moved :
      (node : ℕ) (st : State)
      → node < N
      → IsState st
      → Moved st (process_node A node st).0 (process_node A node st).1
  unfolding process_node
  process_node-Moved node st low h = merge_all-Moved node (A.graph.predecessors node) st low h

  -- A round over the nodes, where a change is that a node is to be processed again.
  pub iterate-Moved :
      (nodes : List ℕ) (st : State)
      → ((v : ℕ) → has_elem v nodes ≡ true → v < N)
      → IsState st
      → Moved st (iterate A nodes st).0 (any_of (iterate A nodes st).1)
  unfolding iterate
  iterate-Moved [] st low h = Moved-nothing st h
  iterate-Moved (n ∷ ns) st low h =
      let (st', c) = process_node A n st in
      let first = process_node-Moved n st (low n (ground arith)) h in
      let rest = iterate-Moved ns st' (λ v t. low v (ground arith)) first.is_state in
      let (st'', changed) = iterate A ns st' in
      subst (Moved st st'') (sym (any_of_more c n changed))
        (Moved-then st st' st'' c (any_of changed) first rest)

  pub sum_all-le : (st : State) → IsState st → sum_all st ≤ N * (length D * suc M)
  sum_all-le st h = go N
    where
      go : (k : ℕ) → sum_below k st ≤ k * (length D * suc M)
      go zero = omega arith
      go (suc k) = ground (arith, total-le M A.max_set_size some_node D (st k).def_map (h k), go k)
