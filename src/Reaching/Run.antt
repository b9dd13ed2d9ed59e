-- ===== src/Reaching/Run.antt =====
-- ReachingDefinitions.cpp: `run` ends, and what holds then.
use dg.Base.{
  ℕ, zero, suc, ◌+◌, ◌*◌, ◌≤◌, ◌<◌, ◌≡◌, refl, sym, ◌∙◌, ap, subst, true, ◌||◌, some, List, [], ◌∷◌,
  ltb, ◌⊎◌, ◌↔◌, has_elem, has_elem-count, count, length, arith, reverse_onto, Bool-cases,
  List-cases, inl, inr,
}
use mathlib.Core.Logic.{∥∥₁_elim}
use mathlib.Core.Bool.{So-prop}
use dg.Adt.Queue.{fifo}
use dg.Walk
use dg.Walk.Reach.{Reach, Reach-lt, begin, step}
use dg.Walk.Correct.{run-Finishes}
use dg.Walk.Distinct.{Distinct, length-Distinct, run-Distinct}
use dg.Subgraph.Edges.{Mirrors}
use dg.RdMap.{DefSite, nodes_at}
use dg.RdMap.Nodes.{knows}
use dg.Reaching.{Analysis, State, iterate, process_node, get_nodes, run_rounds, run}
use dg.Reaching.Process.{iterate_old}
use dg.Reaching.Growth.{IsState, any_of, sum_all, sum_all-le, iterate-Moved}
use dg.Reaching.Rounds.{HasAll, iterate-HasAll}

count-reverse_onto :
    (v : ℕ) (xs ys : List ℕ) → count v (reverse_onto xs ys) ≡ count v xs + count v ys
count-reverse_onto v [] ys = omega arith
count-reverse_onto v (x ∷ xs) ys = omega (arith, count-reverse_onto v xs (x ∷ ys))

has_elem-reverse_onto :
    (v : ℕ) (xs ys : List ℕ) → has_elem v (reverse_onto xs ys) ≡ (has_elem v xs || has_elem v ys)
has_elem-reverse_onto v [] ys = refl
has_elem-reverse_onto v (x ∷ xs) ys = ground (arith, has_elem-reverse_onto v xs (x ∷ ys))

module _ (A : Analysis) where
  -- The nodes that a round marks are among those that it processed, and not more often.
  count-iterate : (v : ℕ) (ns : List ℕ) (st : State) → count v (iterate A ns st).1 ≤ count v ns
  unfolding iterate
  count-iterate v [] st = omega arith
  count-iterate v (n ∷ ns) st =
      let (st', c) = process_node A n st in
      let rest = count-iterate v ns st' in
      elim (Bool-cases c) [
        | inl e ↦ rw e (omega (arith, rest))
        | inr e ↦ rw e (omega (arith, rest))
      ]

  get_nodes_found :
      (fuel : ℕ) (starts : List ℕ) (w : Walk.Walk)
      → Walk.run fifo A.graph.successors fuel starts ≡ some w
      → get_nodes A fuel starts ≡ some (reverse_onto w.called [])
  unfolding get_nodes
  get_nodes_found fuel starts w e = rw (get_nodes, e) refl

  run_rounds_last :
      (walk_fuel rounds : ℕ) (nodes : List ℕ) (st : State)
      → (iterate A nodes st).1 ≡ []
      → run_rounds A walk_fuel (suc rounds) nodes st ≡ some (iterate A nodes st).0
  unfolding run_rounds
  run_rounds_last walk_fuel rounds nodes st e = rw (run_rounds, e) refl

  run_rounds_more :
      (walk_fuel rounds n : ℕ) (nodes ns next : List ℕ) (st : State)
      → (iterate A nodes st).1 ≡ n ∷ ns
      → get_nodes A walk_fuel (n ∷ ns) ≡ some next
      → run_rounds A walk_fuel (suc rounds) nodes st
        ≡ run_rounds A walk_fuel rounds next (iterate A nodes st).0
  unfolding run_rounds
  run_rounds_more walk_fuel rounds n nodes ns next st e g = rw (run_rounds, e) (rw g refl)

  module _ (N walk_fuel : ℕ) (enough : N + N ≤ walk_fuel)
      (small : (u v : ℕ) → has_elem v (A.graph.successors u) ≡ true → v < N) where
    abbrev From : List ℕ → ℕ → Type 0
    From starts v = Reach fifo A.graph.successors starts v

    From-low :
        (starts : List ℕ)
        → ((v : ℕ) → has_elem v starts ≡ true → v < N)
        → (v : ℕ) → ∥ From starts v ∥₁
        → v < N
    From-low starts low v t =
        let b : ltb v N ≡ true =
          ∥∥₁_elim t (So-prop _)
            λ r. (let l = Reach-lt fifo A.graph.successors starts N low small r in ground arith) in
        ground arith

    record Gathered (starts : List ℕ) : Type 0 where
      nodes : List ℕ
      found : get_nodes A walk_fuel starts ≡ some nodes
      reached : (v : ℕ) → (has_elem v nodes ≡ true) ↔ ∥ From starts v ∥₁
      once : Distinct nodes

    get_nodes-Gathered :
        (starts : List ℕ)
        → Distinct starts
        → ((v : ℕ) → has_elem v starts ≡ true → v < N)
        → Gathered starts
    get_nodes-Gathered starts d low =
        let (w, e, all) =
          run-Finishes fifo A.graph.successors starts N low small walk_fuel
            (omega (arith, length-Distinct N starts d low, enough)) in
        let called = run-Distinct A.graph.successors walk_fuel starts w d e in
        let mirror = λ (v : ℕ). count-reverse_onto v w.called [] in
        record {
          nodes = reverse_onto w.called [];
          found = get_nodes_found walk_fuel starts w e;
          reached = λ v.
              let (to, from) = all v in
              (
                λ t. to (ground (arith, has_elem-reverse_onto v w.called [])),
                λ r. ground (arith, has_elem-reverse_onto v w.called [], from r),
              );
          once = λ v. omega (arith, called v, mirror v);
        }

    module _ (M root : ℕ) (some_node : 0 < M) (D : List DefSite) (low_root : root < N)
        (mirrors : Mirrors A.graph) where
      -- What holds before a round: a node that control reaches is to be processed, or it has all.
      record Ready (nodes : List ℕ) (st : State) : Type 0 where
        low : (v : ℕ) → has_elem v nodes ≡ true → v < N
        once : Distinct nodes
        is_state : IsState A M N some_node D st
        rest : (v : ℕ) → From (root ∷ []) v → (has_elem v nodes ≡ true) ⊎ HasAll A v st

      -- What holds at the end, of the maps at the start and those of the result.
      abbrev pub Solved : State → State → Type 0
      Solved st st' =
          ((v : ℕ) → From (root ∷ []) v → HasAll A v st')
          × ((k x : ℕ) (c : DefSite)
              → knows (nodes_at c (st k).def_map) x ≡ true
              → knows (nodes_at c (st' k).def_map) x ≡ true)

      round-Ready :
          (nodes next : List ℕ) (st : State)
          → Ready nodes st
          → Distinct next
          → ((v : ℕ) → has_elem v next ≡ true → v < N)
          → ((v : ℕ) → (has_elem v next ≡ true) ↔ ∥ From (iterate A nodes st).1 v ∥₁)
          → Ready next (iterate A nodes st).0
      round-Ready nodes next st h once low all = record {
        low = low;
        once = once;
        is_state = (iterate-Moved A M N some_node D nodes st h.low h.is_state).is_state;
        rest = λ v r. elim (Bool-cases (has_elem v next)) [
          | inl e ↦ inl e
          | inr e ↦ inr (
              iterate-HasAll A M N some_node D nodes v st h.low h.is_state (h.rest v r) λ p before.
                elim (Bool-cases (has_elem p (iterate A nodes st).1)) [
                  | inr t ↦ t
                  | inl t ↦
                      let edge : has_elem v (A.graph.successors p) ≡ true = ground (
                        arith,
                        mirrors p v,
                        has_elem-count v (A.graph.successors p),
                        has_elem-count p (A.graph.predecessors v),
                      ) in
                      let found = (all v).1 ∣ step p v (begin p t) edge ∣₁ in cc
                ])
        ];
      }

      run_rounds-Solved :
          (rounds : ℕ) (nodes : List ℕ) (st : State)
          → Ready nodes st
          → N * (length D * suc M) < sum_all A M N some_node D st + rounds
          → (st' : State) × (run_rounds A walk_fuel rounds nodes st ≡ some st') × Solved st st'
      run_rounds-Solved zero nodes st h k =
          absurd (omega (arith, sum_all-le A M N some_node D st h.is_state))
      run_rounds-Solved (suc rounds) nodes st h k =
          let (st', changed) = iterate A nodes st in
          let f = iterate-Moved A M N some_node D nodes st h.low h.is_state in
          elim (List-cases changed) [
            | inl e ↦ (
              st',
              run_rounds_last walk_fuel rounds nodes st e,
              (
                λ v r.
                    iterate-HasAll A M N some_node D nodes v st h.low h.is_state (h.rest v r)
                      λ p before. ap (has_elem p) e,
                λ j x c t. iterate_old A nodes j x c st t,
              ),
            )
            | inr (n, ns, e) ↦
                let again = ap any_of e in
                let once : Distinct changed =
                  λ v. omega (arith, count-iterate v nodes st, h.once v) in
                let low : (v : ℕ) → has_elem v changed ≡ true → v < N = λ v t. h.low v (
                  ground (
                    arith,
                    count-iterate v nodes st,
                    has_elem-count v changed,
                    has_elem-count v nodes,
                  )) in
                let g = get_nodes-Gathered changed once low in
                let ready =
                  round-Ready nodes g.nodes st h g.once
                    (λ v t. From-low changed low v ((g.reached v).0 t)) g.reached in
                let (last, ended, solved) =
                  run_rounds-Solved rounds g.nodes st' ready (ground (arith, f.more, k)) in
                (
                  last,
                  run_rounds_more walk_fuel rounds n nodes ns g.nodes st e
                        (ap (get_nodes A walk_fuel) (sym e) ∙ g.found)
                      ∙ ended,
                  (solved.0, λ j x c t. solved.1 j x c (iterate_old A nodes j x c st t)),
                )
          ]

      run_found :
          (rounds : ℕ) (nodes : List ℕ) (st : State)
          → get_nodes A walk_fuel (root ∷ []) ≡ some nodes
          → run A walk_fuel rounds root st ≡ run_rounds A walk_fuel rounds nodes st
      unfolding run
      run_found rounds nodes st e = rw (run, e) refl

      -- The analysis ends, where all nodes of the graph are below `N`, every edge is mirrored by its
      -- end, the maps at the start have no other sites than those of `D`, and as sets the ascending
      -- lists of nodes below `M`, which is not 0, none of them bigger than the analysis allows, the
      -- walks may take `2 * N` rounds or more, and `run` more than `N * (length D * (M + 1))`. At the
      -- end, every node that control reaches from the root has every definition in the maps of its
      -- predecessors that the strong update with the sites that it overwrites does not leave out,
      -- and no definition of the maps at the start is lost.
      pub run-Solved :
          (rounds : ℕ) (st : State)
          → IsState A M N some_node D st
          → N * (length D * suc M) < rounds
          → (st' : State) × (run A walk_fuel rounds root st ≡ some st') × Solved st st'
      run-Solved rounds st h k =
          let low : (v : ℕ) → has_elem v (root ∷ []) ≡ true → v < N =
            λ v t. (let z : root ≡ v = ground arith in subst (λ u. u < N) z low_root) in
          let g = get_nodes-Gathered (root ∷ []) (λ v. ground arith) low in
          let (st', e, solved) =
            run_rounds-Solved rounds g.nodes st
              (record {
                low = λ v t. From-low (root ∷ []) low v ((g.reached v).0 t);
                once = g.once;
                is_state = h;
                rest = λ v r. inl ((g.reached v).1 ∣ r ∣₁);
              })
              (omega (arith, k)) in
          (st', run_found rounds g.nodes st g.found ∙ e, solved)
