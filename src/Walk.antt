-- ===== src/Walk.antt =====
-- include/dg/analysis/NodesWalk.h, with include/dg/analysis/BFS.h and the queues of
-- include/dg/ADT/Queue.h. Nodes are numbers, and an edge chooser is the function that gives the
-- successors of a node. `SetVisitTracker` keeps a set of nodes.

pub mod Reach
pub mod Correct
pub mod Distinct
use dg.Base.{
  ℕ, zero, suc, Bool, true, false, Option, none, some, List, [], ◌∷◌, if◌then◌else◌, has_elem,
}
use dg.Base.Sets.{insert}
use dg.Adt.Queue.{Queue}

-- `called` holds the nodes that the callback got, the latest first.
pub record Walk : Type 0 where
  pub queue : List ℕ
  pub visited : List ℕ
  pub called : List ℕ

abbrev pub nothing_done : Walk
nothing_done = record { queue = []; visited = []; called = [] }

module _ (q : Queue) (successors : ℕ → List ℕ) where
  -- `_enqueue`
  unfoldable pub enqueue : ℕ → Walk → Walk
  enqueue n w = record w { queue = q.push n w.queue; visited = insert n w.visited }

  -- The loop of `_run` over the successors of a node.
  unfoldable pub offer : List ℕ → Walk → Walk
  offer [] w = w
  offer (s ∷ ss) w = offer ss (if has_elem s w.visited then w else enqueue s w)

  -- A round of the loop of `_run`, after `current` was popped.
  unfoldable pub round : ℕ → List ℕ → Walk → Walk
  round current rest w =
      offer (successors current) (record w { queue = rest; called = current ∷ w.called })

  -- `_run`. `none` means that the fuel ran out.
  unfoldable pub run_loop : ℕ → Walk → Option Walk
  run_loop zero w = elim w.queue [ [] ↦ some w | _ ∷ _ ↦ none ]
  run_loop (suc fuel) w = elim w.queue [
    | [] ↦ some w
    | current ∷ rest ↦ run_loop fuel (round current rest w)
  ]

  -- The loop of `run` over the start nodes, which are not looked up before they are queued.
  unfoldable pub enqueue_all : List ℕ → Walk → Walk
  enqueue_all [] w = w
  enqueue_all (n ∷ ns) w = enqueue_all ns (enqueue n w)

  -- `run` on a container of start nodes; on one node it is `run` on its singleton.
  unfoldable pub run : ℕ → List ℕ → Option Walk
  run fuel starts = run_loop fuel (enqueue_all starts nothing_done)
