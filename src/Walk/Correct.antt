-- ===== src/Walk/Correct.antt =====
-- The loop of a walk (NodesWalk.h), its fuel, and the nodes that the callback gets.
use dg.Base.{ℕ, zero, suc, ◌+◌, ◌≤◌, ◌<◌, ◌≡◌, refl, inl, inr, ◌↔◌, true, ◌∙◌}
use dg.Base.{Option, some, List, [], ◌∷◌, has_elem, length, arith, List-cases, ap, ◌||◌}
use mathlib.Core.Bool.{So-prop}
use mathlib.Core.Logic.{∥∥₁_elim}
use dg.Adt.Queue.{Queue}
use dg.Walk.{Walk, nothing_done, enqueue, round, run_loop, enqueue_all, run}
use dg.Walk.Reach.{
  Reach, Inv, Closed, work, round-Closed, visited-le, finished, enqueue-Inv, visited-enqueue,
  called-enqueue, queue-enqueue,
}

module _ (q : Queue) (successors : ℕ → List ℕ) (starts : List ℕ) (n : ℕ)
    (small_starts : (v : ℕ) → has_elem v starts ≡ true → v < n)
    (small_successors : (u v : ℕ) → has_elem v (successors u) ≡ true → v < n) where
  abbrev pub IsInv : Walk → Type 0
  IsInv w =
      Inv q successors starts w
      × Closed q successors starts w
      × ((v : ℕ) → has_elem v starts ≡ true → has_elem v w.visited ≡ true)

  abbrev pub work_left : Walk → ℕ
  work_left w = work q successors starts n small_starts small_successors w

  step-IsInv :
      (current : ℕ) (rest : List ℕ) (w : Walk)
      → w.queue ≡ current ∷ rest
      → IsInv w
      → IsInv (round q successors current rest w)
        × (suc (work_left (round q successors current rest w)) ≤ work_left w)
  step-IsInv current rest w e (h, c, s) =
      let (o, c') = round-Closed q successors starts current rest w e h c in
      (
        (o.inv, c', λ v t. ground (arith, o.visited_eq v, s v)),
        omega (
          arith,
          o.work,
          visited-le q successors starts n small_starts small_successors
              (round q successors current rest w) o.inv,
          visited-le q successors starts n small_starts small_successors w h,
          ap length e,
        ),
      )

  -- The result of a walk.
  abbrev pub Finishes : Option Walk → Type 0
  Finishes r =
      (w : Walk) × (r ≡ some w)
      × ((v : ℕ) → (has_elem v w.called ≡ true) ↔ ∥ Reach q successors starts v ∥₁)

  done : (w : Walk) → w.queue ≡ [] → IsInv w → Finishes (some w)
  done w e (h, c, s) = (
    w,
    refl,
    λ v. (
      λ t. ∣ h.sound v (h.seen_called v t) ∣₁,
      λ r.
          ∥∥₁_elim r (So-prop _)
            (finished q successors starts n small_starts small_successors w e h c s),
    ),
  )

  pub run_loop-Finishes :
      (fuel : ℕ) (w : Walk) → IsInv w → work_left w ≤ fuel → Finishes (run_loop q successors fuel w)
  run_loop-Finishes zero w h k = elim (List-cases w.queue) [
    | inl e ↦ unfold run_loop in rw (e, run_loop) (done w e h)
    | inr (current, rest, e) ↦ absurd (omega (arith, ap length e))
  ]
  run_loop-Finishes (suc fuel) w h k = elim (List-cases w.queue) [
    | inl e ↦ unfold run_loop in rw (e, run_loop) (done w e h)
    | inr (current, rest, e) ↦
        let (h', less) = step-IsInv current rest w e h in
        go current rest e
          (run_loop-Finishes fuel (round q successors current rest w) h' (omega arith))
  ]
    where
      go :
          (current : ℕ) (rest : List ℕ)
          → w.queue ≡ current ∷ rest
          → Finishes (run_loop q successors fuel (round q successors current rest w))
          → Finishes (run_loop q successors (suc fuel) w)
      go current rest e f = unfold run_loop in rw (e, run_loop) f

  record Queued (ns : List ℕ) (w w' : Walk) : Type 0 where
    inv : Inv q successors starts w'
    visited_eq : (v : ℕ) → has_elem v w'.visited ≡ (has_elem v ns || has_elem v w.visited)
    called_eq : w'.called ≡ w.called
    room : length w'.queue ≡ length ns + length w.queue

  enqueue_all-Queued :
      (ns : List ℕ) (w : Walk)
      → ((v : ℕ) → has_elem v ns ≡ true → has_elem v starts ≡ true)
      → Inv q successors starts w
      → Queued ns w (enqueue_all q successors ns w)
  unfolding enqueue_all
  enqueue_all-Queued [] w s h = record {
    inv = h;
    visited_eq = λ v. refl;
    called_eq = refl;
    room = omega arith;
  }
  enqueue_all-Queued (x ∷ ns) w s h =
      let ih =
        enqueue_all-Queued ns (enqueue q successors x w) (λ v t. s v (ground arith))
          (enqueue-Inv q successors starts x w (Reach.begin x (s x (ground arith))) h) in
      record {
        inv = ih.inv;
        visited_eq =
            λ v. ground (arith, ih.visited_eq v, visited-enqueue q successors starts x v w);
        called_eq = ih.called_eq ∙ called-enqueue q successors starts x w;
        room = omega (arith, ih.room, queue-enqueue q successors starts x w);
      }

  pub nothing_done-Inv : Inv q successors starts nothing_done
  nothing_done-Inv = record {
    seen_queue = λ v t. t;
    sound = λ v t. absurd (ground arith);
    split = λ v t. t;
    seen_called = λ v t. t;
    ordered = tt;
  }

  -- Where all start nodes and all successors are numbers below `n`, a walk over any queue ends
  -- within `n` rounds and one for each start node, and calls the callback on exactly the nodes
  -- that the start nodes reach.
  pub run-Finishes : (fuel : ℕ) → n + length starts ≤ fuel → Finishes (run q successors fuel starts)
  run-Finishes fuel k =
      let o = enqueue_all-Queued starts nothing_done (λ v t. t) nothing_done-Inv in
      let all = enqueue_all q successors starts nothing_done in
      let result =
        run_loop-Finishes fuel all
          (
            o.inv,
            λ u v t s. absurd (ground (arith, ap (has_elem u) o.called_eq)),
            λ v t. ground (arith, o.visited_eq v),
          )
          (omega (arith, o.room)) in
      unfold run in result
