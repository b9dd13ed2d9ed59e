-- ===== src/Walk/Reach.antt =====
-- Reachability from the start nodes, and the invariant of the loop of a walk (NodesWalk.h).
use dg.Base.{ℕ, suc, ◌+◌, ◌-◌, ◌≤◌, ◌<◌, ◌≡◌, refl, inl, inr, true, false, ◌||◌}
use dg.Base.{List, [], ◌∷◌, ◌==◌, has_elem, length, Ascends, arith}
use dg.Base.{Bool-cases, subst, ap, ◌∙◌}
use dg.Base.Sets.{has_elem-insert, Ascends-insert, length-insert, length-le}
use dg.Adt.Queue.{Queue}
use dg.Walk.{Walk, enqueue, offer, round}

module _ (q : Queue) (successors : ℕ → List ℕ) (starts : List ℕ) where
  -- The nodes that paths from the start nodes lead to.
  pub data Reach : ℕ → Type 0 where
    begin : (v : ℕ) → has_elem v starts ≡ true → Reach v
    step : (u v : ℕ) → Reach u → has_elem v (successors u) ≡ true → Reach v

  pub record Inv (w : Walk) : Type 0 where
    pub seen_queue : (v : ℕ) → has_elem v w.queue ≡ true → has_elem v w.visited ≡ true
    pub sound : (v : ℕ) → has_elem v w.visited ≡ true → Reach v
    pub split :
        (v : ℕ) → has_elem v w.visited ≡ true → (has_elem v w.queue || has_elem v w.called) ≡ true
    pub seen_called : (v : ℕ) → has_elem v w.called ≡ true → has_elem v w.visited ≡ true
    pub ordered : Ascends 0 w.visited

  pub enqueue-Inv : (n : ℕ) (w : Walk) → Reach n → Inv w → Inv (enqueue q successors n w)
  unfolding enqueue
  enqueue-Inv n w r h = record {
    seen_queue = λ v t.
        ground (arith, q.has_elem-push n v w.queue, has_elem-insert n v w.visited, h.seen_queue v);
    sound = λ v t. elim (Bool-cases (n == v)) [
      | inl e ↦ (let z : n ≡ v = ground arith in subst Reach z r)
      | inr e ↦ h.sound v (ground (arith, has_elem-insert n v w.visited))
    ];
    split = λ v t.
        ground (arith, q.has_elem-push n v w.queue, has_elem-insert n v w.visited, h.split v);
    seen_called = λ v t. ground (arith, has_elem-insert n v w.visited, h.seen_called v);
    ordered = Ascends-insert 0 n w.visited (omega arith) h.ordered;
  }

  pub visited-enqueue :
      (n v : ℕ) (w : Walk)
      → has_elem v (enqueue q successors n w).visited ≡ (n == v || has_elem v w.visited)
  unfolding enqueue
  visited-enqueue n v w = has_elem-insert n v w.visited

  pub called-enqueue : (n : ℕ) (w : Walk) → (enqueue q successors n w).called ≡ w.called
  unfolding enqueue
  called-enqueue n w = refl

  pub work-enqueue :
      (n : ℕ) (w : Walk)
      → has_elem n w.visited ≡ false
      → length (enqueue q successors n w).visited + length w.queue
        ≡ length (enqueue q successors n w).queue + length w.visited
  unfolding enqueue
  work-enqueue n w e = omega (arith, length-insert n w.visited e, q.length-push n w.queue)

  pub queue-enqueue :
      (n : ℕ) (w : Walk) → length (enqueue q successors n w).queue ≡ suc (length w.queue)
  unfolding enqueue
  queue-enqueue n w = q.length-push n w.queue

  pub record Offered (ss : List ℕ) (w w' : Walk) : Type 0 where
    pub inv : Inv w'
    pub visited_eq : (v : ℕ) → has_elem v w'.visited ≡ (has_elem v ss || has_elem v w.visited)
    pub called_eq : w'.called ≡ w.called
    pub work : length w'.visited + length w.queue ≡ length w'.queue + length w.visited

  pub offer-Offered :
      (ss : List ℕ) (w : Walk)
      → ((v : ℕ) → has_elem v ss ≡ true → Reach v)
      → Inv w
      → Offered ss w (offer q successors ss w)
  unfolding offer
  offer-Offered [] w r h = record {
    inv = h;
    visited_eq = λ v. refl;
    called_eq = refl;
    work = omega arith;
  }
  offer-Offered (s ∷ ss) w r h = elim (Bool-cases (has_elem s w.visited)) [
    | inl old ↦
        let ih = offer-Offered ss w (λ v t. r v (ground arith)) h in
        rw old (record {
          inv = ih.inv;
          visited_eq = λ v. elim (Bool-cases (s == v)) [
            | inl e ↦
                (let z : s ≡ v = ground arith in
                  ground (arith, ih.visited_eq v, ap (λ u. has_elem u w.visited) z))
            | inr e ↦ ground (arith, ih.visited_eq v)
          ];
          called_eq = ih.called_eq;
          work = ih.work;
        })
    | inr new ↦
        let ih =
          offer-Offered ss (enqueue q successors s w) (λ v t. r v (ground arith))
            (enqueue-Inv s w (r s (ground arith)) h) in
        rw new (record {
          inv = ih.inv;
          visited_eq = λ v. ground (arith, ih.visited_eq v, visited-enqueue s v w);
          called_eq = ih.called_eq ∙ called-enqueue s w;
          work = omega (arith, ih.work, work-enqueue s w new);
        })
  ]

  -- The successors of the nodes that were called were all queued.
  abbrev pub Closed : Walk → Type 0
  Closed w =
      (u v : ℕ)
      → has_elem u w.called ≡ true
      → has_elem v (successors u) ≡ true
      → has_elem v w.visited ≡ true

  round-Inv :
      (current : ℕ) (rest : List ℕ) (w : Walk)
      → w.queue ≡ current ∷ rest
      → Inv w
      → Inv (record w { queue = rest; called = current ∷ w.called })
  round-Inv current rest w e h =
      let in_queue = λ (v : ℕ). ap (has_elem v) e in
      record {
        seen_queue = λ v t. ground (arith, h.seen_queue v, in_queue v);
        sound = h.sound;
        split = λ v t. ground (arith, h.split v, in_queue v);
        seen_called = λ v t. elim (Bool-cases (current == v)) [
          | inl same ↦ h.seen_queue v (ground (arith, in_queue v))
          | inr other ↦ h.seen_called v (ground arith)
        ];
        ordered = h.ordered;
      }

  pub round-Closed :
      (current : ℕ) (rest : List ℕ) (w : Walk)
      → w.queue ≡ current ∷ rest
      → Inv w
      → Closed w
      → Offered
          (successors current)
          (record w { queue = rest; called = current ∷ w.called })
          (round q successors current rest w)
        × Closed (round q successors current rest w)
  unfolding round
  round-Closed current rest w e h c =
      let before = record w { queue = rest; called = current ∷ w.called } in
      let from_here : Reach current =
        h.sound current (h.seen_queue current (ground (arith, ap (has_elem current) e))) in
      let o =
        offer-Offered (successors current) before (λ v t. step current v from_here t)
          (round-Inv current rest w e h) in
      (
        o,
        λ u v t s. elim (Bool-cases (current == u)) [
          | inl same ↦
              let z : current ≡ u = ground arith in
              ground (arith, o.visited_eq v, ap (λ x. has_elem v (successors x)) z)
          | inr other ↦ ground (arith, o.visited_eq v, c u v, ap (has_elem u) o.called_eq)
        ],
      )

  module _ (n : ℕ) (small_starts : (v : ℕ) → has_elem v starts ≡ true → v < n)
      (small_successors : (u v : ℕ) → has_elem v (successors u) ≡ true → v < n) where
    pub Reach-lt : {v : ℕ} → Reach v → v < n
    Reach-lt (begin v t) = small_starts v t
    Reach-lt (step u v r t) = small_successors u v t

    pub visited-le : (w : Walk) → Inv w → length w.visited ≤ n
    visited-le w h =
        omega
          (arith, length-le n 0 w.visited (omega arith) h.ordered (λ v t. Reach-lt (h.sound v t)))

    -- The nodes not visited yet and those in the queue: a round takes one from the queue, and a
    -- node that it queues is visited.
    abbrev pub work : Walk → ℕ
    work w = n - length w.visited + length w.queue

    pub finished :
        (w : Walk)
        → w.queue ≡ []
        → Inv w
        → Closed w
        → ((v : ℕ) → has_elem v starts ≡ true → has_elem v w.visited ≡ true)
        → {v : ℕ} → Reach v
        → has_elem v w.called ≡ true
    finished w e h c s (begin v t) = ground (arith, h.split v (s v t), ap (has_elem v) e)
    finished w e h c s (step u v r t) =
        ground (arith, h.split v (c u v (finished w e h c s r) t), ap (has_elem v) e)
