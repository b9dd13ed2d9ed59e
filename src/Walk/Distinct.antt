-- ===== src/Walk/Distinct.antt =====
-- NodesWalk.h over the queue of a breadth-first walk: no node gets to the callback twice.
use dg.Base.{
  ℕ, zero, suc, ◌+◌, ◌≤◌, ◌<◌, ◌≡◌, refl, sym, ◌∙◌, ap, subst, true, false, none, some, List, [],
  ◌∷◌, ◌==◌, if◌then◌else◌, has_elem, has_elem-count, count, count-append, length, Ascends, arith,
  Bool-cases, List-cases, inl, inr,
}
use dg.Base.Sets.{insert, has_elem-insert, Ascends-insert, length-insert, length-le}
use dg.Adt.Queue.{fifo}
use dg.Walk.{Walk, nothing_done, enqueue, offer, round, run_loop, enqueue_all, run}

-- No number is in the list twice.
abbrev pub Distinct : List ℕ → Type 0
Distinct xs = (v : ℕ) → count v xs ≤ 1

insert_all : List ℕ → List ℕ → List ℕ
insert_all [] out = out
insert_all (x ∷ xs) out = insert_all xs (insert x out)

module _ (n : ℕ) where
  length_inserted :
      (xs out : List ℕ)
      → Distinct xs
      → ((v : ℕ) → has_elem v xs ≡ true → (has_elem v out ≡ false) × (v < n))
      → Ascends 0 out
      → ((v : ℕ) → has_elem v out ≡ true → v < n)
      → length xs + length out ≤ n
  length_inserted [] out d apart a b = omega (arith, length-le n 0 out (omega arith) a b)
  length_inserted (x ∷ xs) out d apart a b =
      let here = apart x (ground arith) in
      let rest =
        length_inserted xs (insert x out) (λ v. omega (arith, d v))
          (λ v t.
            let once = d v in
            (
              ground (arith, has_elem-insert x v out, apart v, has_elem-count v xs),
              (apart v (ground arith)).1,
            ))
          (Ascends-insert 0 x out (omega arith) a)
          (λ v t. ground (arith, has_elem-insert x v out, b v)) in
      omega (arith, rest, length-insert x out here.0)

  pub length-Distinct :
      (xs : List ℕ) → Distinct xs → ((v : ℕ) → has_elem v xs ≡ true → v < n) → length xs ≤ n
  length-Distinct xs d b =
      omega
        (arith, length_inserted xs [] d (λ v t. (refl, b v t)) tt (λ v t. absurd (ground arith)))

module _ (successors : ℕ → List ℕ) where
  -- The nodes that were visited are in the queue or were called, once.
  abbrev Once : Walk → Type 0
  Once w = (v : ℕ) → count v w.queue + count v w.called ≡ (if has_elem v w.visited then 1 else 0)

  enqueue-Once :
      (n : ℕ) (w : Walk)
      → has_elem n w.visited ≡ false
      → Once w
      → Once (enqueue fifo successors n w)
  unfolding enqueue
  enqueue-Once n w new h v = elim (Bool-cases (n == v)) [
    | inl e ↦
        let z : n ≡ v = ground arith in
        ground (
          arith,
          h v,
          count-append v w.queue (n ∷ []),
          has_elem-insert n v w.visited,
          ap (λ u. has_elem u w.visited) z,
        )
    | inr e ↦ ground (arith, h v, count-append v w.queue (n ∷ []), has_elem-insert n v w.visited)
  ]

  offer-Once : (ss : List ℕ) (w : Walk) → Once w → Once (offer fifo successors ss w)
  unfolding offer
  offer-Once [] w h = h
  offer-Once (s ∷ ss) w h = elim (Bool-cases (has_elem s w.visited)) [
    | inl e ↦ rw (offer, e) (offer-Once ss w h)
    | inr e ↦ rw (offer, e) (offer-Once ss (enqueue fifo successors s w) (enqueue-Once s w e h))
  ]

  Once-called : (w : Walk) → Once w → Distinct w.called
  Once-called w h v = ground (arith, h v)

  run_loop-Distinct :
      (fuel : ℕ) (w r : Walk)
      → Once w
      → run_loop fifo successors fuel w ≡ some r
      → Distinct r.called
  unfolding run_loop round
  run_loop-Distinct zero w r h e = elim (List-cases w.queue) [
    | inl q ↦
        let last : run_loop fifo successors zero w ≡ some w = simp (q, run_loop) in
        let z : w ≡ r = cc in subst (λ x. Distinct x.called) z (Once-called w h)
    | inr (n, rest, q) ↦
        let last : run_loop fifo successors zero w ≡ none = rw (q, run_loop) refl in cc
  ]
  run_loop-Distinct (suc fuel) w r h e = elim (List-cases w.queue) [
    | inl q ↦
        let last : run_loop fifo successors (suc fuel) w ≡ some w = simp (q, run_loop) in
        let z : w ≡ r = cc in subst (λ x. Distinct x.called) z (Once-called w h)
    | inr (n, rest, q) ↦
        let before = record w { queue = rest; called = n ∷ w.called } in
        let more : run_loop fifo successors (suc fuel) w
            ≡ run_loop fifo successors fuel (offer fifo successors (successors n) before) =
          rw (q, run_loop) refl in
        run_loop-Distinct fuel (offer fifo successors (successors n) before) r
          (offer-Once (successors n) before (λ v. omega (arith, h v, ap (count v) q)))
          (sym more ∙ e)
  ]

  enqueue_all-Once :
      (ns : List ℕ) (w : Walk)
      → Distinct ns
      → ((v : ℕ) → has_elem v ns ≡ true → has_elem v w.visited ≡ false)
      → Once w
      → Once (enqueue_all fifo successors ns w)
  unfolding enqueue_all enqueue
  enqueue_all-Once [] w d apart h = h
  enqueue_all-Once (n ∷ ns) w d apart h =
      enqueue_all-Once ns (enqueue fifo successors n w) (λ v. omega (arith, d v))
        (λ v t. ground (arith, has_elem-insert n v w.visited, apart v, d v, has_elem-count v ns))
        (enqueue-Once n w (apart n (ground arith)) h)

  pub run-Distinct :
      (fuel : ℕ) (starts : List ℕ) (r : Walk)
      → Distinct starts
      → run fifo successors fuel starts ≡ some r
      → Distinct r.called
  unfolding run
  run-Distinct fuel starts r d e =
      run_loop-Distinct fuel (enqueue_all fifo successors starts nothing_done) r
        (enqueue_all-Once starts nothing_done d (λ v t. refl) (λ v. omega arith)) e
