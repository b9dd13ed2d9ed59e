-- ===== src/Slicing/Depends.antt =====
-- The dependences that a slice follows, read off the edges of the dependence graphs, and the walk of
-- Slicing.h along them.
use dg.Base.{
  ℕ, ◌≡◌, ◌∙◌, ap, subst, Bool, true, false, ◌||◌, some, List, [], ◌∷◌, ◌++◌, ◌==◌, ◌⊎◌, ◌↔◌,
  has_elem, arith, inl, inr, Bool-cases, Option-cases, has_elem-append,
}
use mathlib.Core.Bool.{So-prop}
use mathlib.Core.Logic.{∥∥₁_elim}
use dg.Walk.Reach.{Reach}
use dg.Slicing.{
  Dependences, map_all, block_cds, block_rev_cds, edges, entry_of, next_nodes, branchings,
}
use dg.Slicing.Listed.{Leads}

-- The nodes that steps of a relation lead to from given nodes.
pub data Closure (R : ℕ → ℕ → Type 0) (S : ℕ → Type 0) : ℕ → Type 0 where
  from : (v : ℕ) → S v → Closure R S v
  along : (u v : ℕ) → Closure R S u → R u v → Closure R S v

abbrev pub IsNode : ℕ → ℕ → Type 0
IsNode a v = a ≡ v

module _ (D : Dependences) where
  -- What a node depends on: by control, itself or by its block; by data that it reads; as a user; by
  -- interference, either way; and the entry of its graph is kept with it.
  pub data DependsOn (u v : ℕ) : Type 0 where
    by_control : has_elem v (D.rev_control u) ≡ true → DependsOn u v
    by_block :
        (b c : ℕ)
        → D.block u ≡ some b
        → has_elem c (D.rev_control_deps b) ≡ true
        → D.last_node c ≡ v
        → DependsOn u v
    by_data : has_elem v (D.rev_data u) ≡ true → DependsOn u v
    by_use : has_elem v (D.user u) ≡ true → DependsOn u v
    by_interference : has_elem v (D.interference u) ≡ true → DependsOn u v
    by_rev_interference : has_elem v (D.rev_interference u) ≡ true → DependsOn u v
    by_entry : (g : ℕ) → D.graph u ≡ some g → D.entry g ≡ v → DependsOn u v

  -- What depends on a node: by control, itself or as the first node of a block; by data; and by
  -- interference.
  pub data Affects (u v : ℕ) : Type 0 where
    to_control : has_elem v (D.control u) ≡ true → Affects u v
    to_block :
        (b c : ℕ)
        → D.block u ≡ some b
        → has_elem c (D.control_deps b) ≡ true
        → D.first_node c ≡ v
        → Affects u v
    to_data : has_elem v (D.data_deps u) ≡ true → Affects u v
    to_interference : has_elem v (D.interference u) ≡ true → Affects u v

  -- The last nodes of the blocks that the block of a node with the property is control dependent on.
  abbrev pub BranchOf : (ℕ → Type 0) → ℕ → Type 0
  BranchOf P v =
      (u : ℕ) × (b : ℕ) × (c : ℕ) × P u
      × (D.block u ≡ some b)
      × (has_elem c (D.rev_control_deps b) ≡ true)
      × (D.last_node c ≡ v)

search_map :
    (f : ℕ → ℕ) (xs : List ℕ) (v : ℕ)
    → has_elem v (map_all f xs) ≡ true
    → (x : ℕ) × (has_elem x xs ≡ true) × (f x ≡ v)
search_map f [] v h = cc
search_map f (x ∷ xs) v h = elim (Bool-cases (f x == v)) [
  | inl e ↦ (x, ground arith, ground arith)
  | inr e ↦ let (y, t, z) = search_map f xs v (ground arith) in (y, ground arith, z)
]

in_map :
    (f : ℕ → ℕ) (xs : List ℕ) (v x : ℕ)
    → has_elem x xs ≡ true
    → f x ≡ v
    → has_elem v (map_all f xs) ≡ true
in_map f [] v x t e = cc
in_map f (y ∷ xs) v x t e = elim (Bool-cases (y == x)) [
  | inl z ↦ let same : f y ≡ v = ap f (ground arith) ∙ e in ground arith
  | inr z ↦ ground (arith, in_map f xs v x (ground arith) e)
]

module _ (D : Dependences) where
  block_rev_cds-DependsOn :
      (u v : ℕ) → has_elem v (block_rev_cds D (D.block u)) ≡ true → DependsOn D u v
  unfolding block_rev_cds
  block_rev_cds-DependsOn u v h = elim (Option-cases (D.block u)) [
    | inl e ↦ cc (rw e at h)
    | inr (b, e) ↦
        let (c, t, z) = search_map D.last_node (D.rev_control_deps b) v (rw e at h) in
        by_block b c e t z
  ]

  block_cds-Affects : (u v : ℕ) → has_elem v (block_cds D (D.block u)) ≡ true → Affects D u v
  unfolding block_cds
  block_cds-Affects u v h = elim (Option-cases (D.block u)) [
    | inl e ↦ cc (rw e at h)
    | inr (b, e) ↦
        let (c, t, z) = search_map D.first_node (D.control_deps b) v (rw e at h) in
        to_block b c e t z
  ]

  in_either :
      (v : ℕ) (xs ys : List ℕ)
      → has_elem v (xs ++ ys) ≡ true
      → (has_elem v xs ≡ true) ⊎ (has_elem v ys ≡ true)
  in_either v xs ys h = elim (Bool-cases (has_elem v xs)) [
    | inl e ↦ inl e
    | inr e ↦ inr (ground (arith, has_elem-append v xs ys))
  ]

  in_first : (v : ℕ) (xs ys : List ℕ) → has_elem v xs ≡ true → has_elem v (xs ++ ys) ≡ true
  in_first v xs ys h = ground (arith, has_elem-append v xs ys)

  in_rest : (v : ℕ) (xs ys : List ℕ) → has_elem v ys ≡ true → has_elem v (xs ++ ys) ≡ true
  in_rest v xs ys h = ground (arith, has_elem-append v xs ys)

  entry-DependsOn : (u v : ℕ) → has_elem v (entry_of D false (D.graph u)) ≡ true → DependsOn D u v
  unfolding entry_of
  entry-DependsOn u v h = elim (Option-cases (D.graph u)) [
    | inl e ↦ cc (rw e at h)
    | inr (g, e) ↦
        (let t : (D.entry g == v || false) ≡ true = rw e at h in by_entry g e (ground arith))
  ]

  -- A backward walk enqueues what a node depends on.
  next_nodes-DependsOn : (u v : ℕ) → has_elem v (next_nodes D false u) ≡ true → DependsOn D u v
  unfolding next_nodes edges
  next_nodes-DependsOn u v h = elim (in_either v (entry_of D false (D.graph u)) _ h) [
    | inl t ↦ entry-DependsOn u v t
    | inr r ↦ elim (in_either v (D.rev_control u) _ r) [
      | inl t ↦ by_control t
      | inr r1 ↦ elim (in_either v (block_rev_cds D (D.block u)) _ r1) [
        | inl t ↦ block_rev_cds-DependsOn u v t
        | inr r2 ↦ elim (in_either v (D.rev_data u) _ r2) [
          | inl t ↦ by_data t
          | inr r3 ↦ elim (in_either v (D.user u) _ r3) [
            | inl t ↦ by_use t
            | inr r4 ↦ elim (in_either v (D.interference u) _ r4) [
              | inl t ↦ by_interference t
              | inr t ↦ by_rev_interference t
            ]
          ]
        ]
      ]
    ]
  ]

  next_nodes-Affects : (u v : ℕ) → has_elem v (next_nodes D true u) ≡ true → Affects D u v
  unfolding next_nodes edges entry_of
  next_nodes-Affects u v h = elim (in_either v (D.control u) _ h) [
    | inl t ↦ to_control t
    | inr r ↦ elim (in_either v (block_cds D (D.block u)) _ r) [
      | inl t ↦ block_cds-Affects u v t
      | inr r1 ↦ elim (in_either v (D.data_deps u) _ r1) [
        | inl t ↦ to_data t
        | inr t ↦ to_interference t
      ]
    ]
  ]

  DependsOn-next_nodes : (u v : ℕ) → DependsOn D u v → has_elem v (next_nodes D false u) ≡ true
  unfolding next_nodes edges entry_of block_rev_cds
  DependsOn-next_nodes u v (by_control t) =
      in_rest v (entry_of D false (D.graph u)) _ (in_first v (D.rev_control u) _ t)
  DependsOn-next_nodes u v (by_block b c e t z) =
      let here : has_elem v (block_rev_cds D (D.block u)) ≡ true =
        rw (e, block_rev_cds) (in_map D.last_node (D.rev_control_deps b) v c t z) in
      in_rest v (entry_of D false (D.graph u)) _
        (in_rest v (D.rev_control u) _ (in_first v (block_rev_cds D (D.block u)) _ here))
  DependsOn-next_nodes u v (by_data t) = in_rest v (entry_of D false (D.graph u)) _ (
      in_rest v (D.rev_control u) _
        (in_rest v (block_rev_cds D (D.block u)) _ (in_first v (D.rev_data u) _ t)))
  DependsOn-next_nodes u v (by_use t) = in_rest v (entry_of D false (D.graph u)) _ (
      in_rest v (D.rev_control u) _ (
        in_rest v (block_rev_cds D (D.block u)) _
          (in_rest v (D.rev_data u) _ (in_first v (D.user u) _ t))))
  DependsOn-next_nodes u v (by_interference t) = in_rest v (entry_of D false (D.graph u)) _ (
      in_rest v (D.rev_control u) _ (
        in_rest v (block_rev_cds D (D.block u)) _ (
          in_rest v (D.rev_data u) _ (in_rest v (D.user u) _ (in_first v (D.interference u) _ t)))))
  DependsOn-next_nodes u v (by_rev_interference t) = in_rest v (entry_of D false (D.graph u)) _ (
      in_rest v (D.rev_control u) _ (
        in_rest v (block_rev_cds D (D.block u)) _
          (in_rest v (D.rev_data u) _ (in_rest v (D.user u) _ (in_rest v (D.interference u) _ t)))))
  DependsOn-next_nodes u v (by_entry g e z) =
      let here : has_elem v (entry_of D false (D.graph u)) ≡ true =
        rw (e, entry_of) (ground arith) in
      in_first v (entry_of D false (D.graph u)) _ here

  Affects-next_nodes : (u v : ℕ) → Affects D u v → has_elem v (next_nodes D true u) ≡ true
  unfolding next_nodes edges entry_of block_cds
  Affects-next_nodes u v (to_control t) = in_first v (D.control u) _ t
  Affects-next_nodes u v (to_block b c e t z) =
      let here : has_elem v (block_cds D (D.block u)) ≡ true =
        rw (e, block_cds) (in_map D.first_node (D.control_deps b) v c t z) in
      in_rest v (D.control u) _ (in_first v (block_cds D (D.block u)) _ here)
  Affects-next_nodes u v (to_data t) =
      in_rest v (D.control u) _
        (in_rest v (block_cds D (D.block u)) _ (in_first v (D.data_deps u) _ t))
  Affects-next_nodes u v (to_interference t) =
      in_rest v (D.control u) _
        (in_rest v (block_cds D (D.block u)) _ (in_rest v (D.data_deps u) _ t))

  search_branchings :
      (bs : List ℕ) (v : ℕ)
      → has_elem v (branchings D bs) ≡ true
      → (b : ℕ) × (c : ℕ) × (has_elem b bs ≡ true)
        × (has_elem c (D.rev_control_deps b) ≡ true)
        × (D.last_node c ≡ v)
  unfolding branchings
  search_branchings [] v h = cc
  search_branchings (b ∷ bs) v h =
      elim (in_either v (map_all D.last_node (D.rev_control_deps b)) (branchings D bs) h) [
        | inl t ↦
            let (c, t', z) = search_map D.last_node (D.rev_control_deps b) v t in
            (b, c, ground arith, t', z)
        | inr t ↦ let (b', c, t', r, z) = search_branchings bs v t in (b', c, ground arith, r, z)
      ]

  in_branchings :
      (bs : List ℕ) (v b c : ℕ)
      → has_elem b bs ≡ true
      → has_elem c (D.rev_control_deps b) ≡ true
      → D.last_node c ≡ v
      → has_elem v (branchings D bs) ≡ true
  unfolding branchings
  in_branchings [] v b c h t z = cc
  in_branchings (a ∷ bs) v b c h t z =
      let here = map_all D.last_node (D.rev_control_deps a) in
      elim (Bool-cases (a == b)) [
        | inl e ↦
            let same : b ≡ a = ground arith in
            in_first v here (branchings D bs) (
              in_map D.last_node (D.rev_control_deps a) v c
                (subst (λ k. has_elem c (D.rev_control_deps k) ≡ true) same t) z)
        | inr e ↦ in_rest v here (branchings D bs) (in_branchings bs v b c (ground arith) t z)
      ]

  -- The nodes that are kept with a node for a backward slice, and those that it affects.
  abbrev pub Needs : (ℕ → Type 0) → ℕ → Type 0
  Needs S v = Closure (DependsOn D) S v

  abbrev pub IsAffected : ℕ → ℕ → Type 0
  IsAffected start v = Closure (Affects D) (IsNode start) v

  abbrev Starts : List ℕ → (ℕ → Type 0) → Type 0
  Starts starts S = (v : ℕ) → (has_elem v starts ≡ true) ↔ ∥ S v ∥₁

  one-Starts : (start : ℕ) → Starts (start ∷ []) (IsNode start)
  one-Starts start v = (λ h. ∣ ground arith ∣₁, λ t. ∥∥₁_elim t (So-prop _) (λ e. ground arith))

  Leads-Closure :
      (forward : Bool) (R : ℕ → ℕ → Type 0) (starts : List ℕ) (S : ℕ → Type 0)
      → ((u v : ℕ) → has_elem v (next_nodes D forward u) ≡ true → R u v)
      → Starts starts S
      → (v : ℕ) → Leads D forward starts v
      → ∥ Closure R S v ∥₁
  Leads-Closure forward R starts S f b v (Reach.begin w t) =
      ∥∥₁_elim ((b v).0 t) (hlevel) (λ s. ∣ from v s ∣₁)
  Leads-Closure forward R starts S f b v (Reach.step u w r t) =
      ∥∥₁_elim (Leads-Closure forward R starts S f b u r) (hlevel) (λ k. ∣ along u v k (f u v t) ∣₁)

  Closure-Leads :
      (forward : Bool) (R : ℕ → ℕ → Type 0) (starts : List ℕ) (S : ℕ → Type 0)
      → ((u v : ℕ) → R u v → has_elem v (next_nodes D forward u) ≡ true)
      → Starts starts S
      → (v : ℕ) → Closure R S v
      → Leads D forward starts v
  Closure-Leads forward R starts S f b v (from w s) = Reach.begin v ((b v).1 ∣ s ∣₁)
  Closure-Leads forward R starts S f b v (along u w k r) =
      Reach.step u v (Closure-Leads forward R starts S f b u k) (f u v r)

  pub backward_iff :
      (starts : List ℕ) (S : ℕ → Type 0)
      → Starts starts S
      → (v : ℕ) → ∥ Leads D false starts v ∥₁ ↔ ∥ Needs S v ∥₁
  backward_iff starts S b v = (
    λ t. ∥∥₁_elim t (hlevel) (Leads-Closure false (DependsOn D) starts S next_nodes-DependsOn b v),
    λ t.
        ∥∥₁_elim t (hlevel)
          (λ k. ∣ Closure-Leads false (DependsOn D) starts S DependsOn-next_nodes b v k ∣₁),
  )

  pub backward_one_iff :
      (start v : ℕ) → ∥ Leads D false (start ∷ []) v ∥₁ ↔ ∥ Needs (IsNode start) v ∥₁
  backward_one_iff start = backward_iff (start ∷ []) (IsNode start) (one-Starts start)

  pub forward_iff : (start v : ℕ) → ∥ Leads D true (start ∷ []) v ∥₁ ↔ ∥ IsAffected start v ∥₁
  forward_iff start v = (
    λ t. ∥∥₁_elim t (hlevel) (
        Leads-Closure true (Affects D) (start ∷ []) (IsNode start) next_nodes-Affects
          (one-Starts start) v),
    λ t. ∥∥₁_elim t (hlevel) (λ k.
        ∣ Closure-Leads true (Affects D) (start ∷ []) (IsNode start) Affects-next_nodes
          (one-Starts start) v k ∣₁),
  )

  -- The blocks of the affected nodes give the branchings.
  pub branchings_iff :
      (start : ℕ) (blocks : List ℕ)
      → ((b : ℕ)
          → (has_elem b blocks ≡ true)
            ↔ ∥ ((v : ℕ) × Leads D true (start ∷ []) v × (D.block v ≡ some b)) ∥₁)
      → (v : ℕ) → (has_elem v (branchings D blocks) ≡ true) ↔ ∥ BranchOf D (IsAffected start) v ∥₁
  branchings_iff start blocks all v = (
    λ h.
        let (b, c, t, r, z) = search_branchings blocks v h in
        ∥∥₁_elim ((all b).0 t) (hlevel) (λ (u, k, e).
          ∥∥₁_elim ((forward_iff start u).0 ∣ k ∣₁) (hlevel) (λ a. ∣ (u, b, c, a, e, r, z) ∣₁)),
    λ t. ∥∥₁_elim t (So-prop _) (λ (u, b, c, a, e, r, z).
        ∥∥₁_elim ((forward_iff start u).1 ∣ a ∣₁) (So-prop _)
          (λ k. in_branchings blocks v b c ((all b).1 ∣ (u, k, e) ∣₁) r z)),
  )
