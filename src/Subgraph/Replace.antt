-- ===== src/Subgraph/Replace.antt =====
-- SubgraphNode.h: `replaceAllUsesWith`.
use dg.Base.{ℕ, ◌+◌, ◌≡◌, ◌≢◌, refl, ap, Bool, false, ◌||◌, ◌&&◌, List, [], ◌∷◌}
use dg.Base.{
  ◌==◌, if◌then◌else◌, has_elem, count, has_elem-count, replace, arith, Bool-cases, inl, inr,
}
use dg.Base.Sets.{has_elem-insert}
use dg.Subgraph.{
  put_at, Subgraph, set_of, remove_duplicit_operands, replace_operand, replace_use, replace_uses,
  replace_all_uses_with,
}
use dg.Subgraph.Users.{UsersMirror, UsersMirrorBut, users-add_user, operands-add_user}

has_elem-set_of : (a : ℕ) (xs : List ℕ) → has_elem a (set_of xs) ≡ has_elem a xs
has_elem-set_of a [] = refl
has_elem-set_of a (x ∷ xs) = ground (arith, has_elem-insert x a (set_of xs), has_elem-set_of a xs)

operands-remove_duplicit_operands :
    (n : ℕ) (g : Subgraph) (a u : ℕ)
    → has_elem a ((remove_duplicit_operands n g).0.operands u) ≡ has_elem a (g.operands u)
unfolding remove_duplicit_operands
operands-remove_duplicit_operands n g a u = ground (arith, has_elem-set_of a (g.operands n))

users-remove_duplicit_operands :
    (n : ℕ) (g : Subgraph) → (remove_duplicit_operands n g).0.users ≡ g.users
unfolding remove_duplicit_operands
users-remove_duplicit_operands n g = ground arith

has_elem-replace :
    (a b c : ℕ) (xs : List ℕ)
    → a ≢ b
    → has_elem c (replace a b xs)
      ≡ (if c == a then false else if c == b then has_elem b xs || has_elem a xs else has_elem c xs)
has_elem-replace a b c [] h = ground arith
has_elem-replace a b c (x ∷ xs) h = ground (arith, has_elem-replace a b c xs h)

module _ (n new : ℕ) (apart : n ≢ new) where
  operands-replace_operand :
      (user : ℕ) (g : Subgraph) (a u : ℕ)
      → has_elem a ((replace_operand n new user g).operands u)
        ≡ has_elem a (if user == u then replace n new (g.operands u) else g.operands u)
  unfolding replace_operand
  operands-replace_operand user g a u =
      let ops = record g { operands = put_at g.operands user (replace n new (g.operands user)) } in
      ground (
        arith,
        ap (λ s. has_elem a (s u)) (operands-add_user new user ops),
        has_elem-replace n new a (g.operands u) apart,
      )

  users-replace_operand :
      (user : ℕ) (g : Subgraph) (a u : ℕ)
      → count u ((replace_operand n new user g).users a)
        ≡ count u (g.users a)
          + (if new == a && (user == u && (has_elem n (g.operands u) && count u (g.users a) == 0))
              then 1
              else 0)
  unfolding replace_operand
  users-replace_operand user g a u =
      let ops = record g { operands = put_at g.operands user (replace n new (g.operands user)) } in
      ground (arith, users-add_user new user a u ops)

  module _ (remove_dupl : Bool) where
    operands-replace_use :
        (user : ℕ) (g : Subgraph) (a u : ℕ)
        → has_elem a ((replace_use n new remove_dupl user g).operands u)
          ≡ has_elem a (if user == u then replace n new (g.operands u) else g.operands u)
    unfolding replace_use
    operands-replace_use user g a u = ground (
      arith,
      operands-replace_operand user g a u,
      operands-remove_duplicit_operands user (replace_operand n new user g) a u,
    )

    users-replace_use :
        (user : ℕ) (g : Subgraph) (a u : ℕ)
        → count u ((replace_use n new remove_dupl user g).users a)
          ≡ count u (g.users a)
            + (if new == a && (user == u && (has_elem n (g.operands u) && count u (g.users a) == 0))
                then 1
                else 0)
    unfolding replace_use
    users-replace_use user g a u = ground (
      arith,
      users-replace_operand user g a u,
      ap (λ s. count u (s a)) (users-remove_duplicit_operands user (replace_operand n new user g)),
    )

    replace_use-UsersMirrorBut :
        (user : ℕ) (g : Subgraph)
        → UsersMirrorBut n g
        → UsersMirrorBut n (replace_use n new remove_dupl user g)
    replace_use-UsersMirrorBut user g m a u other = ground (
      arith,
      m a u other,
      users-replace_use user g a u,
      operands-replace_use user g a u,
      has_elem-replace n new a (g.operands u) apart,
    )

    replace_uses-UsersMirrorBut :
        (users : List ℕ) (g : Subgraph)
        → UsersMirrorBut n g
        → UsersMirrorBut n (replace_uses n new remove_dupl users g)
    unfolding replace_uses
    replace_uses-UsersMirrorBut [] g m = m
    replace_uses-UsersMirrorBut (user ∷ users) g m =
        replace_uses-UsersMirrorBut users (replace_use n new remove_dupl user g)
          (replace_use-UsersMirrorBut user g m)

    -- A user of the list uses the new node where it used the node, and the others use what they used.
    operands-replace_uses :
        (users : List ℕ) (g : Subgraph) (a u : ℕ)
        → has_elem a ((replace_uses n new remove_dupl users g).operands u)
          ≡ has_elem a (if has_elem u users then replace n new (g.operands u) else g.operands u)
    unfolding replace_uses
    operands-replace_uses [] g a u = refl
    operands-replace_uses (user ∷ users) g a u =
        let rest = replace_use n new remove_dupl user g in
        ground (
          arith,
          operands-replace_uses users rest a u,
          has_elem-replace n new a (rest.operands u) apart,
          operands-replace_use user g a u,
          operands-replace_use user g n u,
          operands-replace_use user g new u,
          has_elem-replace n new a (g.operands u) apart,
          has_elem-replace n new n (g.operands u) apart,
          has_elem-replace n new new (g.operands u) apart,
        )

    replace_all_uses_with-UsersMirror :
        (g : Subgraph) → UsersMirror g → UsersMirror (replace_all_uses_with n new remove_dupl g)
    unfolding replace_all_uses_with
    replace_all_uses_with-UsersMirror g m a u = elim (Bool-cases (n == a)) [
      | inl e ↦
          let z : n ≡ a = ground arith in
          ground (
            arith,
            z,
            operands-replace_uses (g.users n) g n u,
            has_elem-replace n new n (g.operands u) apart,
            has_elem-count u (g.users n),
            m n u,
          )
      | inr e ↦ ground (
        arith,
        e,
        replace_uses-UsersMirrorBut (g.users n) g (λ b v other. m b v) a u
            (λ q. ground (arith, e, q)),
      )
    ]

    operands-replace_all_uses_with :
        (g : Subgraph)
        → UsersMirror g
        → (a u : ℕ)
        → has_elem a ((replace_all_uses_with n new remove_dupl g).operands u)
          ≡ has_elem a (replace n new (g.operands u))
    unfolding replace_all_uses_with
    operands-replace_all_uses_with g m a u = ground (
      arith,
      operands-replace_uses (g.users n) g a u,
      has_elem-replace n new a (g.operands u) apart,
      has_elem-count u (g.users n),
      m n u,
    )

    -- Replacing a node by another one in all its users, where the users are in step with the
    -- operands, leaves them in step, and every node has the operands that it had, with the new node
    -- in the place of the old one; this holds with and without the removal of duplicates.
    pub replace_all_uses_with_lem :
        (g : Subgraph)
        → UsersMirror g
        → UsersMirror (replace_all_uses_with n new remove_dupl g)
          × ((a u : ℕ)
              → has_elem a ((replace_all_uses_with n new remove_dupl g).operands u)
                ≡ has_elem a (replace n new (g.operands u)))
    replace_all_uses_with_lem g m =
        (replace_all_uses_with-UsersMirror g m, operands-replace_all_uses_with g m)
