-- ===== src/Subgraph/Users.antt =====
-- SubgraphNode.h: the users of a node and the operands of its users.
use dg.Base.{ℕ, ◌+◌, ◌-◌, ◌≡◌, ◌≢◌, refl, ap, ◌&&◌, List, [], ◌∷◌, ◌++◌}
use dg.Base.{
  ◌==◌, if◌then◌else◌, has_elem, count, count-append, has_elem-append, has_elem-count, arith,
  Bool-cases, inl, inr,
}
use dg.Subgraph.{
  put_at, Subgraph, add_user, erase_first, remove_user, add_operand, remove_users,
  remove_all_operands,
}

-- A node has each node that it is an operand of as a user, once, and no other user.
abbrev pub UsersMirror : Subgraph → Type 0
UsersMirror g = (a u : ℕ) → count u (g.users a) ≡ (if has_elem a (g.operands u) then 1 else 0)

-- The users of all nodes but one mirror the operands.
abbrev pub UsersMirrorBut : ℕ → Subgraph → Type 0
UsersMirrorBut n g =
    (a u : ℕ) → a ≢ n → count u (g.users a) ≡ (if has_elem a (g.operands u) then 1 else 0)

pub users-add_user :
    (n user a u : ℕ) (g : Subgraph)
    → count u ((add_user n user g).users a)
      ≡ count u (g.users a) + (if n == a && (user == u && count u (g.users a) == 0) then 1 else 0)
unfolding add_user
users-add_user n user a u g = elim (Bool-cases (n == a)) [
  | inl e ↦
      let z : n ≡ a = ground arith in
      ground (arith, z, has_elem-count user (g.users n), count-append u (g.users n) (user ∷ []))
  | inr e ↦ ground (arith, e)
]

pub operands-add_user : (n user : ℕ) (g : Subgraph) → (add_user n user g).operands ≡ g.operands
unfolding add_user
operands-add_user n user g = ground arith

-- A new operand knows its user, however often it was an operand before.
pub add_operand-UsersMirror :
    (n operand : ℕ) (g : Subgraph) → UsersMirror g → UsersMirror (add_operand n operand g)
unfolding add_operand
add_operand-UsersMirror n operand g m a u =
    let ops = record g { operands = put_at g.operands n (g.operands n ++ operand ∷ []) } in
    ground (
      arith,
      m a u,
      users-add_user operand n a u ops,
      ap (λ s. has_elem a (s u)) (operands-add_user operand n ops),
      has_elem-append a (g.operands n) (operand ∷ []),
    )

count-erase_first :
    (a b : ℕ) (xs : List ℕ)
    → count b (erase_first a xs) ≡ (if a == b then count b xs - 1 else count b xs)
count-erase_first a b [] = ground arith
count-erase_first a b (x ∷ xs) = ground (arith, count-erase_first a b xs)

users-remove_user :
    (n user a u : ℕ) (g : Subgraph)
    → count u ((remove_user n user g).users a)
      ≡ count u (g.users a) - (if n == a && user == u then 1 else 0)
unfolding remove_user
users-remove_user n user a u g = elim (Bool-cases (n == a)) [
  | inl e ↦ let z : n ≡ a = ground arith in ground (arith, z, count-erase_first user u (g.users n))
  | inr e ↦ ground (arith, e)
]

users-remove_users :
    (n : ℕ) (ops : List ℕ) (g : Subgraph) (a u : ℕ)
    → count u ((remove_users n ops g).users a)
      ≡ count u (g.users a) - (if n == u then count a ops else 0)
unfolding remove_users
users-remove_users n [] g a u = ground arith
users-remove_users n (x ∷ ops) g a u =
    ground (arith, users-remove_users n ops (remove_user x n g) a u, users-remove_user x n a u g)

operands-remove_users :
    (n : ℕ) (ops : List ℕ) (g : Subgraph) → (remove_users n ops g).operands ≡ g.operands
unfolding remove_users remove_user
operands-remove_users n [] g = refl
operands-remove_users n (x ∷ ops) g = operands-remove_users n ops (remove_user x n g)

-- A node without operands is a user of no node, however often each was an operand before.
pub remove_all_operands-UsersMirror :
    (n : ℕ) (g : Subgraph) → UsersMirror g → UsersMirror (remove_all_operands n g)
unfolding remove_all_operands
remove_all_operands-UsersMirror n g m a u = ground (
  arith,
  m a u,
  users-remove_users n (g.operands n) g a u,
  ap (λ s. has_elem a (s u)) (operands-remove_users n (g.operands n) g),
  has_elem-count a (g.operands n),
)
