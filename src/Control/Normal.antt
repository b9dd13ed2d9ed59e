-- ===== src/Control/Normal.antt =====
-- CENode.h: the form of what `simplify` returns.
use dg.Base.{◌≡◌, refl, ap, ap₂, ◌∙◌}
use dg.Control.{
  CeNode, label, seq, branch, loop, eps, CeNodes, nil, cons, CeNodeType, seq_type, branch_type,
  loop_type, append, merged, new_children, simplify, simplify_all,
}

-- A child that `simplify` leaves in a node of the type: no sequence in a sequence or a loop, no
-- empty word in a sequence, and no sequence of one node in a branch.
abbrev pub Allowed : CeNodeType → CeNode → Type 0
Allowed seq_type (seq cs) = ⊥
Allowed seq_type eps = ⊥
Allowed loop_type (seq cs) = ⊥
Allowed t (seq (cons c nil)) = ⊥
Allowed t c = Unit

unfoldable mutual
  -- Every node below this one has only children that are allowed.
  pub IsSimple : CeNode → Type 0
  IsSimple (label l) = Unit
  IsSimple (seq cs) = AllSimple seq_type cs
  IsSimple (branch cs) = AllSimple branch_type cs
  IsSimple (loop cs) = AllSimple loop_type cs
  IsSimple eps = Unit

  pub AllSimple : CeNodeType → CeNodes → Type 0
  AllSimple t nil = Unit
  AllSimple t (cons c cs) = IsSimple c × Allowed t c × AllSimple t cs

Allowed-loop : (c : CeNode) → Allowed seq_type c → Allowed loop_type c
Allowed-loop (label l) a = tt
Allowed-loop (seq cs) a = a
Allowed-loop (branch cs) a = tt
Allowed-loop (loop cs) a = tt
Allowed-loop eps a = tt

Allowed-branch : (c : CeNode) → Allowed seq_type c → Allowed branch_type c
Allowed-branch (label l) a = tt
Allowed-branch (seq cs) a = absurd a
Allowed-branch (branch cs) a = tt
Allowed-branch (loop cs) a = tt
Allowed-branch eps a = tt

AllSimple-loop : (cs : CeNodes) → AllSimple seq_type cs → AllSimple loop_type cs
unfolding IsSimple
AllSimple-loop nil s = tt
AllSimple-loop (cons c cs) (s, a, rest) = (s, Allowed-loop c a, AllSimple-loop cs rest)

AllSimple-append :
    (t : CeNodeType) (cs ds : CeNodes)
    → AllSimple t cs
    → AllSimple t ds
    → AllSimple t (append cs ds)
unfolding IsSimple
AllSimple-append t nil ds s r = r
AllSimple-append t (cons c cs) ds (s, a, rest) r = (s, a, AllSimple-append t cs ds rest r)

merged_seq-AllSimple : (c : CeNode) → IsSimple c → AllSimple seq_type (merged seq_type c)
unfolding IsSimple merged
merged_seq-AllSimple (seq cs) s = s
merged_seq-AllSimple eps s = tt
merged_seq-AllSimple c s = (s, tt, tt)

merged_loop-AllSimple : (c : CeNode) → IsSimple c → AllSimple loop_type (merged loop_type c)
unfolding IsSimple merged
merged_loop-AllSimple (seq cs) s = AllSimple-loop cs s
merged_loop-AllSimple c s = (s, tt, tt)

merged_branch-AllSimple : (c : CeNode) → IsSimple c → AllSimple branch_type (merged branch_type c)
unfolding IsSimple merged
merged_branch-AllSimple (seq (cons c nil)) (s, a, rest) = (s, Allowed-branch c a, tt)
merged_branch-AllSimple c s = (s, tt, tt)

-- Children that are simple, wherever they stand.
abbrev Each : CeNodes → Type 0
unfolding IsSimple
Each nil = Unit
Each (cons c cs) = IsSimple c × Each cs

new_children-AllSimple :
    (t : CeNodeType) (cs : CeNodes)
    → ((c : CeNode) → IsSimple c → AllSimple t (merged t c))
    → Each cs
    → AllSimple t (new_children t cs)
unfolding new_children IsSimple
new_children-AllSimple t nil f e = tt
new_children-AllSimple t (cons c cs) f (s, e) =
    AllSimple-append t (merged t c) (new_children t cs) (f c s) (new_children-AllSimple t cs f e)

mutual
  unfolding simplify IsSimple

  simplify-Is : (c : CeNode) → IsSimple (simplify c)
  simplify-Is (label l) = tt
  simplify-Is (seq cs) =
      new_children-AllSimple seq_type (simplify_all cs) merged_seq-AllSimple (simplify_all-Each cs)
  simplify-Is (branch cs) =
      new_children-AllSimple branch_type (simplify_all cs) merged_branch-AllSimple
        (simplify_all-Each cs)
  simplify-Is (loop cs) =
      new_children-AllSimple loop_type (simplify_all cs) merged_loop-AllSimple
        (simplify_all-Each cs)
  simplify-Is eps = tt

  simplify_all-Each : (cs : CeNodes) → Each (simplify_all cs)
  simplify_all-Each nil = tt
  simplify_all-Each (cons c cs) = (simplify-Is c, simplify_all-Each cs)

merged-Allowed : (t : CeNodeType) (c : CeNode) → Allowed t c → merged t c ≡ cons c nil
unfolding merged
merged-Allowed seq_type (seq cs) a = absurd a
merged-Allowed seq_type eps a = absurd a
merged-Allowed loop_type (seq cs) a = absurd a
merged-Allowed t (seq (cons c nil)) a = absurd a
merged-Allowed t c a = refl

new_children_simple : (t : CeNodeType) (cs : CeNodes) → AllSimple t cs → new_children t cs ≡ cs
unfolding new_children IsSimple
new_children_simple t nil s = refl
new_children_simple t (cons c cs) (s, a, rest) =
    rw (merged-Allowed t c a, new_children_simple t cs rest) refl

mutual
  unfolding simplify IsSimple

  simplify_simple : (c : CeNode) → IsSimple c → simplify c ≡ c
  simplify_simple (label l) s = refl
  simplify_simple (seq cs) s = ap seq (
      ap (new_children seq_type) (simplify_all_simple seq_type cs s)
      ∙ new_children_simple seq_type cs s)
  simplify_simple (branch cs) s = ap branch (
      ap (new_children branch_type) (simplify_all_simple branch_type cs s)
      ∙ new_children_simple branch_type cs s)
  simplify_simple (loop cs) s = ap loop (
      ap (new_children loop_type) (simplify_all_simple loop_type cs s)
      ∙ new_children_simple loop_type cs s)
  simplify_simple eps s = refl

  simplify_all_simple : (t : CeNodeType) (cs : CeNodes) → AllSimple t cs → simplify_all cs ≡ cs
  simplify_all_simple t nil s = refl
  simplify_all_simple t (cons c cs) (s, a, rest) =
      ap₂ cons (simplify_simple c s) (simplify_all_simple t cs rest)

-- What `simplify` returns has, at every depth, no sequence in a sequence or a loop, no empty word in
-- a sequence, and no sequence of one node in any node; to simplify it again changes nothing.
pub simplify-IsSimple : (c : CeNode) → IsSimple (simplify c) × (simplify (simplify c) ≡ simplify c)
simplify-IsSimple c = (simplify-Is c, simplify_simple (simplify c) (simplify-Is c))
