-- ===== src/Base/Maps.antt =====
-- `std::map` with numbers as keys: an association list in ascending order of the keys.
use dg.Base.{ℕ, suc, ◌≤◌, ◌<◌, ◌≡◌, refl}
use dg.Base.{Option, none, some, List, [], ◌∷◌, arith}
use dg.Base.{ltb, ◌==◌, if◌then◌else◌, All}

module _ {ℓ} {V : Type ℓ} where
  abbrev pub find : ℕ → List (ℕ × V) → Option V
  find k [] = none
  find k ((j, w) ∷ m) = if j == k then some w else find k m

  -- `m[k] = v`
  abbrev pub put : ℕ → V → List (ℕ × V) → List (ℕ × V)
  put k v [] = (k, v) ∷ []
  put k v ((j, w) ∷ m) =
      if ltb k j then (k, v) ∷ (j, w) ∷ m else if j == k then (k, v) ∷ m else (j, w) ∷ put k v m

  abbrev pub erase : ℕ → List (ℕ × V) → List (ℕ × V)
  erase k [] = []
  erase k ((j, w) ∷ m) = if j == k then m else (j, w) ∷ erase k m

  -- The keys ascend, from `lo` on.
  abbrev pub Above : ℕ → List (ℕ × V) → Type 0
  Above lo [] = Unit
  Above lo ((k, w) ∷ m) = (lo ≤ k) × Above (suc k) m

  pub Above-le : (lo hi : ℕ) (m : List (ℕ × V)) → lo ≤ hi → Above hi m → Above lo m
  Above-le lo hi [] h a = tt
  Above-le lo hi ((k, w) ∷ m) h a = (omega arith, a.1)

  pub find_below : (lo k : ℕ) (m : List (ℕ × V)) → Above lo m → k < lo → find k m ≡ none
  find_below lo k [] a h = refl
  find_below lo k ((j, w) ∷ m) a h = ground (arith, find_below (suc j) k m)

  pub find-put :
      (j k : ℕ) (v : V) (m : List (ℕ × V))
      → find j (put k v m) ≡ (if k == j then some v else find j m)
  find-put j k v [] = refl
  find-put j k v ((i, w) ∷ m) = ground (arith, find-put j k v m)

  pub find-erase :
      (j k lo : ℕ) (m : List (ℕ × V))
      → Above lo m
      → find j (erase k m) ≡ (if k == j then none else find j m)
  find-erase j k lo [] a = ground arith
  find-erase j k lo ((i, w) ∷ m) a =
      ground (arith, find-erase j k (suc i) m, find_below (suc i) k m)

  pub Above-put : (lo k : ℕ) (v : V) (m : List (ℕ × V)) → lo ≤ k → Above lo m → Above lo (put k v m)
  Above-put lo k v [] h a = omega arith
  Above-put lo k v ((j, w) ∷ m) h a = ground (arith, Above-put (suc j) k v m)

  pub Above-erase : (lo k : ℕ) (m : List (ℕ × V)) → Above lo m → Above lo (erase k m)
  Above-erase lo k [] a = tt
  Above-erase lo k ((j, w) ∷ m) a = ground (arith, Above-erase (suc j) k m, Above-le lo (suc j) m)

  module _ {κ} (P : (ℕ × V) → Type κ) where
    pub All-put : (k : ℕ) (v : V) (m : List (ℕ × V)) → P (k, v) → All P m → All P (put k v m)
    All-put k v [] p a = (p, tt)
    All-put k v ((j, w) ∷ m) p a = ground (arith, All-put k v m p)

    pub All-erase : (k : ℕ) (m : List (ℕ × V)) → All P m → All P (erase k m)
    All-erase k [] a = tt
    All-erase k ((j, w) ∷ m) a = ground (arith, All-erase k m)

    pub All-find : (k : ℕ) {v : V} (m : List (ℕ × V)) → All P m → find k m ≡ some v → P (k, v)
    All-find k [] a e = cc
    All-find k {v} ((j, w) ∷ m) a e = ground (arith, All-find k {v = v} m)
