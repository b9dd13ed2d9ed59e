-- ===== src/Control/Words.antt =====
-- The words of a control expression: the labels that a run visits, in their order.
use dg.Base.{ℕ, ◌≡◌, List, [], ◌∷◌, ◌++◌, ◌⊎◌}
use dg.Control.{CeNode, label, seq, branch, loop, eps, CeNodes, nil, cons}

-- A word is a repetition: rounds that are in `P`, and none at all only where `Skips` holds.
pub data Repeats (Skips : Type 0) (P : List ℕ → Type 0) : List ℕ → Type 0 where
  skip : {w : List ℕ} → Skips → w ≡ [] → Repeats Skips P w
  once : {w : List ℕ} → P w → Repeats Skips P w
  again : {w : List ℕ} (u v : List ℕ) → w ≡ u ++ v → P u → Repeats Skips P v → Repeats Skips P w

module _ (Skips : Type 0) where
  unfoldable mutual
    -- A run of the expression visits the labels of the word. A loop runs at least once where
    -- `Skips` does not hold.
    pub Runs : CeNode → List ℕ → Type 0
    Runs (label l) w = w ≡ l ∷ []
    Runs (seq cs) w = RunsAll cs w
    Runs (branch cs) w = RunsAny cs w
    Runs (loop cs) w = Repeats Skips (RunsAll cs) w
    Runs eps w = w ≡ []

    pub RunsAll : CeNodes → List ℕ → Type 0
    RunsAll nil w = w ≡ []
    RunsAll (cons c cs) w = (u v : List ℕ) × (w ≡ u ++ v) × Runs c u × RunsAll cs v

    pub RunsAny : CeNodes → List ℕ → Type 0
    RunsAny nil w = ⊥
    RunsAny (cons c cs) w = Runs c w ⊎ RunsAny cs w
