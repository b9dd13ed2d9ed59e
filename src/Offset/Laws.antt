-- ===== src/Offset/Laws.antt =====
-- The arithmetic of offsets (Offset.h).
use dg.Base.{◌+◌, ◌≤◌, min, ◌≡◌, ◌≢◌, arith}
use dg.Offset.{Offset, unknown, add, sub}

-- The sum of two offsets of 64 bits is the sum of the numbers cut off at the value that means "not
-- known": an overflow never wraps around to a small offset.
pub add-eq-min : (a b : Offset) → a ≤ unknown → b ≤ unknown → add a b ≡ min (a + b) unknown
unfolding add
add-eq-min a b h k = ground arith

-- Addition of offsets of 64 bits is associative, also where a partial sum is not known.
pub add_assoc :
    (a b c : Offset) → a ≤ unknown → b ≤ unknown → c ≤ unknown → add (add a b) c ≡ add a (add b c)
add_assoc a b c h k l = omega (
  arith,
  add-eq-min a b h k,
  add-eq-min b c k l,
  add-eq-min (add a b) c (omega (arith, add-eq-min a b h k)) l,
  add-eq-min a (add b c) h (omega (arith, add-eq-min b c k l)),
)

-- Subtracting what was added gives an offset of 64 bits back whenever the sum is known.
pub sub-add : (a b : Offset) → a ≤ unknown → b ≤ unknown → add a b ≢ unknown → sub (add a b) b ≡ a
unfolding add sub
sub-add a b h k ne = ground arith
