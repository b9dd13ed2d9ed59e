-- ===== src/Offset.antt =====
-- include/dg/analysis/Offset.h: a byte offset, a `uint64_t` whose greatest value (`UNKNOWN` of
-- lib/analysis/Offset.cpp) means that the offset is not known.
pub mod Laws
use dg.Base.{ℕ, ◌+◌, ◌-◌, ◌^◌, Bool, ◌&&◌, ◌||◌, ltb, leb, ◌==◌, if◌then◌else◌}

-- The field `offset` is the only one of the struct.
abbrev pub Offset : Type 0
Offset = ℕ

abbrev pub unknown : Offset
unknown = 2 ^ 64 - 1

abbrev pub is_unknown : Offset → Bool
is_unknown o = o == unknown

-- `operator+`
unfoldable pub add : Offset → Offset → Offset
add a b = if a == unknown || b == unknown || leb (unknown - b) a then unknown else a + b

-- `operator-`, the one that returns a new offset
unfoldable pub sub : Offset → Offset → Offset
sub a b = if a == unknown || b == unknown || ltb a b then unknown else a - b

unfoldable pub in_range : Offset → ℕ → ℕ → Bool
in_range o lo hi = leb lo o && leb o hi
