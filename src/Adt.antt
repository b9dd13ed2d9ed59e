-- ===== src/Adt.antt =====
-- include/dg/ADT: words of bits, the sparse bitvector and the sets of numbers over them.
pub mod Bits
pub mod ShiftedBits
pub mod Bitvector
pub mod NumberSet
pub mod Queue
