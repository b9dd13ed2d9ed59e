-- ===== src/Samples.antt =====
-- The theorems of the library at concrete inputs.
mod Sets
mod Pointers
mod Ranges
mod Walks
mod Sites
mod Graphs
mod Nodes
mod Ids
mod Flows
mod Expressions
mod Slices
