-- ===== src/Merge.antt =====
-- merge/: the three-way merge of typed values. A module per policy, and its theorems below it or beside.
pub mod Types
pub mod Scalar
pub mod Sets
pub mod Align
pub mod Diff
pub mod Sequence
pub mod Symmetry
pub mod Stretches
pub mod Node
pub mod Equality
pub mod Integers
pub mod Tree
pub mod Leaves
mod FieldLemmas
pub mod FieldMerge
mod Samples
