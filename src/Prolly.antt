-- ===== src/Prolly.antt =====
-- defluencer/src/indexing/ordered_trees/prolly: the prolly trees.
pub mod Node
pub mod Split
pub mod Batch
pub mod Ipld
pub mod Tree
pub mod Handle
pub mod Insertion
pub mod Removal
