-- ===== src/Coll.antt =====
-- zownc/crates/zown-vm/src/coll.rs: collections.
pub mod Arrays
pub mod Store
pub mod Perms
pub mod TextOrder
pub mod Rows
pub mod Heap
pub mod Tree
pub mod Trie
pub mod Words
mod Tests
