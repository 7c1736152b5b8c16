-- ===== src/Node.antt =====
-- node.h: `Node<K, V, Search, Encoder, Logger, Sorted>`, static methods on a slot array.
pub mod Defs
pub mod Rep
pub mod Whole
pub mod Sorted
pub mod Empty
pub mod Find
pub mod Lookup
pub mod Remove
pub mod Written
pub mod Insert
pub mod Fetched
