-- ===== src/Prst.antt =====
-- The persistent variables: src/prst_pool.h, the pool and its wire format, and src/prst_graph.h,
-- the graph of their readers.
pub mod Value
pub mod Pool
pub mod Checksum
pub mod Wire
pub mod Graph
