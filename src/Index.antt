-- ===== src/Index.antt =====
-- The keys of an index, the nodes of its tree and the tree (include/AkatsukiDB/Index, src/Index).
pub mod Key
pub mod Node
pub mod Tree
