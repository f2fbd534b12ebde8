-- ===== src/Table.antt =====
-- The rows of a table in its file and the definitions of the tables (include/AkatsukiDB/Table,
-- src/Table).
pub mod Manager
pub mod Json
pub mod Registry
pub mod Row
