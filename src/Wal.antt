-- ===== src/Wal.antt =====
-- The write-ahead log and the transactions over it.
pub mod Record
pub mod Manager
pub mod Recovery
pub mod Transactions
