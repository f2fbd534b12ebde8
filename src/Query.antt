-- ===== src/Query.antt =====
-- The query side: expressions, their evaluation, and the plan of a table scan (include/AkatsukiDB/AQL, src/AQL).
pub mod Text
pub mod Word
pub mod Expression
pub mod Eval
pub mod Schema
pub mod Plan
pub mod Tokenizer
pub mod Like
pub mod Scan
