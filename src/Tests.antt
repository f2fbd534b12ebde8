-- ===== src/Tests.antt =====
-- Runs of the theorems at concrete inputs.
mod Numbers
mod Storage
mod Wal
mod Query
mod Table
mod Index
