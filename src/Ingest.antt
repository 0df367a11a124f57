-- ===== src/Ingest.antt =====
-- Bulk ingest of go/connection.go: the table's definition, the statements that make it, and the
-- size of the batches.
pub mod Table
pub mod Bulk
pub mod NoMarks
pub mod Bounds
mod Tests
