-- ===== src/Statistics.antt =====
-- go/connection_statistics.go: the queries of GetStatistics.
pub mod Query
pub mod Balance
pub mod Rows
pub mod Left
pub mod RowsKeep
pub mod CatalogOrder
pub mod Handler
pub mod HandlerStats
pub mod Answers
mod HandlerTests
