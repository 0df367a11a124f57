-- ===== src/Schema.antt =====
-- The column metadata of `GetTableSchema` in go/connection.go, and its parsers of declarations.
pub mod TypeValues
pub mod Dimension
pub mod Json
pub mod JsonClauses
pub mod Column
pub mod Metadata
pub mod Handler
pub mod HandlerFields
pub mod Fields
pub mod TypeValuesRound
pub mod TypeValuesRounds
mod HandlerTests
mod Tests
