-- ===== src/Sql.antt =====
-- The SQL text that the driver writes and reads: quoted identifiers (`quoteIdentifier` and
-- `QuoteIdentifiers` of go/connection.go) and placeholders (`countPlaceholders` of go/mariadb.go).
pub mod Quote
pub mod Scan
pub mod Lexical
pub mod Identifier
pub mod Builder
mod Tests
