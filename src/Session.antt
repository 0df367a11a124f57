-- ===== src/Session.antt =====
-- The database, connection and statement objects of go/mariadb.go and go/connection.go.
pub mod Server
pub mod Rows
pub mod Inversion
pub mod ZeroBehavior
pub mod Options
pub mod Isolation
pub mod Transaction
pub mod Statement
pub mod NewStatement
pub mod OptionLaws
pub mod Prepared
pub mod IsolationRound
pub mod Info
pub mod InfoOnce
mod Tests
