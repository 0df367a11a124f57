-- ===== src/Dsn.antt =====
-- go/db_factory.go: the data source name that the driver opens a database with.
pub mod Build
pub mod Credentials
pub mod Utc
mod Tests
