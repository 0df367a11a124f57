-- ===== src/Convert.antt =====
-- The type converter of go/mariadb.go, `mariaDBTypeConverter`.
pub mod Column
pub mod Inserter
pub mod ToGo
pub mod ToGoTimes
pub mod Served
pub mod Vector
mod Tests
