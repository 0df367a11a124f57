-- ===== src/Temporal.antt =====
-- MariaDB's dates and times in go/mariadb.go: TIME values as durations, and zero dates.
pub mod Duration
pub mod DurationRound
mod Tests
