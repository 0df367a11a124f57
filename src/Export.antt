-- ===== src/Export.antt =====
-- go/pkg/driver.go: the C interface of the driver.
pub mod Error
pub mod Option
pub mod Driver
pub mod World
pub mod Logging
pub mod Results
pub mod Told
pub mod Calls
pub mod Good
pub mod Refused
pub mod Stream
pub mod Init
pub mod Uses
pub mod Database
pub mod Connection
pub mod Statement
pub mod Reachable
mod Sample
mod Tests
