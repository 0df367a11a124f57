-- ===== src/Objects.antt =====
-- go/connection_getobjects.go: the queries of GetObjects, their rows, and the columns of these.
pub mod Query
pub mod Balance
pub mod Column
pub mod Key
pub mod Constraints
pub mod ConstraintsKeep
pub mod Clamp
pub mod Slices
pub mod Handler
pub mod Group
pub mod GroupKeeps
pub mod GroupTotal
pub mod Built
pub mod HandlerColumns
pub mod Answers
mod HandlerTests
mod Tests
