-- ===== src/Sdk.antt =====
-- The stream control of pkg/sdk.
pub mod StateMachine
pub mod Lifecycle
pub mod Stream
pub mod Events
pub mod StreamManager
pub mod StreamController
pub mod Query
pub mod QueryBuilder
pub mod Filters
pub mod Pages
pub mod Calls
pub mod Consistency
pub mod Operations
pub mod Restart
pub mod Spec
pub mod Refinement
pub mod StopAll
pub mod Registry
pub mod History
mod Tests
mod StreamTests
mod QueryTests
