-- ===== src/Cluster.antt =====
-- The cluster of pkg/cluster.
pub mod Balancer
pub mod Stats
pub mod Selection
pub mod Least
pub mod Rotation
pub mod Weights
pub mod Sessions
pub mod Indexes
pub mod Membership
pub mod SessionHistory
mod SessionTests
mod Tests
