-- ===== src/Pages.antt =====
-- The other pages of ui/src/pages.
pub mod ShardReports
pub mod Topology
pub mod Queries
pub mod Fleet
pub mod Boards
pub mod FinOps
pub mod Clusters
pub mod AvailableCapacity
