-- ===== src/Xds.antt =====
-- internal/xds: the snapshot manager and the callbacks of the xDS server.
pub mod Resources
pub mod Clusters
pub mod Cache
pub mod SnapshotManager
pub mod Server
pub mod Samples
