-- ===== src/Cluster.antt =====
-- internal/server/cluster*.go: a cluster of servers.
pub mod Quorum
pub mod Leader
pub mod Election
pub mod Dedupe
