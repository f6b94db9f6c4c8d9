-- ===== src/Route.antt =====
-- Routing of keys to the nodes of a cluster: topology.go, topology_build.go, topology_routing.go,
-- topology_kv_route.go and topology_scatter.go.
pub mod Slot
pub mod Shard
pub mod Plan
pub mod Build
pub mod Grouping
pub mod Partition
pub mod Examples
pub mod Scatter
