-- ===== src/Bmt.antt =====
-- src/vdev/bmt_topology.hpp: the reference storage layout.
pub mod Value
pub mod Block
pub mod Topology
pub mod Keys
pub mod Image
mod Tests
