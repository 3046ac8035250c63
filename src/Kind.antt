-- ===== src/Kind.antt =====
-- pkg/kind: the iptables rules that route between the Kind network and the DPU gateway network.
pub mod Routing
pub mod Iptables
pub mod Clusters
pub mod Veth
pub mod Topology
pub mod Gateway
pub mod Tests
