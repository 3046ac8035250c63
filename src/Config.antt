-- ===== src/Config.antt =====
-- pkg/config: the configuration, its validation and defaults, and the queries on it.
pub mod Types
pub mod Mode
pub mod Nodes
pub mod Topology
pub mod Cidr
pub mod Network
pub mod Addons
pub mod Endpoints
pub mod Validate
pub mod Defaults
pub mod Registry
pub mod Gateway
pub mod Tests
