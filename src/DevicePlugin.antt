-- ===== src/DevicePlugin.antt =====
-- pkg/deviceplugin, cmd/dpu-sim-dp and lib/dpusim: interface names, resource pools, the plugin.
pub mod Names
pub mod Pools
pub mod Plugin
pub mod Tests
