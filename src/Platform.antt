-- ===== src/Platform.antt =====
-- pkg/platform: commands on a target, and the dependencies that are checked and installed there.
pub mod Executor
pub mod Deps
pub mod Distro
pub mod Tests
