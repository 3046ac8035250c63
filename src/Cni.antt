-- ===== src/Cni.antt =====
-- pkg/cni: the CNI and the addons of a cluster installed, the Helm values of OVN-Kubernetes, and the patch of
-- system deployments.
pub mod Values
pub mod Overrides
pub mod Install
pub mod PodCidr
pub mod Tests
pub mod PostInstall
