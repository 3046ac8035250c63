-- ===== src/K8s.antt =====
-- pkg/k8s/client.go: what the client does to the objects of a cluster, and its waits.
pub mod Api
pub mod Deployments
pub mod Nodes
pub mod Waits
pub mod Tests
