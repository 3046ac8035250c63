-- ===== src/Config/Topology/Order.antt =====
-- ClustersOrderedForInstall of pkg/config/config.go: what the order of installation is.
use mathlib.Core.List.{Permᴰ}
use mathlib.Core.List.Permᴰ
use dpu_simulator.Base.{
  ◌≡◌, refl, ◌∙◌, ap, Bool, true, false, not, List, [], ◌∷◌, ◌++◌, if◌then◌else◌, keep, Bool-cases,
  inl, inr,
}
use dpu_simulator.Config.Types.{Config, ClusterConfig}
use dpu_simulator.Config.Mode.{is_offload_dpu}
use dpu_simulator.Config.Topology.{is_dpu_cluster, split_clusters, clusters_ordered_for_install}

split_clusters_lem :
    (c : Config) (clusters : List ClusterConfig)
    → (split_clusters c clusters).0 ≡ keep (λ cl. not (is_dpu_cluster c cl.name)) clusters
      × (split_clusters c clusters).1 ≡ keep (λ cl. is_dpu_cluster c cl.name) clusters
unfolding split_clusters
split_clusters_lem c [] = (refl, refl)
split_clusters_lem c (cl ∷ clusters) =
    let (a, b) = split_clusters_lem c clusters in
    elim (Bool-cases (is_dpu_cluster c cl.name)) [
      | inl e ↦ (rw e a, rw e (ap (◌∷◌ cl) b))
      | inr e ↦ (rw e (ap (◌∷◌ cl) a), rw e b)
    ]

install_order :
    (b : Bool) (configured sorted : List ClusterConfig)
    → b ≡ true
    → (if not b then configured else sorted) ≡ sorted
install_order true configured sorted h = refl
install_order false configured sorted h = cc

-- With offload on, the clusters without a DPU come first and those with DPUs after them, both in the
-- order of the configuration.
pub clusters_ordered_for_install-offload :
    (c : Config)
    → is_offload_dpu c ≡ true
    → clusters_ordered_for_install c
      ≡ keep (λ cl. not (is_dpu_cluster c cl.name)) c.kubernetes.clusters
        ++ keep (λ cl. is_dpu_cluster c cl.name) c.kubernetes.clusters
unfolding clusters_ordered_for_install
clusters_ordered_for_install-offload c o =
    let (a, b) = split_clusters_lem c c.kubernetes.clusters in
    install_order (is_offload_dpu c) c.kubernetes.clusters _ o
    ∙ ap (λ xs. xs ++ (split_clusters c c.kubernetes.clusters).1) a
    ∙ ap (λ ys. keep (λ cl. not (is_dpu_cluster c cl.name)) c.kubernetes.clusters ++ ys) b

split_clusters-perm :
    (c : Config) (clusters : List ClusterConfig)
    → Permᴰ ((split_clusters c clusters).0 ++ (split_clusters c clusters).1) clusters
unfolding split_clusters
split_clusters-perm c [] = Permᴰ.refl []
split_clusters-perm c (cl ∷ clusters) = elim (Bool-cases (is_dpu_cluster c cl.name)) [
  | inl e ↦ rw e (
      Permᴰ.trans (Permᴰ.middle cl (split_clusters c clusters).0 (split_clusters c clusters).1)
        (Permᴰ.cons refl (split_clusters-perm c clusters)))
  | inr e ↦ rw e (Permᴰ.cons refl (split_clusters-perm c clusters))
]

either_order :
    (b : Bool) (configured sorted : List ClusterConfig)
    → Permᴰ sorted configured
    → Permᴰ (if not b then configured else sorted) configured
either_order true configured sorted p = p
either_order false configured sorted p = Permᴰ.refl configured

-- Every cluster is installed exactly once: the order is a permutation of the configured clusters.
pub clusters_ordered_for_install-perm :
    (c : Config) → Permᴰ (clusters_ordered_for_install c) c.kubernetes.clusters
unfolding clusters_ordered_for_install
clusters_ordered_for_install-perm c =
    either_order (is_offload_dpu c) c.kubernetes.clusters _
      (split_clusters-perm c c.kubernetes.clusters)
