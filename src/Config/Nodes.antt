-- ===== src/Config/Nodes.antt =====
-- pkg/config/config.go: queries on the nodes and clusters of the configuration.
pub mod Numbered
pub mod Containers
pub mod Roles
pub mod Same
use Prim.Native.String.{◌++◌ as concat}
use dpu_simulator.Base.{
  ℕ, ◌+◌, Bool, true, false, not, ◌&&◌, ◌||◌, List, [], ◌∷◌, ◌++◌, Option, none, some, String,
  str_eq, if◌then◌else◌, ◌==◌, find, keep, any, map, length, suc,
}
use dpu_simulator.Base.Text.{itoa}
use dpu_simulator.Config.Types.{
  Config, VmConfig, KindNodeConfig, KindConfig, ClusterConfig, NetworkConfig, BareMetalConfig,
  host_type, dpu_type, cni_ovn_kubernetes, cni_flannel, cni_kindnet,
}
use dpu_simulator.Config.Mode.{kind_nodes, is_kind_mode, is_vm_mode, is_offload_dpu, is_empty}

unfoldable pub get_cluster_names : Config → List String
get_cluster_names c = map (λ cluster. cluster.name) c.kubernetes.clusters

unfoldable pub get_cluster_config : Config → String → Option ClusterConfig
get_cluster_config c name = find (λ cluster. str_eq cluster.name name) c.kubernetes.clusters

unfoldable pub get_cni_type : Config → String → String
unfolding get_cluster_config
get_cni_type c cluster_name = elim (get_cluster_config c cluster_name) [
  | none ↦ if is_kind_mode c then "kindnet" else "flannel"
  | some cluster ↦ cluster.cni
]

unfoldable pub get_kind_nodes_for_cluster : Config → String → List KindNodeConfig
get_kind_nodes_for_cluster c cluster_name =
    keep (λ node. str_eq node.k8s_cluster cluster_name) (kind_nodes c)

-- The name that Kind gives to the k-th node of a role.
unfoldable pub numbered : String → ℕ → String
numbered base k = if k == 1 then base else concat base (itoa k)

unfoldable pub control_plane_name : String → ℕ → String
unfolding numbered
control_plane_name cluster_name k = numbered (concat cluster_name "-control-plane") k

unfoldable pub worker_name : String → ℕ → String
unfolding numbered
worker_name cluster_name k = numbered (concat cluster_name "-worker") k

-- The loop of GetKindNodeContainerName, with the counts of both roles so far; `""` is no name.
unfoldable pub container_name_from : String → String → List KindNodeConfig → ℕ → ℕ → String
unfolding control_plane_name worker_name
container_name_from cluster_name node_name [] cp_idx worker_idx = ""
container_name_from cluster_name node_name (n ∷ nodes) cp_idx worker_idx =
    let after_control_plane =
      container_name_from cluster_name node_name nodes (cp_idx + 1) worker_idx in
    let after_worker = container_name_from cluster_name node_name nodes cp_idx (worker_idx + 1) in
    let as_control_plane =
      if str_eq n.name node_name
      then control_plane_name cluster_name (cp_idx + 1)
      else after_control_plane in
    let as_worker =
      if str_eq n.name node_name then worker_name cluster_name (worker_idx + 1) else after_worker in
    if str_eq n.k8s_role "control-plane"
    then as_control_plane
    else if str_eq n.k8s_role "worker"
    then as_worker
    else ""

unfoldable pub get_kind_node_container_name : Config → String → String → String
unfolding container_name_from get_kind_nodes_for_cluster
get_kind_node_container_name c cluster_name node_name =
    container_name_from cluster_name node_name (get_kind_nodes_for_cluster c cluster_name) 0 0

unfoldable pub get_kind_control_plane_count : Config → String → ℕ
get_kind_control_plane_count c cluster_name = length (
    keep (λ n. str_eq n.k8s_cluster cluster_name && str_eq n.k8s_role "control-plane")
      (kind_nodes c))

unfoldable pub get_kind_worker_count : Config → String → ℕ
get_kind_worker_count c cluster_name = length (
    keep
      (λ n.
        str_eq n.k8s_cluster cluster_name && (str_eq n.k8s_role "worker" || str_eq n.k8s_role ""))
      (kind_nodes c))

pub record HostDpuPair : Type 0 where
  pub host_node : String
  pub dpu_node : String

-- Whether a pair counts for the DPU cluster that is asked for; no name asks for all.
abbrev wanted : String → String → Bool
wanted dpu_cluster_name k8s_cluster =
    str_eq dpu_cluster_name "" || str_eq k8s_cluster dpu_cluster_name

pairs_of_vms : String → List VmConfig → List HostDpuPair
pairs_of_vms dpu_cluster_name [] = []
pairs_of_vms dpu_cluster_name (vm ∷ vms) =
    let rest = pairs_of_vms dpu_cluster_name vms in
    if not (str_eq vm.node_type dpu_type) || str_eq vm.host ""
    then rest
    else if not (wanted dpu_cluster_name vm.k8s_cluster)
    then rest
    else record { host_node = vm.host; dpu_node = vm.name } ∷ rest

unfoldable pub get_host_dpu_pairs_vm : Config → String → List HostDpuPair
unfolding pairs_of_vms
get_host_dpu_pairs_vm c dpu_cluster_name = pairs_of_vms dpu_cluster_name c.vms

-- `hostByName[name]`: the last host of the name.
unfoldable pub host_by_name : String → List KindNodeConfig → Option KindNodeConfig
host_by_name name [] = none
host_by_name name (node ∷ nodes) = elim (host_by_name name nodes) [
  | some found ↦ some found
  | none ↦ if str_eq node.node_type host_type && str_eq node.name name then some node else none
]

pair_of_kind : Config → KindNodeConfig → KindNodeConfig → List HostDpuPair
pair_of_kind c node host =
    let host_container = get_kind_node_container_name c host.k8s_cluster host.name in
    let dpu_container = get_kind_node_container_name c node.k8s_cluster node.name in
    if str_eq host_container "" || str_eq dpu_container ""
    then []
    else record { host_node = host_container; dpu_node = dpu_container } ∷ []

pairs_of_kind : Config → String → List KindNodeConfig → List HostDpuPair
unfolding host_by_name pair_of_kind
pairs_of_kind c dpu_cluster_name [] = []
pairs_of_kind c dpu_cluster_name (node ∷ nodes) =
    let rest = pairs_of_kind c dpu_cluster_name nodes in
    if not (str_eq node.node_type dpu_type) || str_eq node.host ""
    then rest
    else if not (wanted dpu_cluster_name node.k8s_cluster)
    then rest
    else (elim (host_by_name node.host (kind_nodes c)) [
      | none ↦ rest
      | some host ↦ pair_of_kind c node host ++ rest
    ])

unfoldable pub get_host_dpu_pairs_kind : Config → String → List HostDpuPair
unfolding pairs_of_kind
get_host_dpu_pairs_kind c dpu_cluster_name = pairs_of_kind c dpu_cluster_name (kind_nodes c)

unfoldable pub get_host_dpu_pairs : Config → String → List HostDpuPair
unfolding get_host_dpu_pairs_vm get_host_dpu_pairs_kind
get_host_dpu_pairs c dpu_cluster_name =
    if is_vm_mode c
    then get_host_dpu_pairs_vm c dpu_cluster_name
    else get_host_dpu_pairs_kind c dpu_cluster_name
