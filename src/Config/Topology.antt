-- ===== src/Config/Topology.antt =====
-- pkg/config/config.go: which cluster carries the DPUs, the order of installation, and the
-- host-to-DPU network.
pub mod Order
use Prim.Native.String.{◌++◌ as concat}
use dpu_simulator.Base.{
  ℕ, zero, suc, ◌+◌, ◌*◌, Bool, true, false, not, ◌&&◌, ◌||◌, List, [], ◌∷◌, ◌++◌, Option, none,
  some, String, str_eq, if◌then◌else◌, ◌==◌, find, keep, any, map, length,
}
use dpu_simulator.Base.Int.{ℤ, pos_part, pos, negsuc, leb_ℤ, ltb_ℤ, ◌+ℤ◌, wrap_64}
use dpu_simulator.Config.Types.{
  Config, VmConfig, KindNodeConfig, ClusterConfig, NetworkConfig, BareMetalConfig, host_type,
  dpu_type, cni_ovn_kubernetes, host_to_dpu_network_type,
}
use dpu_simulator.Config.Mode.{kind_nodes, is_kind_mode, is_vm_mode, is_offload_dpu, is_empty}
use dpu_simulator.Config.Nodes.{
  get_cni_type, get_cluster_config, get_kind_node_container_name, get_host_dpu_pairs,
}
use dpu_simulator.DevicePlugin.Names.{host_data_if}

unfoldable pub is_dpu_cluster : Config → String → Bool
is_dpu_cluster c cluster_name =
    any (λ vm. str_eq vm.k8s_cluster cluster_name && str_eq vm.node_type dpu_type) c.vms
    || any (λ node. str_eq node.k8s_cluster cluster_name && str_eq node.node_type dpu_type)
        (kind_nodes c)

-- The name of the first cluster that passes a test; `""` is none.
abbrev name_of : Option ClusterConfig → String
name_of none = ""
name_of (some cluster) = cluster.name

unfoldable pub get_dpu_cluster_name : Config → String
get_dpu_cluster_name c =
    name_of (find (λ cluster. is_dpu_cluster c cluster.name) c.kubernetes.clusters)

unfoldable pub get_dpu_host_cluster_name : Config → String
unfolding get_dpu_cluster_name
get_dpu_host_cluster_name c =
    let dpu_cluster = get_dpu_cluster_name c in
    if str_eq dpu_cluster ""
    then ""
    else name_of (find (λ cluster. not (str_eq cluster.name dpu_cluster)) c.kubernetes.clusters)

unfoldable pub dpu_cluster_needs_ovnk : Config → String → Bool
dpu_cluster_needs_ovnk c cluster_name =
    let host_cluster = get_dpu_host_cluster_name c in
    if not (is_offload_dpu c) || not (is_dpu_cluster c cluster_name)
    then false
    else not (str_eq host_cluster "") && str_eq (get_cni_type c host_cluster) cni_ovn_kubernetes

unfoldable pub cluster_needs_ovn_kubernetes_image : Config → String → Bool
cluster_needs_ovn_kubernetes_image c cluster_name = elim (get_cluster_config c cluster_name) [
  | none ↦ false
  | some cluster ↦
      if str_eq cluster.cni cni_ovn_kubernetes then true else dpu_cluster_needs_ovnk c cluster_name
]

-- `dpuHostNames[name]`.
unfoldable pub is_dpu_host_name : Config → String → Bool
is_dpu_host_name c name =
    any (λ vm. str_eq vm.node_type dpu_type && not (str_eq vm.host "") && str_eq vm.host name) c.vms
    || any
        (λ node.
          str_eq node.node_type dpu_type && not (str_eq node.host "") && str_eq node.host name)
        (kind_nodes c)

-- The container names of those nodes that have one.
container_names : Config → String → List KindNodeConfig → List String
container_names c cluster_name [] = []
container_names c cluster_name (node ∷ nodes) =
    let name = get_kind_node_container_name c cluster_name node.name in
    if str_eq name ""
    then container_names c cluster_name nodes
    else name ∷ container_names c cluster_name nodes

unfoldable pub get_dpu_host_node_names : Config → String → List String
unfolding container_names is_dpu_host_name
get_dpu_host_node_names c cluster_name =
    if is_vm_mode c
    then map (λ vm. vm.name)
        (keep
          (λ vm.
            str_eq vm.k8s_cluster cluster_name
            && str_eq vm.node_type host_type
            && is_dpu_host_name c vm.name)
          c.vms)
    else container_names c cluster_name (
        keep
          (λ node.
            str_eq node.k8s_cluster cluster_name
            && str_eq node.node_type host_type
            && is_dpu_host_name c node.name)
          (kind_nodes c))

unfoldable pub get_dpu_node_names : Config → String → List String
unfolding container_names
get_dpu_node_names c cluster_name =
    if is_vm_mode c
    then map (λ vm. vm.name)
        (keep (λ vm. str_eq vm.k8s_cluster cluster_name && str_eq vm.node_type dpu_type) c.vms)
    else container_names c cluster_name (
        keep (λ node. str_eq node.k8s_cluster cluster_name && str_eq node.node_type dpu_type)
          (kind_nodes c))

unfoldable pub get_network_by_type : Config → String → Option NetworkConfig
get_network_by_type c network_type = find (λ n. str_eq n.network_type network_type) c.networks

unfoldable pub get_network_by_name : Config → String → Option NetworkConfig
get_network_by_name c name = find (λ n. str_eq n.name name) c.networks

unfoldable pub get_host_to_dpu_network : Config → Option NetworkConfig
get_host_to_dpu_network c = find (λ n. str_eq n.network_type host_to_dpu_network_type) c.networks

unfoldable pub get_host_to_dpu_num_pairs : Config → ℤ
get_host_to_dpu_num_pairs c = elim (get_host_to_dpu_network c) [
  | none ↦ pos 1
  | some n ↦ if leb_ℤ n.num_pairs (pos 0) then pos 1 else n.num_pairs
]

unfoldable pub dpu_host_management_port_vfs_count : Config → ℤ
dpu_host_management_port_vfs_count c = elim (get_host_to_dpu_network c) [
  | none ↦ pos 1
  | some n ↦ n.mgmt_port_vfs_count
]

unfoldable pub dpu_host_uplink_vfs_count : Config → ℤ
dpu_host_uplink_vfs_count c = elim (get_host_to_dpu_network c) [
  | none ↦ pos 0
  | some n ↦ n.uplink_vfs_count
]

-- The loop of DPUHostUplinkInterfaces, from index `i` of the reserved interfaces on.
unfoldable pub uplink_names : ℤ → ℕ → ℕ → List String
unfolding host_data_if ◌+ℤ◌
uplink_names mgmt zero i = []
uplink_names mgmt (suc k) i = host_data_if (wrap_64 (mgmt +ℤ pos i)) ∷ uplink_names mgmt k (suc i)

unfoldable pub dpu_host_uplink_interfaces : Config → List String
unfolding uplink_names
dpu_host_uplink_interfaces c = elim (get_host_to_dpu_network c) [
  | none ↦ []
  | some n ↦ uplink_names n.mgmt_port_vfs_count (pos_part n.uplink_vfs_count) 1
]

abbrev pub default_dpu_host_gateway_subnet : String
default_dpu_host_gateway_subnet = "172.30.0.0/24"

unfoldable pub dpu_host_gateway_subnet : Config → String
dpu_host_gateway_subnet c = elim (get_host_to_dpu_network c) [
  | none ↦ default_dpu_host_gateway_subnet
  | some n ↦
      if str_eq n.gateway_subnet "" then default_dpu_host_gateway_subnet else n.gateway_subnet
]

-- kindDPUGatewaySubnetRequiredIPs.
unfoldable pub kind_dpu_gateway_subnet_required_ips : Config → ℕ
kind_dpu_gateway_subnet_required_ips c =
    let pairs = get_host_dpu_pairs c "" in
    if not (is_kind_mode c) || not (is_offload_dpu c)
    then 0
    else if is_empty pairs
    then 0
    else 1 + 2 * length pairs

-- The loop of ClustersOrderedForInstall.
unfoldable pub split_clusters :
    Config → List ClusterConfig → List ClusterConfig × List ClusterConfig
split_clusters c [] = ([], [])
split_clusters c (cl ∷ clusters) =
    let (ordered, dpu_clusters) = split_clusters c clusters in
    if is_dpu_cluster c cl.name then (ordered, cl ∷ dpu_clusters) else (cl ∷ ordered, dpu_clusters)

unfoldable pub clusters_ordered_for_install : Config → List ClusterConfig
unfolding split_clusters
clusters_ordered_for_install c =
    let (ordered, dpu_clusters) = split_clusters c c.kubernetes.clusters in
    if not (is_offload_dpu c) then c.kubernetes.clusters else ordered ++ dpu_clusters

unfoldable pub gateway_interfaces : Config → String → String
gateway_interfaces c cluster_name =
    if is_kind_mode c
    then (if is_offload_dpu c && is_dpu_cluster c cluster_name then "eth1" else "eth0")
    else "k8s"
