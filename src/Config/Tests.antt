-- ===== src/Config/Tests.antt =====
-- Concrete runs of the configuration.
use dpu_simulator.Base.{
  ℕ, ◌-◌, ◌≡◌, ◌≢◌, ◌≤◌, ◌<◌, ◌^◌, refl, true, false, not, List, [], ◌∷◌, ◌++◌, Option, none, some,
  arith, String, str_eq, str_eq_ne, All, keep,
}
use dpu_simulator.Config.Validate.{each, check_vm, check_kind, check_hosts}
use dpu_simulator.Config.Validate.Accepted.{KindNodeAccepted, check_kind-Accepted}
use dpu_simulator.Config.Cidr.{validate_ipv4_cidr}
use dpu_simulator.Base.Int.{pos, pos_part}
use dpu_simulator.Config.Types.{VmConfig, Config, NetworkConfig, KindNodeConfig, ClusterConfig}
use dpu_simulator.Config.Cidr.{
  IpNet, is_used, get_free_ipv4_address, get_first_usable, usable_ipv4_address_count, parse_cidr,
  validate_ipv4_cidr_capacity,
}
use dpu_simulator.Config.Cidr.Addresses.{
  IsSubnet, HighestFree, last_usable, get_free_ipv4_address-some, get_free_ipv4_address-none,
  usable_range,
}
use dpu_simulator.Config.Addons.{is_supported}
use dpu_simulator.Config.Nodes.{
  get_kind_node_container_name, get_kind_nodes_for_cluster, get_kind_worker_count,
  get_host_dpu_pairs,
}
use dpu_simulator.Config.Nodes.Containers.{get_kind_node_container_name_inj}
use dpu_simulator.Config.Nodes.Roles.{get_kind_node_container_name-no_role}
use dpu_simulator.Config.Mode.{is_kind_mode, is_vm_mode, kind_nodes}
use dpu_simulator.Config.Topology.{
  clusters_ordered_for_install, is_dpu_cluster, uplink_names, kind_dpu_gateway_subnet_required_ips,
}
use dpu_simulator.Config.Topology.Order.{clusters_ordered_for_install-offload}
use dpu_simulator.Config.Network.{
  validate_network, check_counts, check_host_to_dpu, omitted_mgmt_count,
}
use dpu_simulator.Config.Network.Interfaces.{
  FitsPairs, InNoPool, validate_network-FitsPairs, validate_network-build_resource_pools,
  check_counts-skipped,
}
use dpu_simulator.DevicePlugin.Pools.{ResourcePool, pools, build_resource_pools}

abbrev host_to_dpu : NetworkConfig
host_to_dpu = record {
  name = "h2d";
  network_type = "HostToDpu";
  bridge_name = "";
  gateway = "";
  subnet_mask = "";
  dhcp_start = "";
  dhcp_end = "";
  mode = "";
  nic_model = "";
  use_ovs = false;
  attach_to = "";
  num_pairs = pos 8;
  gateway_subnet = "10.1.0.0/24";
  mgmt_port_vfs_count = pos 0;
  uplink_vfs_count = pos 3;
}

abbrev pub node : String → String → String → String → String → KindNodeConfig
node name node_type cluster role host = record {
  name = name;
  node_type = node_type;
  k8s_cluster = cluster;
  k8s_role = role;
  host = host;
}

abbrev cluster : String → ClusterConfig
cluster name = record {
  name = name;
  pod_cidr = "10.244.0.0/16";
  service_cidr = "10.245.0.0/16";
  cni = "ovn-kubernetes";
  addons = [];
}

-- A DPU cluster `d` in front of a host cluster `h`, in Kind mode with offload.
abbrev pub two_clusters : Config
two_clusters = record {
  networks = host_to_dpu ∷ [];
  vms = [];
  bare_metal = [];
  kind = some (record {
    nodes =
        node "h0" "" "h" "control-plane" ""
        ∷ node "h1" "host" "h" "worker" ""
        ∷ node "d0" "" "d" "control-plane" ""
        ∷ node "d1" "dpu" "d" "worker" "h1"
        ∷ node "x" "" "n" "" ""
        ∷ [];
  });
  operating_system = record { image_url = ""; image_ref = ""; image_name = "" };
  ssh = record { user = "root"; key_path = ""; password = "redhat" };
  kubernetes = record {
    version = "1.33";
    kubeconfig_dir = "kubeconfig";
    offload_dpu = true;
    clusters = cluster "d" ∷ cluster "h" ∷ [];
  };
  registry = none;
  ovn_kubernetes_path = "";
  ovn_kubernetes_mode = "install";
}

accepted : (validate_network two_clusters host_to_dpu).1 ≡ []
unfolding validate_network str_eq check_host_to_dpu validate_ipv4_cidr_capacity parse_cidr
    kind_dpu_gateway_subnet_required_ips is_kind_mode get_host_dpu_pairs is_vm_mode
    get_kind_node_container_name omitted_mgmt_count
accepted = refl

host_to_dpu_fits : FitsPairs (validate_network two_clusters host_to_dpu).0
host_to_dpu_fits = validate_network-FitsPairs two_clusters host_to_dpu refl refl accepted

pairs_fit : pos_part (validate_network two_clusters host_to_dpu).0.num_pairs < 2 ^ 63
unfolding validate_network check_host_to_dpu str_eq
pairs_fit = omega arith

validate_network-build_resource_pools_example :
    (mgmt vf : ResourcePool) × (build_resource_pools
        (validate_network two_clusters host_to_dpu).0.mgmt_port_vfs_count
        (validate_network two_clusters host_to_dpu).0.uplink_vfs_count
        (validate_network two_clusters host_to_dpu).0.num_pairs
      ≡ pools mgmt vf)
    × All (InNoPool mgmt vf) (
        uplink_names
          (validate_network two_clusters host_to_dpu).0.mgmt_port_vfs_count
          (pos_part (validate_network two_clusters host_to_dpu).0.uplink_vfs_count)
          1)
validate_network-build_resource_pools_example =
    validate_network-build_resource_pools two_clusters host_to_dpu refl refl accepted pairs_fit

check_counts-skipped_example :
    ((check_counts false (pos 1) (pos 0) (pos 5)).errors ≡ [])
    × ((check_counts false (pos 1) (pos 0) (pos 5)).uplink ≡ pos 5)
check_counts-skipped_example = check_counts-skipped (pos 0) 5 (omega arith)

-- 192.168.1.0/29.
abbrev small_subnet : IpNet
small_subnet = record { address = 3232235776; ones = 29; bits = 32 }

small_subnet-IsSubnet : IsSubnet small_subnet
small_subnet-IsSubnet = record {
  is_ipv4 = refl;
  prefix = omega arith;
  fits = omega arith;
  masked = refl;
}

small_range :
    (get_first_usable small_subnet ≡ some 3232235777)
    × (get_free_ipv4_address small_subnet [] ≡ some (last_usable small_subnet))
    × (usable_ipv4_address_count small_subnet ≡ last_usable small_subnet - 3232235776)
small_range = usable_range small_subnet small_subnet-IsSubnet (omega arith)

abbrev two_used : List (Option ℕ)
two_used = some 3232235782 ∷ none ∷ some 3232235780 ∷ []

next_free : get_free_ipv4_address small_subnet two_used ≡ some 3232235781
unfolding get_free_ipv4_address
next_free = refl

get_free_ipv4_address-some_example :
    HighestFree two_used 3232235776 (last_usable small_subnet) 3232235781
get_free_ipv4_address-some_example =
    get_free_ipv4_address-some small_subnet two_used 3232235781 small_subnet-IsSubnet (omega arith)
      next_free

abbrev pair_subnet : IpNet
pair_subnet = record { address = 3232235776; ones = 30; bits = 32 }

pair_subnet-IsSubnet : IsSubnet pair_subnet
pair_subnet-IsSubnet = record {
  is_ipv4 = refl;
  prefix = omega arith;
  fits = omega arith;
  masked = refl;
}

abbrev both_used : List (Option ℕ)
both_used = some 3232235777 ∷ some 3232235778 ∷ []

none_free : get_free_ipv4_address pair_subnet both_used ≡ none
unfolding get_free_ipv4_address
none_free = refl

get_free_ipv4_address-none_example : is_used both_used 3232235778 ≡ true
get_free_ipv4_address-none_example =
    get_free_ipv4_address-none pair_subnet both_used 3232235778 pair_subnet-IsSubnet (omega arith)
      none_free (omega arith) (omega arith)

abbrev some_addons : List String
some_addons = "multus" ∷ "calico" ∷ "multus" ∷ "whereabouts" ∷ []

multus-is_supported : is_supported "multus" ≡ true
unfolding str_eq
multus-is_supported = refl

two_clusters_ordered :
    clusters_ordered_for_install two_clusters
    ≡ keep
        (λ (cl : ClusterConfig). not (is_dpu_cluster two_clusters cl.name))
        (cluster "d" ∷ cluster "h" ∷ [])
      ++ keep
          (λ (cl : ClusterConfig). is_dpu_cluster two_clusters cl.name)
          (cluster "d" ∷ cluster "h" ∷ [])
two_clusters_ordered = clusters_ordered_for_install-offload two_clusters refl

first_worker : get_kind_node_container_name two_clusters "h" "h1" ≢ ""
unfolding get_kind_node_container_name str_eq
first_worker = str_eq_ne refl

different_names : ◌≢◌ {A = String} "h1" "h0"
unfolding str_eq
different_names = str_eq_ne refl

get_kind_node_container_name_inj_example :
    get_kind_node_container_name two_clusters "h" "h1"
    ≢ get_kind_node_container_name two_clusters "h" "h0"
get_kind_node_container_name_inj_example =
    get_kind_node_container_name_inj two_clusters "h" "h1" "h0" different_names first_worker

without_role : get_kind_nodes_for_cluster two_clusters "n" ≡ node "x" "" "n" "" "" ∷ []
unfolding get_kind_nodes_for_cluster str_eq
without_role = refl

get_kind_node_container_name-no_role_example :
    (get_kind_node_container_name two_clusters "n" "x" ≡ "")
    × (1 ≤ get_kind_worker_count two_clusters "n")
get_kind_node_container_name-no_role_example =
    get_kind_node_container_name-no_role two_clusters "n" (node "x" "" "n" "" "") [] "x"
      without_role refl

-- The same configuration without the node whose cluster is not declared, and one of two VMs.
abbrev declared_nodes : Config
declared_nodes = record two_clusters {
  kind = some (record {
    nodes =
        node "h0" "" "h" "control-plane" ""
        ∷ node "h1" "host" "h" "worker" ""
        ∷ node "d1" "dpu" "d" "worker" "h1"
        ∷ [];
  });
}

declared_nodes-clean : check_kind declared_nodes ≡ []
unfolding check_kind str_eq
declared_nodes-clean = refl

check_kind-Accepted_example : All (KindNodeAccepted declared_nodes) (kind_nodes declared_nodes)
check_kind-Accepted_example = check_kind-Accepted declared_nodes declared_nodes-clean

abbrev machine : String → String → String → VmConfig
machine name node_type host = record {
  name = name;
  node_type = node_type;
  k8s_cluster = "h";
  k8s_role = "worker";
  k8s_node_mac = "52:54:00:00:00:01";
  k8s_node_ip = "192.168.1.2";
  host = host;
  memory = pos 2048;
  vcpus = pos 2;
  disk_size = pos 20;
}

abbrev pub two_machines : Config
two_machines = record two_clusters {
  kind = none;
  vms = machine "m1" "host" "" ∷ machine "m2" "dpu" "m1" ∷ [];
}

two_machines-clean : each check_vm 0 two_machines.vms ≡ []
unfolding each check_vm str_eq
two_machines-clean = refl

two_machines-hosted : (check_hosts two_machines).0 ≡ []
unfolding check_hosts str_eq
two_machines-hosted = refl

usable_gateway : validate_ipv4_cidr "10.1.0.0/24" ≡ none
unfolding validate_ipv4_cidr parse_cidr
usable_gateway = refl
