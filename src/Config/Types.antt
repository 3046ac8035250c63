-- ===== src/Config/Types.antt =====
-- pkg/config/types.go: the configuration as it is read from YAML. An optional section is an Option. The
-- `tft` subtree and the kubeconfig path of the traffic tests are handed through and left out here.
use dpu_simulator.Base.{Bool, List, Option, String, str_eq, if◌then◌else◌}
use dpu_simulator.Base.Int.{ℤ}

pub record NetworkConfig : Type 0 where
  pub name : String
  pub network_type : String
  pub bridge_name : String
  pub gateway : String
  pub subnet_mask : String
  pub dhcp_start : String
  pub dhcp_end : String
  pub mode : String
  pub nic_model : String
  pub use_ovs : Bool
  pub attach_to : String
  pub num_pairs : ℤ
  pub gateway_subnet : String
  pub mgmt_port_vfs_count : ℤ
  pub uplink_vfs_count : ℤ

pub record SshConfig : Type 0 where
  pub user : String
  pub key_path : String
  pub password : String

pub record BareMetalBootcConfig : Type 0 where
  pub enabled : Bool
  pub strategy : String
  pub image_ref : String
  pub transport : String
  pub apply : Bool
  pub soft_reboot : String
  pub retain : Bool
  pub enforce_container_sigpolicy : Bool
  pub wait_after_reboot : String

pub record BareMetalConfig : Type 0 where
  pub name : String
  pub node_type : String
  pub k8s_cluster : String
  pub k8s_role : String
  pub mgmt_ip : String
  pub node_ip : String
  pub host : String
  pub gateway_interface : String
  pub protected_ifaces : List String
  pub bootstrap_ssh : Option SshConfig
  pub bootc : Option BareMetalBootcConfig

pub record VmConfig : Type 0 where
  pub name : String
  pub node_type : String
  pub k8s_cluster : String
  pub k8s_role : String
  pub k8s_node_mac : String
  pub k8s_node_ip : String
  pub host : String
  pub memory : ℤ
  pub vcpus : ℤ
  pub disk_size : ℤ

pub record KindNodeConfig : Type 0 where
  pub name : String
  pub node_type : String
  pub k8s_cluster : String
  pub k8s_role : String
  pub host : String

pub record KindConfig : Type 0 where
  pub nodes : List KindNodeConfig

pub record OsConfig : Type 0 where
  pub image_url : String
  pub image_ref : String
  pub image_name : String

pub record ClusterConfig : Type 0 where
  pub name : String
  pub pod_cidr : String
  pub service_cidr : String
  pub cni : String
  pub addons : List String

pub record KubernetesConfig : Type 0 where
  pub version : String
  pub kubeconfig_dir : String
  pub offload_dpu : Bool
  pub clusters : List ClusterConfig

pub record RegistryContainerConfig : Type 0 where
  pub name : String
  pub cni : String
  pub tag : String

pub record RegistryConfig : Type 0 where
  pub enabled : Option Bool
  pub insecure_endpoints : List String
  pub containers : List RegistryContainerConfig

pub record Config : Type 0 where
  pub networks : List NetworkConfig
  pub vms : List VmConfig
  pub bare_metal : List BareMetalConfig
  pub kind : Option KindConfig
  pub operating_system : OsConfig
  pub ssh : SshConfig
  pub kubernetes : KubernetesConfig
  pub registry : Option RegistryConfig
  pub ovn_kubernetes_path : String
  pub ovn_kubernetes_mode : String

abbrev pub mgmt_network_name : String
mgmt_network_name = "mgmt"

abbrev pub host_to_dpu_network_type : String
host_to_dpu_network_type = "HostToDpu"

abbrev pub host_type : String
host_type = "host"

abbrev pub dpu_type : String
dpu_type = "dpu"

abbrev pub cni_flannel : String
cni_flannel = "flannel"

abbrev pub cni_ovn_kubernetes : String
cni_ovn_kubernetes = "ovn-kubernetes"

abbrev pub cni_kindnet : String
cni_kindnet = "kindnet"

-- GetKubeconfigDir.
unfoldable pub get_kubeconfig_dir : KubernetesConfig → String
get_kubeconfig_dir k = if str_eq k.kubeconfig_dir "" then "kubeconfig" else k.kubeconfig_dir
