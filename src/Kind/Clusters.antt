-- ===== src/Kind/Clusters.antt =====
-- BuildKindConfig of pkg/kind/config.go: the configuration of a Kind cluster. The kubeadm patches that are
-- the same for every cluster are left out.
pub mod Named
use Prim.Native.String.{◌++◌ as concat}
use dpu_simulator.Base.{
  Bool, true, false, not, ◌&&◌, List, [], ◌∷◌, Option, none, some, String, str_eq, if◌then◌else◌,
}
use dpu_simulator.Config.Types.{Config, ClusterConfig, KindNodeConfig}
use dpu_simulator.Config.Mode.{is_registry_enabled}
use dpu_simulator.Config.Nodes.{get_kind_nodes_for_cluster}

pub record KindNode : Type 0 where
  pub role : String
  pub kubeadm_patch : String

-- The IP family is IPv4 and the registry patch points to /etc/containerd/certs.d.
pub record KindCluster : Type 0 where
  pub name : String
  pub pod_subnet : String
  pub service_subnet : String
  pub disable_default_cni : Bool
  pub kube_proxy_mode : String
  pub nodes : List KindNode
  pub has_registry_patch : Bool

unfoldable pub kind_role : String → String
kind_role role = if str_eq role "master" then "control-plane" else role

unfoldable pub init_patch : String → String
init_patch labels =
    concat "kind: InitConfiguration\nnodeRegistration:\n  kubeletExtraArgs:\n    node-labels: \""
      (concat labels "\"")

unfoldable pub build_node : Bool → KindNodeConfig → KindNode
unfolding kind_role init_patch
build_node first node =
    let label = concat "dpu-sim.org/node-name=" node.name in
    record {
      role = kind_role node.k8s_role;
      kubeadm_patch =
          if str_eq (kind_role node.k8s_role) "control-plane" && first
          then concat (init_patch (concat label ",ingress-ready=true"))
              "\n    authorization-mode: \"AlwaysAllow\""
          else init_patch label;
    }

-- The loop over the nodes, with `firstControlPlane`.
unfoldable pub build_nodes : Bool → List KindNodeConfig → List KindNode
unfolding build_node kind_role
build_nodes first [] = []
build_nodes first (node ∷ nodes) =
    build_node first node
    ∷ build_nodes (first && not (str_eq (kind_role node.k8s_role) "control-plane")) nodes

unfoldable pub build_kind_config : Config → String → ClusterConfig → Option KindCluster
unfolding build_nodes
build_kind_config c cluster_name cluster = elim (get_kind_nodes_for_cluster c cluster_name) [
  | [] ↦ none
  | node ∷ nodes ↦ some (record {
    name = cluster_name;
    pod_subnet = cluster.pod_cidr;
    service_subnet = cluster.service_cidr;
    disable_default_cni = not (str_eq cluster.cni "") && not (str_eq cluster.cni "kindnet");
    kube_proxy_mode = if str_eq cluster.cni "ovn-kubernetes" then "none" else "";
    nodes = build_nodes true (node ∷ nodes);
    has_registry_patch = is_registry_enabled c;
  })
]
