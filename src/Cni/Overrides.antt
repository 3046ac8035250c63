-- ===== src/Cni/Overrides.antt =====
-- The Helm overrides of pkg/cni/helm_values.go for each mode of OVN-Kubernetes, and the pod network with its
-- prefix for each node. The credentials of the host cluster, or that there are none, are an argument.
pub mod Readable
use Prim.Native.String.{◌++◌ as concat}
use dpu_simulator.Base.{
  ℕ, ◌≡◌, Bool, true, false, not, ◌&&◌, ◌||◌, List, [], ◌∷◌, ◌++◌, Option, none, some, String,
  str_eq, if◌then◌else◌, ◌==◌, any,
}
use dpu_simulator.Base.Text.{Bytes, codes, itoa_int}
use dpu_simulator.Base.Int.{ℤ, pos}
use dpu_simulator.Config.Gateway.{gateway_opts}
use dpu_simulator.Config.Nodes.{HostDpuPair, get_host_dpu_pairs}
use dpu_simulator.Config.Mode.{is_kind_mode, is_offload_dpu, is_registry_enabled}
use dpu_simulator.Config.Registry.{ovn_kubernetes_image_for_helm}
use dpu_simulator.Config.Topology.{is_dpu_cluster, dpu_host_management_port_vfs_count}
use dpu_simulator.Config.Types.{Config}
use dpu_simulator.Cni.Values.{Scalar, text, flag, number, HelmValue, Values, helm_values_to_map}

pub data OvnkMode : Type 0 where
  full dpu_host dpu : OvnkMode

unfoldable pub detect_ovnk_mode : Config → String → OvnkMode
detect_ovnk_mode c cluster_name =
    if not (is_offload_dpu c) then full else if is_dpu_cluster c cluster_name then dpu else dpu_host

pub record DpuHostCredentials : Type 0 where
  pub api_server : Bytes
  pub token : Bytes
  pub ca_cert : Bytes
  pub pod_cidr : Bytes
  pub service_cidr : Bytes

-- Before and behind the last colon, where no slash is behind it.
unfoldable pub last_colon : Bytes → Option (Bytes × Bytes)
last_colon [] = none
last_colon (c ∷ image) = elim (last_colon image) [
  | some (repo, tag) ↦ some (c ∷ repo, tag)
  | none ↦ if c == b':' && not (any (λ b. b == b'/') image) then some ([], image) else none
]

unfoldable pub split_image_ref : Bytes → Bytes × Bytes
unfolding last_colon
split_image_ref image = elim (last_colon image) [ none ↦ (image, codes "latest") | some ref ↦ ref ]

abbrev set : String → Scalar → HelmValue
set key value = record { key = key; value = value }

unfoldable pub image_helm_values : String → Bytes → Bytes → Bytes → List HelmValue
image_helm_values prefix repository tag pull_policy =
    set (concat prefix ".repository") (text repository)
    ∷ set (concat prefix ".tag") (text tag)
    ∷ set (concat prefix ".pullPolicy") (text pull_policy)
    ∷ []

unfoldable pub pull_policy_of : Config → Bytes
pull_policy_of c =
    if is_kind_mode c && not (is_registry_enabled c) then codes "IfNotPresent" else codes "Always"

unfoldable pub dpu_host_overrides : Config → String → Bool → List HelmValue
dpu_host_overrides c cluster_name include_mgmt_port_resource =
    set "tags.ovs-node" (flag false)
    ∷ set "tags.ovnkube-node-dpu-host" (flag true)
    ∷ set "tags.ovnkube-identity" (flag false)
    ∷ set "tags.ovnkube-control-plane" (flag true)
    ∷ set "tags.ovnkube-single-node-zone" (flag true)
    ∷ set "tags.ovnkube-node" (flag false)
    ∷ set "global.enableOvnKubeIdentity" (flag false)
    ∷ set "global.enableMultiNetwork" (flag true)
    ∷ set "global.enableNetworkSegmentation" (flag true)
    ∷ set "global.enableUplink" (flag true)
    ∷ set "global.simulateDpu" (flag true)
    ∷ set "global.gatewayOpts" (text (codes (gateway_opts c cluster_name)))
    ∷ set "ovnkube-node-dpu-host.gatewayOpts" (text (codes "--gateway-interface=eth0-0"))
    ∷ (if include_mgmt_port_resource
        then set "ovnkube-single-node-zone.mgmtPortVFResourceName" (text [])
          ∷ set "ovnkube-single-node-zone.nodeMgmtPortNetdev" (text [])
          ∷ set "ovnkube-node-dpu-host.mgmtPortVFResourceName" (text (codes "dpusim.io/mgmtvf"))
          ∷ set "ovnkube-node-dpu-host.mgmtPortVFsCount"
              (number (dpu_host_management_port_vfs_count c))
          ∷ []
        else set "ovnkube-node-dpu-host.nodeMgmtPortNetdev" (text (codes "eth0-1")) ∷ [])

unfoldable pub dpu_overrides : Config → String → List HelmValue
dpu_overrides c cluster_name =
    set "tags.ovs-node" (flag false)
    ∷ set "tags.ovnkube-node-dpu-host" (flag false)
    ∷ set "tags.ovnkube-identity" (flag false)
    ∷ set "tags.ovnkube-control-plane" (flag false)
    ∷ set "tags.ovnkube-single-node-zone-dpu" (flag true)
    ∷ set "tags.ovnkube-node-dpu" (flag false)
    ∷ set "global.enableOvnKubeIdentity" (flag false)
    ∷ set "global.enableMultiNetwork" (flag true)
    ∷ set "global.enableNetworkSegmentation" (flag true)
    ∷ set "global.enableUplink" (flag true)
    ∷ set "global.simulateDpu" (flag true)
    ∷ set "global.gatewayOpts" (text (codes (gateway_opts c cluster_name)))
    ∷ set "global.dpuHostGatewayRepresentorInterface" (text (codes "rep0-0"))
    ∷ set "global.mtu" (number (pos 1400))
    ∷ []

unfoldable pub credential_overrides : DpuHostCredentials → List HelmValue
credential_overrides creds =
    set "global.dpuHostClusterK8sAPIServer" (text creds.api_server)
    ∷ set "global.dpuHostClusterK8sToken" (text creds.token)
    ∷ set "global.dpuHostClusterK8sCACertData" (text creds.ca_cert)
    ∷ set "global.dpuHostClusterNetworkCIDR" (text creds.pod_cidr)
    ∷ set "global.dpuHostClusterServiceCIDR" (text creds.service_cidr)
    ∷ []

unfoldable pub ovnk_helm_overrides :
    Config
    → OvnkMode
    → String
    → Bytes
    → Option DpuHostCredentials
    → Bool
    → Bool
    → Option (List HelmValue)
unfolding image_helm_values pull_policy_of dpu_host_overrides dpu_overrides credential_overrides
ovnk_helm_overrides c full cluster_name ovn_image creds require_creds include_mgmt =
    let (repo, tag) = split_image_ref ovn_image in
    some (image_helm_values "global.image" repo tag (pull_policy_of c))
ovnk_helm_overrides c dpu_host cluster_name ovn_image creds require_creds include_mgmt =
    let (repo, tag) = split_image_ref ovn_image in
    some (
      image_helm_values "global.image" repo tag (pull_policy_of c)
      ++ dpu_host_overrides c cluster_name include_mgmt)
ovnk_helm_overrides c dpu cluster_name ovn_image creds require_creds include_mgmt =
    let (repo, tag) = split_image_ref ovn_image in
    let overrides =
      image_helm_values "global.dpuImage" repo tag (pull_policy_of c)
      ++ dpu_overrides c cluster_name in
    elim creds [
      | none ↦ if require_creds then none else some overrides
      | some k ↦ some (overrides ++ credential_overrides k)
    ]

unfoldable pub scalar_bytes : Scalar → Bytes
scalar_bytes (text b) = b
scalar_bytes (flag b) = codes (if b then "true" else "false")
scalar_bytes (number n) = codes (itoa_int n)

unfoldable pub append_helm_set_args : List Bytes → List HelmValue → List Bytes
unfolding scalar_bytes
append_helm_set_args args [] = args
append_helm_set_args args (h ∷ values) =
    append_helm_set_args
      (args ++ codes "--set" ∷ (codes h.key ++ codes "=" ++ scalar_bytes h.value) ∷ []) values

abbrev pub in_map : Option (List HelmValue) → Option Values
in_map none = none
in_map (some overrides) = helm_values_to_map overrides

-- Whether each of the calls on directories and files succeeds, and the marshalling.
pub record Written : Type 0 where
  pub frr_dir_made : Bool
  pub frr_kubeconfig_written : Bool
  pub host_path_resolved : Bool
  pub env_dir_made : Bool
  pub env_written : Bool
  pub values_dir_made : Bool
  pub values_marshalled : Bool
  pub values_written : Bool

-- writeFRRK8sRemoteEnv, less the text of the file; `false` is the error.
unfoldable pub write_frr_k8s_remote_env : Written → List HostDpuPair → Bool
write_frr_k8s_remote_env r [] = false
write_frr_k8s_remote_env r (pair ∷ pairs) = r.env_dir_made && r.env_written

-- writeFRRK8sRemoteArtifacts, with what the secret of FRR-K8S gives and less the text of the kubeconfig.
unfoldable pub write_frr_k8s_remote_artifacts :
    Written → Option DpuHostCredentials → List HostDpuPair → Bool
unfolding write_frr_k8s_remote_env
write_frr_k8s_remote_artifacts r none pairs = false
write_frr_k8s_remote_artifacts r (some creds) pairs =
    r.frr_dir_made
    && r.frr_kubeconfig_written
    && r.host_path_resolved
    && write_frr_k8s_remote_env r pairs

abbrev pub is_dpu_mode : OvnkMode → Bool
is_dpu_mode dpu = true
is_dpu_mode mode = false

-- writeOVNKubernetesHelmValues, from the values on; `none` is the error, and else these are in the file.
unfoldable pub write_values :
    Written
    → OvnkMode
    → Option DpuHostCredentials
    → List HostDpuPair
    → Bool
    → Option Values
    → Option Values
unfolding write_frr_k8s_remote_artifacts
write_values r mode frr_creds pairs require_creds none = none
write_values r mode frr_creds pairs require_creds (some values) =
    if is_dpu_mode mode && not (write_frr_k8s_remote_artifacts r frr_creds pairs) && require_creds
    then none
    else if r.values_dir_made && r.values_marshalled && r.values_written
    then some values
    else none

-- GenerateOVNKubernetesHelmValues, with the credentials of OVN-Kubernetes and of FRR-K8S that the host cluster
-- gives.
unfoldable pub generate_ovnk_helm_values :
    Config
    → Written
    → String
    → Option DpuHostCredentials
    → Option DpuHostCredentials
    → Bool
    → Option Values
unfolding detect_ovnk_mode ovnk_helm_overrides write_values
generate_ovnk_helm_values c r cluster_name creds frr_creds require_creds =
    let mode = detect_ovnk_mode c cluster_name in
    let image =
      ovn_kubernetes_image_for_helm c
        (codes "ghcr.io/ovn-kubernetes/ovn-kubernetes/ovn-kube-fedora:master") in
    write_values r mode frr_creds (get_host_dpu_pairs c cluster_name) require_creds
      (in_map (ovnk_helm_overrides c mode cluster_name image creds require_creds true))
