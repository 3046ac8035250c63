-- ===== src/Config/Validate.antt =====
-- validateAndSetDefaults of pkg/config/config.go, past the networks: VMs, bare-metal nodes, the operating
-- system, Kind nodes, clusters, registry containers and the hosts that DPUs name. Each part gives its
-- errors, with the index of the entry that they are about. What is about SSH and the endpoints of the
-- registry is left out.
pub mod Accepted
use dpu_simulator.Base.{
  ℕ, suc, Bool, true, false, not, ◌&&◌, ◌||◌, List, [], ◌∷◌, ◌++◌, Option, none, some, String,
  str_eq, if◌then◌else◌, when, any, map,
}
use dpu_simulator.Base.Int.{ℤ, pos, leb_ℤ}
use dpu_simulator.Config.Addons.{Addons, validate_and_normalize_addons}
use dpu_simulator.Config.Mode.{
  ModeResult, mode_is, no_mode, kind_mode, vm_mode, get_deployment_mode,
  is_registry_image_build_only, is_empty, kind_nodes,
}
use dpu_simulator.Config.Types.{
  Config, VmConfig, BareMetalConfig, BareMetalBootcConfig, KindNodeConfig, OsConfig, ClusterConfig,
  RegistryContainerConfig, host_type, dpu_type, cni_ovn_kubernetes, cni_flannel, cni_kindnet,
}

-- One constructor for each kind of message, with the field and, where the message shows it, its value.
pub data FieldError : Type 0 where
  required not_positive mutually_exclusive : String → FieldError
  not_one_of not_found : String → String → FieldError
  unsupported_addon : ℕ → String → FieldError
  only_in_kind_mode : FieldError

-- The errors of the entries of a list, from index `i` on.
unfoldable pub each {ℓ} : {A : Type ℓ} → (A → List FieldError) → ℕ → List A → List (ℕ × FieldError)
each check i [] = []
each check i (x ∷ xs) = map (λ e. (i, e)) (check x) ++ each check (suc i) xs

abbrev pub is_blank : String → Bool
is_blank s = str_eq s ""

abbrev pub need : String → String → List FieldError
need field value = when (is_blank value) (required field)

abbrev positive : String → ℤ → List FieldError
positive field value = when (leb_ℤ value (pos 0)) (not_positive field)

abbrev pub is_node_type : String → Bool
is_node_type t = str_eq t host_type || str_eq t dpu_type

unfoldable pub check_vm : VmConfig → List FieldError
check_vm vm =
    need "name" vm.name
    ++ (if is_blank vm.node_type
        then required "type" ∷ []
        else when (not (is_node_type vm.node_type)) (not_one_of "type" vm.node_type))
    ++ need "k8s_cluster" vm.k8s_cluster
    ++ need "k8s_role" vm.k8s_role
    ++ need "k8s_node_mac" vm.k8s_node_mac
    ++ need "k8s_node_ip" vm.k8s_node_ip
    ++ positive "memory" vm.memory
    ++ positive "vcpus" vm.vcpus
    ++ positive "disk_size" vm.disk_size
    ++ when (str_eq vm.node_type dpu_type && is_blank vm.host) (required "host")

-- A bare-metal node with the default of its type.
abbrev pub with_type : BareMetalConfig → BareMetalConfig
with_type node = record node {
  node_type = if is_blank node.node_type then host_type else node.node_type;
}

unfoldable pub check_bare_metal : BareMetalConfig → List FieldError
check_bare_metal node =
    let typed = with_type node in
    need "name" node.name
    ++ when (not (is_node_type typed.node_type)) (not_one_of "type" typed.node_type)
    ++ need "k8s_cluster" node.k8s_cluster
    ++ need "k8s_role" node.k8s_role
    ++ need "mgmt_ip" node.mgmt_ip
    ++ need "node_ip" node.node_ip
    ++ when (str_eq typed.node_type dpu_type && is_blank node.host) (required "host")

-- The `bootc` section of a bare-metal node, where it is enabled.
unfoldable pub check_bootc : BareMetalBootcConfig → BareMetalBootcConfig × List FieldError
check_bootc b =
    let strategy = if is_blank b.strategy then "switch" else b.strategy in
    let transport = if is_blank b.transport then "registry" else b.transport in
    if b.enabled
    then (
      record b { strategy = strategy; transport = transport },
      when (not (str_eq strategy "switch") && not (str_eq strategy "upgrade"))
            (not_one_of "bootc.strategy" strategy)
          ++ when (str_eq strategy "switch" && is_blank b.image_ref) (required "bootc.image_ref")
          ++ when
              (not (is_blank b.soft_reboot)
                && not (str_eq b.soft_reboot "auto")
                && not (str_eq b.soft_reboot "required"))
              (not_one_of "bootc.soft_reboot" b.soft_reboot),
    )
    else (b, [])

-- The operating system, where there are VMs.
unfoldable pub check_os : Config → List FieldError
check_os c =
    let os = c.operating_system in
    if is_empty c.vms
    then []
    else when (is_blank os.image_url && is_blank os.image_ref) (required "image_url or image_ref")
      ++ when (not (is_blank os.image_url) && not (is_blank os.image_ref))
          (mutually_exclusive "image_url and image_ref")
      ++ need "image_name" os.image_name

unfoldable pub check_kind_node : KindNodeConfig → List FieldError
check_kind_node node =
    need "name" node.name
    ++ when
        (not (is_blank node.k8s_role)
          && not (str_eq node.k8s_role "control-plane")
          && not (str_eq node.k8s_role "worker"))
        (not_one_of "k8s_role" node.k8s_role)
    ++ need "k8s_cluster" node.k8s_cluster
    ++ when (not (is_blank node.node_type) && not (is_node_type node.node_type))
        (not_one_of "type" node.node_type)
    ++ when (str_eq node.node_type "dpu" && is_blank node.host) (required "host")

-- `kindNodeNames[name]` and `clusterNames[name]`; the empty name is no node.
abbrev pub is_kind_node_name : Config → String → Bool
is_kind_node_name c name =
    not (is_blank name) && any (λ (n : KindNodeConfig). str_eq n.name name) (kind_nodes c)

abbrev pub is_cluster_name : Config → String → Bool
is_cluster_name c name = any (λ (cl : ClusterConfig). str_eq cl.name name) c.kubernetes.clusters

unfoldable pub check_kind_references : Config → KindNodeConfig → List FieldError
check_kind_references c node =
    when (not (is_blank node.k8s_cluster) && not (is_cluster_name c node.k8s_cluster))
      (not_found "k8s_cluster" node.k8s_cluster)
    ++ when
        (str_eq node.node_type "dpu"
          && not (is_blank node.host)
          && not (is_kind_node_name c node.host))
        (not_found "host" node.host)

unfoldable pub check_kind : Config → List (ℕ × FieldError)
unfolding each check_kind_node check_kind_references
check_kind c =
    each check_kind_node 0 (kind_nodes c) ++ each (check_kind_references c) 0 (kind_nodes c)

addon_errors : List (ℕ × String) → List FieldError
addon_errors [] = []
addon_errors ((i, addon) ∷ errors) = unsupported_addon i addon ∷ addon_errors errors

-- A cluster with its defaults and its addons normalized.
unfoldable pub check_cluster : ClusterConfig → ClusterConfig × List FieldError
unfolding addon_errors
check_cluster cl =
    let addons = validate_and_normalize_addons cl.addons in
    (
      record cl {
        pod_cidr = if is_blank cl.pod_cidr then "10.244.0.0/16" else cl.pod_cidr;
        service_cidr = if is_blank cl.service_cidr then "10.245.0.0/16" else cl.service_cidr;
        addons = addons.normalized;
      },
      need "name" cl.name
          ++ (if is_blank cl.cni
              then required "cni" ∷ []
              else when
                  (not (str_eq cl.cni cni_ovn_kubernetes)
                    && not (str_eq cl.cni cni_flannel)
                    && not (str_eq cl.cni cni_kindnet))
                  (not_one_of "cni" cl.cni))
          ++ addon_errors addons.errors,
    )

unfoldable pub check_container : RegistryContainerConfig → List FieldError
check_container container =
    need "name" container.name
    ++ (if is_blank container.cni
        then required "cni" ∷ []
        else when (not (str_eq container.cni cni_ovn_kubernetes)) (not_one_of "cni" container.cni))
    ++ need "tag" container.tag

is_other_mode : ModeResult → Bool
is_other_mode (mode_is kind_mode) = false
is_other_mode (mode_is vm_mode) = true
is_other_mode (no_mode e) = false

unfoldable pub check_build_only : Config → List FieldError
unfolding is_other_mode get_deployment_mode is_registry_image_build_only
check_build_only c =
    when (is_registry_image_build_only c && is_other_mode (get_deployment_mode c)) only_in_kind_mode

-- `hostNames[name]`: a bare-metal node without a type has been given the type of a host.
unfoldable pub is_host_name : Config → String → Bool
is_host_name c name =
    any (λ (vm : VmConfig). str_eq vm.node_type host_type && str_eq vm.name name) c.vms
    || any
        (λ (node : BareMetalConfig).
          str_eq (with_type node).node_type host_type && str_eq node.name name)
        c.bare_metal

unfoldable pub check_host_of : Config → String → String → List FieldError
unfolding is_host_name
check_host_of c node_type host =
    when (str_eq node_type dpu_type && not (is_blank host) && not (is_host_name c host))
      (not_found "host" host)

-- The hosts that DPUs name, where there are VMs: the errors of the VMs, and those of the bare-metal nodes.
unfoldable pub check_hosts : Config → List (ℕ × FieldError) × List (ℕ × FieldError)
unfolding each check_host_of
check_hosts c = if is_empty c.vms then ([], []) else (
  each (λ (vm : VmConfig). check_host_of c vm.node_type vm.host) 0 c.vms,
  each (λ (node : BareMetalConfig). check_host_of c (with_type node).node_type node.host) 0
      c.bare_metal,
)
