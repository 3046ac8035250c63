-- ===== src/Cni/Install.antt =====
-- pkg/cni/install.go: the CNI of a cluster and its addons, in the order in which they are installed. The
-- installation of each of them is an action of an interface.
pub mod Order
pub mod Ready
pub mod Tests
use dpu_simulator.Base.{
  Bool, true, false, not, ◌&&◌, ◌||◌, List, [], ◌∷◌, Option, none, some, String, str_eq,
  if◌then◌else◌, any,
}
use dpu_simulator.Config.Types.{Config, cni_flannel, cni_ovn_kubernetes, cni_kindnet}
use dpu_simulator.Config.Mode.{is_kind_mode, should_install_ovn_kubernetes}
use dpu_simulator.Config.Nodes.{get_cluster_config, get_cni_type}
use dpu_simulator.Config.Topology.{dpu_cluster_needs_ovnk}
use dpu_simulator.Config.Addons.{addon_multus, addon_cert_manager, addon_whereabouts}
use dpu_simulator.Cni.Overrides.{OvnkMode, full, dpu_host, dpu, detect_ovnk_mode}
use dpu_simulator.Platform.Executor.{Action, done, fail, ◌>>=◌, ◌>>◌, each}

abbrev pub has_addon : List String → String → Bool
has_addon addons addon = any (λ a. str_eq a addon) addons

-- The loop of resolveAddonInstallOrder where Whereabouts is among the addons.
unfoldable pub place_whereabouts : List String → List String
place_whereabouts [] = []
place_whereabouts (addon ∷ addons) =
    let rest = place_whereabouts addons in
    if str_eq addon addon_whereabouts
    then rest
    else if str_eq addon addon_multus
    then addon_whereabouts ∷ addon ∷ rest
    else addon ∷ rest

unfoldable pub resolve_addon_install_order : List String → List String
unfolding place_whereabouts
resolve_addon_install_order addons =
    if has_addon addons addon_whereabouts then place_whereabouts addons else addons

abbrev is_pre_cni : String → Bool
is_pre_cni addon = str_eq addon addon_multus || str_eq addon addon_whereabouts

-- The addons before the CNI and those after it.
unfoldable pub partition_pre_cni_addons : List String → List String × List String
partition_pre_cni_addons [] = ([], [])
partition_pre_cni_addons (addon ∷ addons) =
    let (pre, post) = partition_pre_cni_addons addons in
    if is_pre_cni addon then (addon ∷ pre, post) else (pre, addon ∷ post)

unfoldable pub cluster_has_addon : Config → String → String → Bool
cluster_has_addon c cluster_name addon = elim (get_cluster_config c cluster_name) [
  | none ↦ false
  | some cluster ↦ has_addon cluster.addons addon
]

abbrev is_dpu_host : OvnkMode → Bool
is_dpu_host dpu_host = true
is_dpu_host m = false

unfoldable pub needs_multus_before_ovn_kubernetes : Config → String → Bool
unfolding cluster_has_addon
needs_multus_before_ovn_kubernetes c cluster_name =
    if not (should_install_ovn_kubernetes c)
    then false
    else if not (is_dpu_host (detect_ovnk_mode c cluster_name))
    then false
    else cluster_has_addon c cluster_name addon_multus

-- preCNIAddons and postCNIAddons.
unfoldable pub phases : Config → String → List String → List String × List String
unfolding needs_multus_before_ovn_kubernetes partition_pre_cni_addons
phases c cluster_name ordered =
    if needs_multus_before_ovn_kubernetes c cluster_name
    then partition_pre_cni_addons ordered
    else ([], ordered)

-- The installations, for the cluster of a name. Multus before the CNI does not wait until it is ready.
pub record Installer (W : Type 0) : Type 0 where
  pub flannel : String → Action W Unit
  pub ovn_kubernetes : String → String → Action W Unit
  pub multus : String → String → Bool → Action W Unit
  pub cert_manager : String → Action W Unit
  pub whereabouts : String → Action W Unit
  pub redeploy_ovn_kubernetes : String → Action W Unit

module _ {W : Type 0} (m : Installer W) (c : Config) where
  -- The switch on the type of the CNI.
  unfoldable pub install_primary : String → String → String → Action W Unit
  install_primary cni_type cluster_name k8s_ip =
      if str_eq cni_type cni_flannel
      then m.flannel cluster_name
      else if str_eq cni_type cni_ovn_kubernetes
      then m.ovn_kubernetes cluster_name k8s_ip
      else if str_eq cni_type cni_kindnet
      then (if is_kind_mode c then done tt else fail)
      else fail

  unfoldable pub install_cni : String → String → String → Action W Unit
  install_cni cni_type cluster_name k8s_ip =
      install_primary cni_type cluster_name k8s_ip
      >> (if not (str_eq cni_type cni_ovn_kubernetes) && dpu_cluster_needs_ovnk c cluster_name
          then m.ovn_kubernetes cluster_name k8s_ip
          else done tt)

  unfoldable pub install_addon : String → String → String → Action W Unit
  install_addon cluster_name api_server_host addon =
      if str_eq addon addon_multus
      then m.multus cluster_name api_server_host false
      else if str_eq addon addon_cert_manager
      then m.cert_manager cluster_name
      else if str_eq addon addon_whereabouts
      then m.whereabouts cluster_name
      else fail

  unfoldable pub install_pre_cni_addon : String → String → String → Action W Unit
  install_pre_cni_addon cluster_name api_server_host addon =
      if str_eq addon addon_multus
      then m.multus cluster_name api_server_host true
      else if str_eq addon addon_whereabouts
      then m.whereabouts cluster_name
      else fail

  unfoldable pub install_addons : List String → String → String → Action W Unit
  unfolding each install_addon resolve_addon_install_order
  install_addons addons cluster_name api_server_host =
      each (install_addon cluster_name api_server_host) (resolve_addon_install_order addons)

  unfoldable pub install_cni_and_addons : String → String → String → List String → Action W Unit
  install_cni_and_addons cni_type cluster_name k8s_ip addons =
      let (pre, post) = phases c cluster_name (resolve_addon_install_order addons) in
      do
        each (install_pre_cni_addon cluster_name k8s_ip) pre
        install_cni cni_type cluster_name k8s_ip
        install_addons post cluster_name k8s_ip

  -- The last branch is that of a DPU cluster with another CNI.
  unfoldable pub redeploy_cni : String → Action W Unit
  redeploy_cni cluster_name =
      let cni_type = get_cni_type c cluster_name in
      if str_eq cni_type cni_ovn_kubernetes
      then m.redeploy_ovn_kubernetes cluster_name
      else if dpu_cluster_needs_ovnk c cluster_name
      then m.redeploy_ovn_kubernetes cluster_name
      else done tt
