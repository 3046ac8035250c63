-- ===== src/Cni/Install/Tests.antt =====
-- Addons installed by an installer that writes down what it does.
use dpu_simulator.Config.Nodes.{get_cluster_config}
use dpu_simulator.Config.Topology.{is_dpu_cluster}
use dpu_simulator.Cni.Overrides.{detect_ovnk_mode}
use dpu_simulator.Config.Mode.{should_install_ovn_kubernetes}
use dpu_simulator.Base.{
  ◌≡◌, refl, Bool, true, ◌&&◌, List, [], ◌∷◌, some, String, str_eq, if◌then◌else◌, arith, keep,
  str_eq_refl,
}
use dpu_simulator.Config.Types.{Config}
use dpu_simulator.Config.Tests.{two_clusters}
use dpu_simulator.Config.Addons.{addon_multus, addon_whereabouts}
use dpu_simulator.Platform.Executor.{Action, each}
use dpu_simulator.Cni.Install.{
  Installer, has_addon, install_cni_and_addons, resolve_addon_install_order,
  needs_multus_before_ovn_kubernetes, phases, install_pre_cni_addon, install_cni, install_primary,
  install_addons,
}
use dpu_simulator.Cni.Install.Order.{
  is_other, Placed, resolve_addon_install_order-members, resolve_addon_install_order-Placed,
}
use dpu_simulator.Cni.Install.Ready.{guarded, Definitions, install_cni_and_addons-guarded}

abbrev note : String → Action (List String) Unit
note step log = (some tt, step ∷ log)

-- The last step stands first.
abbrev recorder : Installer (List String)
recorder = record {
  flannel = λ cluster. note "flannel";
  ovn_kubernetes = λ cluster ip. note "ovn-kubernetes";
  multus = λ cluster host early. note "multus";
  cert_manager = λ cluster. note "cert-manager";
  whereabouts = λ cluster. note "whereabouts";
  redeploy_ovn_kubernetes = λ cluster. note "redeploy";
}

abbrev has_definitions : List String → Bool
has_definitions log = has_addon log "multus"

recorder-Definitions : Definitions recorder has_definitions
recorder-Definitions = record {
  multus_brings = λ cluster host early w ok. rw (str_eq_refl "multus") refl;
  whereabouts_keeps = λ cluster w h. kept "whereabouts" w h;
  multus_keeps = λ cluster host early w h. kept "multus" w h;
  flannel_keeps = λ cluster w h. kept "flannel" w h;
  ovn_kubernetes_keeps = λ cluster ip w h. kept "ovn-kubernetes" w h;
}
  where
    kept :
        (step : String) (w : List String)
        → has_definitions w ≡ true
        → has_definitions (step ∷ w) ≡ true
    kept step w h = ground arith

abbrev addons : List String
addons = "cert-manager" ∷ "multus" ∷ "whereabouts" ∷ []

abbrev host_with_addons : Config
host_with_addons = record two_clusters {
  kubernetes = record {
    version = "1.33";
    kubeconfig_dir = "kubeconfig";
    offload_dpu = true;
    clusters =
        record {
          name = "h";
          pod_cidr = "10.244.0.0/16";
          service_cidr = "10.245.0.0/16";
          cni = "ovn-kubernetes";
          addons = addons;
        }
        ∷ [];
  };
}

needs_multus : needs_multus_before_ovn_kubernetes host_with_addons "h" ≡ true
unfolding needs_multus_before_ovn_kubernetes str_eq should_install_ovn_kubernetes detect_ovnk_mode
    is_dpu_cluster get_cluster_config
needs_multus = refl

install_cni_and_addons-guarded_example :
    install_cni_and_addons recorder host_with_addons "ovn-kubernetes" "h" "10.0.0.1" addons []
    ≡ install_cni_and_addons
        (guarded has_definitions recorder)
        host_with_addons
        "ovn-kubernetes"
        "h"
        "10.0.0.1"
        addons
        []
unfolding str_eq
install_cni_and_addons-guarded_example =
    install_cni_and_addons-guarded recorder host_with_addons has_definitions recorder-Definitions
      "h" "10.0.0.1" "ovn-kubernetes" addons [] needs_multus refl

steps_taken :
    install_cni_and_addons recorder host_with_addons "ovn-kubernetes" "h" "10.0.0.1" addons []
    ≡ (some tt, "cert-manager" ∷ "ovn-kubernetes" ∷ "multus" ∷ "whereabouts" ∷ [])
unfolding install_cni_and_addons needs_multus_before_ovn_kubernetes str_eq each phases
    should_install_ovn_kubernetes detect_ovnk_mode is_dpu_cluster get_cluster_config
    resolve_addon_install_order install_pre_cni_addon install_cni install_primary install_addons
steps_taken = refl

-- Whereabouts alone is left out.
resolve_addon_install_order-members_example :
    has_addon (resolve_addon_install_order ("whereabouts" ∷ [])) addon_whereabouts ≡ (
      if str_eq addon_whereabouts addon_whereabouts
      then has_addon ("whereabouts" ∷ []) addon_whereabouts
        && has_addon ("whereabouts" ∷ []) addon_multus
      else has_addon ("whereabouts" ∷ []) addon_whereabouts)
resolve_addon_install_order-members_example =
    resolve_addon_install_order-members ("whereabouts" ∷ []) addon_whereabouts

left_out : ◌≡◌ {A = List String} (resolve_addon_install_order ("whereabouts" ∷ [])) []
unfolding resolve_addon_install_order str_eq
left_out = refl

resolve_addon_install_order-Placed_example :
    let ordered = resolve_addon_install_order addons in
    Placed ordered
    × (keep is_other ordered ≡ keep is_other addons)
    × (resolve_addon_install_order ordered ≡ ordered)
unfolding str_eq
resolve_addon_install_order-Placed_example = resolve_addon_install_order-Placed addons refl
