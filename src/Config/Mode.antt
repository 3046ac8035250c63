-- ===== src/Config/Mode.antt =====
-- pkg/config/config.go: the deployment mode, the OVN-Kubernetes mode and the registry switches.
use dpu_simulator.Base.{
  Bool, true, false, not, ◌&&◌, ◌||◌, List, [], ◌∷◌, Option, none, some, String, str_eq,
  if◌then◌else◌, ◌≡◌, arith, ◌⊎◌, ◌↔◌,
}
use dpu_simulator.Config.Types.{Config, RegistryConfig, KindNodeConfig}

pub data DeploymentMode : Type 0 where
  kind_mode vm_mode : DeploymentMode

pub data ModeError : Type 0 where
  both_sections neither_section : ModeError

pub data ModeResult : Type 0 where
  mode_is : DeploymentMode → ModeResult
  no_mode : ModeError → ModeResult

abbrev pub is_empty {ℓ} : {A : Type ℓ} → List A → Bool
is_empty [] = true
is_empty (x ∷ xs) = false

-- The nodes of the kind section, none where there is no such section.
abbrev pub kind_nodes : Config → List KindNodeConfig
kind_nodes c = elim c.kind [ none ↦ [] | some k ↦ k.nodes ]

unfoldable pub get_deployment_mode : Config → ModeResult
get_deployment_mode c =
    let has_vms = not (is_empty c.vms) || not (is_empty c.bare_metal) in
    let has_kind = not (is_empty (kind_nodes c)) in
    if has_kind && has_vms
    then no_mode both_sections
    else if has_kind
    then mode_is kind_mode
    else if has_vms
    then mode_is vm_mode
    else no_mode neither_section

is_mode : DeploymentMode → ModeResult → Bool
is_mode kind_mode (mode_is kind_mode) = true
is_mode vm_mode (mode_is vm_mode) = true
is_mode _ _ = false

unfoldable pub is_kind_mode : Config → Bool
unfolding get_deployment_mode is_mode
is_kind_mode c = is_mode kind_mode (get_deployment_mode c)

unfoldable pub is_vm_mode : Config → Bool
unfolding get_deployment_mode is_mode
is_vm_mode c = is_mode vm_mode (get_deployment_mode c)

-- SetOVNKubernetesMode: `none` is the error, and leaves the configuration alone.
unfoldable pub set_ovn_kubernetes_mode : String → Config → Option Config
set_ovn_kubernetes_mode mode c =
    if str_eq mode "" || str_eq mode "install"
    then some (record c { ovn_kubernetes_mode = "install" })
    else if str_eq mode "values-only"
    then some (record c { ovn_kubernetes_mode = "values-only" })
    else none

unfoldable pub should_install_ovn_kubernetes : Config → Bool
should_install_ovn_kubernetes c =
    str_eq c.ovn_kubernetes_mode "" || str_eq c.ovn_kubernetes_mode "install"

abbrev pub is_offload_dpu : Config → Bool
is_offload_dpu c = c.kubernetes.offload_dpu

unfoldable pub has_registry : Config → Bool
has_registry c = elim c.registry [ none ↦ false | some r ↦ not (is_empty r.containers) ]

registry_switch : RegistryConfig → Bool
registry_switch r = elim r.enabled [ none ↦ true | some b ↦ b ]

unfoldable pub is_registry_enabled : Config → Bool
unfolding registry_switch
is_registry_enabled c = elim c.registry [ none ↦ false | some r ↦ registry_switch r ]

unfoldable pub is_registry_image_build_only : Config → Bool
unfolding has_registry is_registry_enabled
is_registry_image_build_only c = has_registry c && not (is_registry_enabled c)

-- At most one of the two modes holds, and none exactly where the configuration has both kinds of
-- nodes or neither.
pub deployment_modes :
    (c : Config)
    → ((is_kind_mode c && is_vm_mode c) ≡ false)
      × (((is_kind_mode c || is_vm_mode c) ≡ false) ↔ (
          (get_deployment_mode c ≡ no_mode both_sections)
          ⊎ (get_deployment_mode c ≡ no_mode neither_section)))
unfolding is_kind_mode is_vm_mode
deployment_modes c = ground arith
