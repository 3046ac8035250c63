-- ===== src/Config/Nodes/Same.antt =====
-- What the host/DPU pairs of a configuration depend on.
use dpu_simulator.Base.{
  ◌≡◌, ◌∙◌, ap, refl, true, false, List, [], ◌∷◌, String, none, some, Bool-cases, Option-cases, inl,
  inr,
}
use dpu_simulator.Config.Types.{Config, KindNodeConfig}
use dpu_simulator.Config.Mode.{get_deployment_mode, is_kind_mode, is_vm_mode, is_empty, kind_nodes}
use dpu_simulator.Config.Nodes.{
  get_kind_node_container_name, get_kind_nodes_for_cluster, pair_of_kind, pairs_of_kind,
  get_host_dpu_pairs, get_host_dpu_pairs_vm, get_host_dpu_pairs_kind, host_by_name, pairs_of_vms,
}

module _ (c d : Config) (kind : d.kind ≡ c.kind) (vms : d.vms ≡ c.vms)
    (bare : is_empty d.bare_metal ≡ is_empty c.bare_metal) where
  same_nodes : kind_nodes d ≡ kind_nodes c
  same_nodes = rw kind refl

  pub same_mode : get_deployment_mode d ≡ get_deployment_mode c
  unfolding get_deployment_mode
  same_mode = rw (kind, vms, bare) refl

  pub same_kind_mode : is_kind_mode d ≡ is_kind_mode c
  unfolding is_kind_mode
  same_kind_mode = rw (kind, vms, bare) refl

  same_vm_mode : is_vm_mode d ≡ is_vm_mode c
  unfolding is_vm_mode
  same_vm_mode = rw (kind, vms, bare) refl

  same_container_name :
      (cluster name : String)
      → get_kind_node_container_name d cluster name ≡ get_kind_node_container_name c cluster name
  unfolding get_kind_node_container_name get_kind_nodes_for_cluster
  same_container_name cluster name = rw kind refl

  same_pair : (node host : KindNodeConfig) → pair_of_kind d node host ≡ pair_of_kind c node host
  unfolding pair_of_kind
  same_pair node host =
      rw
        (
          same_container_name host.k8s_cluster host.name,
          same_container_name node.k8s_cluster node.name,
        )
        refl

  same_pairs_from :
      (cluster : String) (nodes : List KindNodeConfig)
      → pairs_of_kind d cluster nodes ≡ pairs_of_kind c cluster nodes
  unfolding pairs_of_kind
  same_pairs_from cluster [] = refl
  same_pairs_from cluster (node ∷ nodes) =
      let rest = same_pairs_from cluster nodes in
      elim (Option-cases (host_by_name node.host (kind_nodes c))) [
        | inl e ↦
            let e' : host_by_name node.host (kind_nodes d) ≡ none =
              ap (host_by_name node.host) same_nodes ∙ e in
            rw (e, e', rest) refl
        | inr (host, e) ↦
            let e' : host_by_name node.host (kind_nodes d) ≡ some host =
              ap (host_by_name node.host) same_nodes ∙ e in
            rw (e, e', rest, same_pair node host) refl
      ]

  pub same_pairs : (cluster : String) → get_host_dpu_pairs d cluster ≡ get_host_dpu_pairs c cluster
  unfolding get_host_dpu_pairs get_host_dpu_pairs_vm get_host_dpu_pairs_kind
  same_pairs cluster = elim (Bool-cases (is_vm_mode c)) [
    | inl e ↦
        let e' : is_vm_mode d ≡ true = same_vm_mode ∙ e in
        rw (e, e') (ap (pairs_of_vms cluster) vms)
    | inr e ↦
        let e' : is_vm_mode d ≡ false = same_vm_mode ∙ e in
        rw (e, e')
          (ap (pairs_of_kind d cluster) same_nodes ∙ same_pairs_from cluster (kind_nodes c))
  ]
