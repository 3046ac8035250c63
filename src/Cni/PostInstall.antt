-- ===== src/Cni/PostInstall.antt =====
-- pkg/cni/post_install.go: the pod template of a system deployment on a DPU host, patched to ask for a
-- simulated VF and for nodes with the label of DPU hosts.
pub mod Affinity
use dpu_simulator.Base.{
  ℕ, suc, ◌≡◌, ◌∙◌, ap, sym, refl, Bool, true, false, not, ◌&&◌, ◌||◌, List, [], ◌∷◌, ◌++◌, map,
  Option, none, some, String, str_eq, str_eq_refl, str_eq_iff, if◌then◌else◌, any, Bool-cases, inl,
  inr, arith,
}

-- corev1.ResourceList, an association list; nil is the empty one.
abbrev pub ResourceList : Type 0
ResourceList = List (String × ℕ)

unfoldable pub set_resource : String → ℕ → ResourceList → ResourceList
set_resource name qty [] = (name, qty) ∷ []
set_resource name qty ((k, n) ∷ rest) =
    let rest' = set_resource name qty rest in
    if str_eq name k then (k, qty) ∷ rest else (k, n) ∷ rest'

pub record Container : Type 0 where
  pub name : String
  pub requests : ResourceList
  pub limits : ResourceList

-- corev1.NodeSelectorRequirement, by its key, operator and values.
pub record Requirement : Type 0 where
  pub key : String
  pub operator : String
  pub values : List String

abbrev pub Term : Type 0
Term = List Requirement

-- The terms of the required node affinity; an affinity that is nil has none.
pub record PodSpec : Type 0 where
  pub init_containers : List Container
  pub containers : List Container
  pub terms : List Term

unfoldable pub patch_container_vf_request : String → ℕ → Container → Container
unfolding set_resource
patch_container_vf_request name qty co = record co {
  requests = set_resource name qty co.requests;
  limits = set_resource name qty co.limits;
}

abbrev pub host_label : Requirement
host_label = record { key = "k8s.ovn.org/dpu-host"; operator = "Exists"; values = [] }

unfoldable pub is_host_label : Requirement → Bool
is_host_label e = str_eq e.key host_label.key && str_eq e.operator host_label.operator

unfoldable pub merge_terms : List Term → List Term
unfolding is_host_label
merge_terms [] = (host_label ∷ []) ∷ []
merge_terms (term ∷ terms) =
    (if any is_host_label term then term else term ++ host_label ∷ []) ∷ terms

unfoldable pub merge_dpu_host_node_affinity : PodSpec → PodSpec
unfolding merge_terms
merge_dpu_host_node_affinity pod = record pod { terms = merge_terms pod.terms }

-- The part of patchDeploymentForDPUHostPodNetworking between the read and the update of the deployment.
unfoldable pub patch_pod : String → PodSpec → PodSpec
unfolding merge_dpu_host_node_affinity patch_container_vf_request
patch_pod vf_resource_name pod = merge_dpu_host_node_affinity (record pod {
  init_containers = map (patch_container_vf_request vf_resource_name 1) pod.init_containers;
  containers = map (patch_container_vf_request vf_resource_name 1) pod.containers;
})

-- Kubernetes: a node fits where it meets all requirements of one of the terms; `meets` is one requirement.
module _ (meets : Requirement → Bool) where
  abbrev pub meets_all : Term → Bool
  meets_all [] = true
  meets_all (e ∷ term) = meets e && meets_all term

  abbrev pub fits : List Term → Bool
  fits terms = any meets_all terms
