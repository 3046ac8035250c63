-- ===== src/Cni/Tests.antt =====
-- Helm values of concrete configurations, pkg/cni/helm_values.go.
use dpu_simulator.Base.{
  ◌↔◌, inl, inr, ◌≡◌, ap, not, Bool, refl, true, false, List, ◌++◌, some, none, In, str_eq, [], ◌∷◌,
}
use dpu_simulator.Base.Text.{codes}
use dpu_simulator.Config.Tests.{two_clusters}
use dpu_simulator.Cni.PostInstall.{PodSpec, Requirement, is_host_label, patch_pod, fits}
use dpu_simulator.Cni.PostInstall.Affinity.{behind_first, patch_pod-fits}
use dpu_simulator.Cni.Values.{scalar, Values, HelmValue, helm_values_to_map}
use dpu_simulator.Cni.Values.Nested.{found, get}
use dpu_simulator.Cni.Values.Readable.{path_of}
use dpu_simulator.Cni.Overrides.{
  DpuHostCredentials, Written, generate_ovnk_helm_values, dpu_host, image_helm_values,
  pull_policy_of, dpu_host_overrides, ovnk_helm_overrides, split_image_ref, last_colon,
}
use dpu_simulator.Cni.Overrides.Readable.{
  AllWritten, Lacks, ovnk_helm_overrides-get, generate_ovnk_helm_values-none,
}
use dpu_simulator.Config.Mode.{is_offload_dpu}
use dpu_simulator.Config.Topology.{is_dpu_cluster}

abbrev host_values : List HelmValue
host_values =
    image_helm_values "global.image" (codes "reg:5000/ovn") (codes "v1")
      (pull_policy_of two_clusters)
    ++ dpu_host_overrides two_clusters "h" true

ovnk_helm_overrides-get_example :
    (m : Values) × (helm_values_to_map host_values ≡ some m)
    × ((h : HelmValue) → In h host_values → get (path_of h) m ≡ found (scalar h.value))
unfolding ovnk_helm_overrides split_image_ref last_colon
ovnk_helm_overrides-get_example =
    ovnk_helm_overrides-get two_clusters "h" (codes "reg:5000/ovn:v1") dpu_host none false true
      host_values refl

abbrev all_written : Written
all_written = record {
  frr_dir_made = true;
  frr_kubeconfig_written = true;
  host_path_resolved = true;
  env_dir_made = true;
  env_written = true;
  values_dir_made = true;
  values_marshalled = true;
  values_written = true;
}

all_written-AllWritten : AllWritten all_written
all_written-AllWritten = record {
  frr_dir = refl;
  frr_kubeconfig = refl;
  host_path = refl;
  env_dir = refl;
  env = refl;
  values_dir = refl;
  marshalled = refl;
  values = refl;
}

-- Credentials of OVN-Kubernetes, but none of FRR-K8S.
abbrev host_creds : DpuHostCredentials
host_creds = record {
  api_server = codes "https://10.0.0.2:6443";
  token = codes "t";
  ca_cert = codes "c";
  pod_cidr = codes "10.244.0.0/16/24";
  service_cidr = codes "10.96.0.0/16";
}

generate_ovnk_helm_values-none_example :
    (generate_ovnk_helm_values two_clusters all_written "d" (some host_creds) none true ≡ none) ↔ (
      (is_offload_dpu two_clusters ≡ true)
      × (is_dpu_cluster two_clusters "d" ≡ true)
      × (true ≡ true)
      × Lacks two_clusters "d" (some host_creds) none)
generate_ovnk_helm_values-none_example =
    generate_ovnk_helm_values-none two_clusters "d" all_written all_written-AllWritten
      (some host_creds) none true

not_generated :
    generate_ovnk_helm_values two_clusters all_written "d" (some host_creds) none true ≡ none
unfolding is_dpu_cluster str_eq
not_generated = generate_ovnk_helm_values-none_example.1 (refl, refl, refl, inr (inl refl))

-- A pod that may run on one architecture or in one zone.
abbrev coredns : PodSpec
coredns = record {
  init_containers = [];
  containers = record { name = "coredns"; requests = ("memory", 70) ∷ []; limits = [] } ∷ [];
  terms =
      (record { key = "kubernetes.io/arch"; operator = "In"; values = "amd64" ∷ [] } ∷ [])
      ∷ (record { key = "zone"; operator = "Exists"; values = [] } ∷ [])
      ∷ [];
}

abbrev on_other_node : Requirement → Bool
on_other_node e = not (is_host_label e)

patch_pod-fits_example :
    fits on_other_node (patch_pod "dpusim.io/vf" coredns).terms
    ≡ fits on_other_node (behind_first coredns.terms)
patch_pod-fits_example = patch_pod-fits on_other_node (λ e h. ap not h) "dpusim.io/vf" coredns
