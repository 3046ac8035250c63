-- ===== src/Cni/Overrides/Readable.antt =====
-- The overrides of pkg/cni/helm_values.go fit in one map of Helm values.
use dpu_simulator.Base.{
  ◌∷◌, Bool-cases, ◌⊎◌, inl, inr, ◌↔◌, [], arith, ◌&&◌, ◌≡◌, ◌≢◌, ◌∙◌, sym, if◌then◌else◌, not,
  refl, subst, str_eq, Bool, true, false, List, Option, none, some, String, In,
}
use dpu_simulator.Base.Text.{Bytes, codes}
use dpu_simulator.Config.Nodes.{HostDpuPair, get_host_dpu_pairs}
use dpu_simulator.Config.Mode.{is_offload_dpu}
use dpu_simulator.Config.Registry.{ovn_kubernetes_image_for_helm}
use dpu_simulator.Config.Topology.{is_dpu_cluster}
use dpu_simulator.Config.Types.{Config}
use dpu_simulator.Cni.Values.{
  scalar, Values, HelmValue, helm_values_to_map, split_dots, push, starts_empty,
}
use dpu_simulator.Cni.Values.Nested.{found, get, related, ends_full}
use dpu_simulator.Cni.Values.Readable.{path_of, apart, clash_free, helm_values_to_map-get}
use dpu_simulator.Cni.Overrides.{
  OvnkMode, full, dpu_host, dpu, Written, write_frr_k8s_remote_env, write_frr_k8s_remote_artifacts,
  write_values, DpuHostCredentials, image_helm_values, dpu_host_overrides, dpu_overrides,
  credential_overrides, ovnk_helm_overrides, generate_ovnk_helm_values, detect_ovnk_mode, in_map,
}

abbrev FreeIfSome : Option (List HelmValue) → Type 0
FreeIfSome none = Unit
FreeIfSome (some values) = clash_free values ≡ true

module _ (c : Config) (cluster_name : String) (image : Bytes) where
  ovnk_helm_overrides-free :
      (mode : OvnkMode) (creds : Option DpuHostCredentials) (require_creds include_mgmt : Bool)
      → FreeIfSome (ovnk_helm_overrides c mode cluster_name image creds require_creds include_mgmt)
  unfolding ovnk_helm_overrides image_helm_values dpu_host_overrides dpu_overrides
      credential_overrides clash_free apart related ends_full split_dots push starts_empty str_eq
  ovnk_helm_overrides-free full creds r i = refl
  ovnk_helm_overrides-free dpu_host creds r true = refl
  ovnk_helm_overrides-free dpu_host creds r false = refl
  ovnk_helm_overrides-free dpu none true i = tt
  ovnk_helm_overrides-free dpu none false i = refl
  ovnk_helm_overrides-free dpu (some k) r i = refl

  -- In every mode, the overrides that are made fit in one map of Helm values, and each of them is read back
  -- under its key.
  pub ovnk_helm_overrides-get :
      (mode : OvnkMode) (creds : Option DpuHostCredentials) (require_creds include_mgmt : Bool)
      (values : List HelmValue)
      → ovnk_helm_overrides c mode cluster_name image creds require_creds include_mgmt ≡ some values
      → (m : Values) × (helm_values_to_map values ≡ some m)
        × ((h : HelmValue) → In h values → get (path_of h) m ≡ found (scalar h.value))
  ovnk_helm_overrides-get mode creds r i values e =
      helm_values_to_map-get values (subst FreeIfSome e (ovnk_helm_overrides-free mode creds r i))

-- A list without clashes gives a map.
mapped : (values : List HelmValue) → clash_free values ≡ true → helm_values_to_map values ≢ none
mapped values free e =
    let (m, is_map, reads) = helm_values_to_map-get values free in some≢none (sym is_map ∙ e)
  where
    some≢none : {m : Values} → ¬ (some m ≡ none)
    some≢none h = cc

-- Every directory is made and every file written.
pub record AllWritten (r : Written) : Type 0 where
  pub frr_dir : r.frr_dir_made ≡ true
  pub frr_kubeconfig : r.frr_kubeconfig_written ≡ true
  pub host_path : r.host_path_resolved ≡ true
  pub env_dir : r.env_dir_made ≡ true
  pub env : r.env_written ≡ true
  pub values_dir : r.values_dir_made ≡ true
  pub marshalled : r.values_marshalled ≡ true
  pub values : r.values_written ≡ true

module _ (r : Written) (works : AllWritten r) where
  artifacts-false :
      (frr_creds : Option DpuHostCredentials) (pairs : List HostDpuPair)
      → write_frr_k8s_remote_artifacts r frr_creds pairs ≡ false
      → (frr_creds ≡ none) ⊎ (pairs ≡ [])
  unfolding write_frr_k8s_remote_artifacts write_frr_k8s_remote_env
  artifacts-false none pairs e = inl refl
  artifacts-false (some k) [] e = inr refl
  artifacts-false (some k) (pair ∷ pairs) e =
      ground (arith, works.frr_dir, works.frr_kubeconfig, works.host_path, works.env_dir, works.env)

  finished :
      (values : Values)
      → ¬ (
          (if r.values_dir_made && r.values_marshalled && r.values_written
            then some values
            else none)
          ≡ none)
  finished values e = some≢none (rw (works.values_dir, works.marshalled, works.values) at e)
    where
      some≢none : ¬ (some values ≡ none)
      some≢none h = cc

  write_values-none :
      (mode : OvnkMode) (frr_creds : Option DpuHostCredentials) (pairs : List HostDpuPair)
      (q : Bool) (values : Values)
      → write_values r mode frr_creds pairs q (some values) ≡ none
      → (mode ≡ dpu) × (q ≡ true) × ((frr_creds ≡ none) ⊎ (pairs ≡ []))
  unfolding write_values
  write_values-none full frr_creds pairs q values e = absurd (finished values e)
  write_values-none dpu_host frr_creds pairs q values e = absurd (finished values e)
  write_values-none dpu frr_creds pairs q values e =
      elim (Bool-cases (write_frr_k8s_remote_artifacts r frr_creds pairs)) [
        | inl done ↦ absurd (finished values (rw done at e))
        | inr failed ↦ elim (Bool-cases q) [
          | inl required ↦ (refl, required, artifacts-false frr_creds pairs failed)
          | inr optional ↦ absurd (finished values (rw (failed, optional) at e))
        ]
      ]

artifacts-nil :
    (r : Written) (frr_creds : Option DpuHostCredentials)
    → write_frr_k8s_remote_artifacts r frr_creds [] ≡ false
unfolding write_frr_k8s_remote_artifacts write_frr_k8s_remote_env
artifacts-nil r none = refl
artifacts-nil r (some k) = ground arith

write_values-lacks :
    (r : Written) (frr_creds : Option DpuHostCredentials) (pairs : List HostDpuPair)
    (o : Option Values)
    → (frr_creds ≡ none) ⊎ (pairs ≡ [])
    → write_values r dpu frr_creds pairs true o ≡ none
unfolding write_values
write_values-lacks r frr_creds pairs none lacks = refl
write_values-lacks r frr_creds pairs (some values) (inl e) = rw e refl
write_values-lacks r frr_creds pairs (some values) (inr e) = rw (e, artifacts-nil r frr_creds) refl

by_tests :
    (offload is_dpu : Bool)
    → (if not offload then full else (if is_dpu then dpu else dpu_host)) ≡ dpu
    → (offload ≡ true) × (is_dpu ≡ true)
by_tests true true e = (refl, refl)
by_tests true false e = cc
by_tests false d e = cc

module _ (c : Config) (cluster_name : String) where
  abbrev default_image : Bytes
  default_image =
      ovn_kubernetes_image_for_helm c
        (codes "ghcr.io/ovn-kubernetes/ovn-kubernetes/ovn-kube-fedora:master")

  refused :
      (mode : OvnkMode) (creds : Option DpuHostCredentials) (r : Bool)
      → in_map (ovnk_helm_overrides c mode cluster_name default_image creds r true) ≡ none
      → (mode ≡ dpu) × (creds ≡ none) × (r ≡ true)
  unfolding ovnk_helm_overrides
  refused full creds r e =
      absurd (mapped _ (ovnk_helm_overrides-free c cluster_name default_image full creds r true) e)
  refused dpu_host creds r e =
      absurd
        (mapped _ (ovnk_helm_overrides-free c cluster_name default_image dpu_host creds r true) e)
  refused dpu none true e = (refl, refl, refl)
  refused dpu none false e =
      absurd
        (mapped _ (ovnk_helm_overrides-free c cluster_name default_image dpu none false true) e)
  refused dpu (some k) r e =
      absurd
        (mapped _ (ovnk_helm_overrides-free c cluster_name default_image dpu (some k) r true) e)

  detect_ovnk_mode-dpu :
      detect_ovnk_mode c cluster_name ≡ dpu
      → (is_offload_dpu c ≡ true) × (is_dpu_cluster c cluster_name ≡ true)
  unfolding detect_ovnk_mode
  detect_ovnk_mode-dpu e = by_tests (is_offload_dpu c) (is_dpu_cluster c cluster_name) e

  dpu-detect_ovnk_mode :
      is_offload_dpu c ≡ true
      → is_dpu_cluster c cluster_name ≡ true
      → detect_ovnk_mode c cluster_name ≡ dpu
  unfolding detect_ovnk_mode
  dpu-detect_ovnk_mode offload is_dpu = rw (is_dpu, offload) refl

  -- What a DPU cluster has to wait for.
  abbrev pub Lacks : Option DpuHostCredentials → Option DpuHostCredentials → Type 0
  Lacks creds frr_creds =
      (creds ≡ none) ⊎ ((frr_creds ≡ none) ⊎ (get_host_dpu_pairs c cluster_name ≡ []))

  module _ (r : Written) (works : AllWritten r) (creds frr_creds : Option DpuHostCredentials)
      (q : Bool) where
    abbrev overrides : Option Values
    overrides = in_map (
        ovnk_helm_overrides c (detect_ovnk_mode c cluster_name) cluster_name default_image creds q
          true)

    refusal :
        (o : Option Values)
        → overrides ≡ o
        → write_values r
            (detect_ovnk_mode c cluster_name)
            frr_creds
            (get_host_dpu_pairs c cluster_name)
            q
            o
          ≡ none
        → (is_offload_dpu c ≡ true)
          × (is_dpu_cluster c cluster_name ≡ true)
          × (q ≡ true)
          × Lacks creds frr_creds
    refusal none e h =
        let (mode, missing, required) = refused (detect_ovnk_mode c cluster_name) creds q e in
        let (offload, is_dpu) = detect_ovnk_mode-dpu mode in
        (offload, is_dpu, required, inl missing)
    refusal (some values) e h =
        let (mode, required, lacks) =
          write_values-none r works (detect_ovnk_mode c cluster_name) frr_creds
            (get_host_dpu_pairs c cluster_name) q values h in
        let (offload, is_dpu) = detect_ovnk_mode-dpu mode in (offload, is_dpu, required, inr lacks)

    refuses_dpu :
        (q : Bool)
        → q ≡ true
        → Lacks creds frr_creds
        → write_values r dpu frr_creds
            (get_host_dpu_pairs c cluster_name)
            q
            (in_map (ovnk_helm_overrides c dpu cluster_name default_image creds q true))
          ≡ none
    unfolding ovnk_helm_overrides write_values
    refuses_dpu false required lacks = absurd (false≢true required)
      where
        false≢true : ¬ (false ≡ true)
        false≢true h = cc
    refuses_dpu true required (inl e) = rw e refl
    refuses_dpu true required (inr lacks) =
        write_values-lacks r frr_creds (get_host_dpu_pairs c cluster_name) _ lacks

    refuses :
        is_offload_dpu c ≡ true
        → is_dpu_cluster c cluster_name ≡ true
        → q ≡ true
        → Lacks creds frr_creds
        → write_values r
            (detect_ovnk_mode c cluster_name)
            frr_creds
            (get_host_dpu_pairs c cluster_name)
            q
            overrides
          ≡ none
    refuses offload is_dpu required lacks =
        subst
          (λ mode.
            write_values r mode frr_creds (get_host_dpu_pairs c cluster_name) q
              (in_map (ovnk_helm_overrides c mode cluster_name default_image creds q true))
            ≡ none)
          (sym (dpu-detect_ovnk_mode offload is_dpu)) (refuses_dpu q required lacks)

    -- Where every directory and file can be written, the values are not generated exactly for a DPU cluster
    -- under offload for which the credentials are required, and for which those of OVN-Kubernetes or of
    -- FRR-K8S are not there or which has no pair of a host and a DPU.
    pub generate_ovnk_helm_values-none :
        (generate_ovnk_helm_values c r cluster_name creds frr_creds q ≡ none) ↔ (
          (is_offload_dpu c ≡ true)
          × (is_dpu_cluster c cluster_name ≡ true)
          × (q ≡ true)
          × Lacks creds frr_creds)
    unfolding generate_ovnk_helm_values
    generate_ovnk_helm_values-none = (
      λ e. refusal overrides refl e,
      λ (offload, is_dpu, required, lacks). refuses offload is_dpu required lacks,
    )
