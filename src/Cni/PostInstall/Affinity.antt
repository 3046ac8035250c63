-- ===== src/Cni/PostInstall/Affinity.antt =====
-- What the patch of pkg/cni/post_install.go does to where a pod may run.
use dpu_simulator.Base.{
  ℕ, ◌≡◌, ap, refl, Bool, true, false, List, [], ◌∷◌, ◌++◌, map, String, str_eq, str_eq_refl, any,
  Bool-cases, inl, inr, arith,
}
use dpu_simulator.Cni.PostInstall.{
  ResourceList, Container, Requirement, Term, PodSpec, host_label, is_host_label, set_resource,
  patch_container_vf_request, merge_terms, merge_dpu_host_node_affinity, patch_pod, meets_all, fits,
}

abbrev pub behind_first : List Term → List Term
behind_first [] = []
behind_first (term ∷ terms) = terms

host_label-is_host_label : is_host_label host_label ≡ true
unfolding is_host_label str_eq
host_label-is_host_label = refl

module _ (meets : Requirement → Bool)
    (unlabelled : (e : Requirement) → is_host_label e ≡ true → meets e ≡ false) where
  has_label : (term : Term) → any is_host_label term ≡ true → meets_all meets term ≡ false
  has_label [] h = cc
  has_label (e ∷ term) h = ground (arith, unlabelled e, has_label term)

  with_label : (term : Term) → meets_all meets (term ++ host_label ∷ []) ≡ false
  with_label [] = ground (arith, unlabelled host_label, host_label-is_host_label)
  with_label (e ∷ term) = ground (arith, with_label term)

  merge_terms-fits :
      (terms : List Term) → fits meets (merge_terms terms) ≡ fits meets (behind_first terms)
  unfolding merge_terms
  merge_terms-fits [] = rw (unlabelled host_label host_label-is_host_label) refl
  merge_terms-fits (term ∷ terms) = elim (Bool-cases (any is_host_label term)) [
    | inl h ↦ rw (h, has_label term h) refl
    | inr h ↦ rw (h, with_label term) refl
  ]

  -- A node that meets no requirement of the label fits the patched pod exactly where it fits a term of the pod
  -- behind the first: the label is required in the first term alone.
  pub patch_pod-fits :
      (vf_resource_name : String) (pod : PodSpec)
      → fits meets (patch_pod vf_resource_name pod).terms ≡ fits meets (behind_first pod.terms)
  unfolding patch_pod merge_dpu_host_node_affinity
  patch_pod-fits vf_resource_name pod = merge_terms-fits pod.terms

any-append_label : (term : Term) → any is_host_label (term ++ host_label ∷ []) ≡ true
any-append_label [] = rw host_label-is_host_label refl
any-append_label (e ∷ term) = ground (arith, any-append_label term)

merge_terms_idem : (terms : List Term) → merge_terms (merge_terms terms) ≡ merge_terms terms
unfolding merge_terms
merge_terms_idem [] = rw host_label-is_host_label refl
merge_terms_idem (term ∷ terms) = elim (Bool-cases (any is_host_label term)) [
  | inl h ↦ rw (h, h) refl
  | inr h ↦ rw (h, any-append_label term) refl
]

set_resource_idem :
    (name : String) (qty : ℕ) (r : ResourceList)
    → set_resource name qty (set_resource name qty r) ≡ set_resource name qty r
unfolding set_resource
set_resource_idem name qty [] = rw (str_eq_refl name) refl
set_resource_idem name qty ((k, n) ∷ rest) = elim (Bool-cases (str_eq name k)) [
  | inl e ↦ rw (e, e) refl
  | inr e ↦ rw (e, e) (ap (◌∷◌ (k, n)) (set_resource_idem name qty rest))
]

containers_idem :
    (name : String) (cs : List Container)
    → map (patch_container_vf_request name 1) (map (patch_container_vf_request name 1) cs)
      ≡ map (patch_container_vf_request name 1) cs
unfolding patch_container_vf_request
containers_idem name [] = refl
containers_idem name (c ∷ cs) =
    rw
      (
        set_resource_idem name 1 c.requests,
        set_resource_idem name 1 c.limits,
        containers_idem name cs,
      )
      refl

-- To patch a pod again changes nothing.
pub patch_pod_idem :
    (name : String) (pod : PodSpec) → patch_pod name (patch_pod name pod) ≡ patch_pod name pod
unfolding patch_pod merge_dpu_host_node_affinity
patch_pod_idem name pod =
    rw
      (
        containers_idem name pod.init_containers,
        containers_idem name pod.containers,
        merge_terms_idem pod.terms,
      )
      refl
