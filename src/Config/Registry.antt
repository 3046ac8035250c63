-- ===== src/Config/Registry.antt =====
-- pkg/config/config.go: the references to images and the addresses of the local registry. A reference is
-- walked as bytes.
use mathlib.Core.List.{reverse}
use dpu_simulator.Base.{
  ℕ, ◌+◌, ◌≡◌, refl, Bool, true, false, not, ◌&&◌, ◌||◌, List, [], ◌∷◌, ◌++◌, Option, none, some,
  arith, String, str_eq, if◌then◌else◌, find, any, ◌==◌, leb, Bool-cases, inl, inr, ap, sym, ◌∙◌,
}
use dpu_simulator.Base.Text.{Bytes, codes, trim_space, same, has_prefix}
use dpu_simulator.Config.Mode.{
  is_kind_mode, is_vm_mode, is_registry_enabled, is_registry_image_build_only, is_empty,
}
use dpu_simulator.Config.Topology.{get_network_by_type}
use dpu_simulator.Config.Types.{
  Config, RegistryConfig, RegistryContainerConfig, cni_ovn_kubernetes, mgmt_network_name,
}

abbrev pub default_registry_port : Bytes
default_registry_port = codes "5000"

abbrev pub default_registry_container_name : Bytes
default_registry_container_name = codes "dpu-sim-registry"

-- The text before the first occurrence of a byte, or all of it.
unfoldable pub before_first : ℕ → Bytes → Bytes
before_first sep [] = []
before_first sep (c ∷ cs) = let rest = before_first sep cs in if c == sep then [] else c ∷ rest

-- The text behind the last colon, if no slash follows it, and what stands before the colon: both from
-- the reversed text.
split_at_colon : Bytes → Bytes → Option (Bytes × Bytes)
split_at_colon [] tag = none
split_at_colon (c ∷ cs) tag =
    let rest = split_at_colon cs (c ∷ tag) in
    if c == b':' then some (reverse cs, tag) else if c == b'/' then none else rest

-- splitContainerImageRef.
unfoldable pub split_container_image_ref : Bytes → Bytes × Bytes
unfolding split_at_colon
split_container_image_ref image = elim (split_at_colon (reverse image) []) [
  | none ↦ (image, codes "latest")
  | some (repo, tag) ↦ (repo, tag)
]

-- Simple folding, for a comparison with ASCII letters: U+017F folds to s.
fold_case : ℕ → ℕ
fold_case c = if leb 65 c && leb c 90 then c + 32 else if c == 383 then b's' else c

-- `strings.EqualFold` with a text in lower case.
equal_fold : Bytes → Bytes → Bool
unfolding fold_case
equal_fold [] [] = true
equal_fold (c ∷ cs) (d ∷ ds) = fold_case c == d && equal_fold cs ds
equal_fold _ _ = false

-- imageRefRepoLooksLikeRegistry.
unfoldable pub image_ref_repo_looks_like_registry : Bytes → Bool
unfolding equal_fold before_first
image_ref_repo_looks_like_registry repo =
    let first = before_first b'/' repo in
    equal_fold first (codes "localhost") || any (λ c. c == b'.') first || any (λ c. c == b':') first

-- KindNodeLocalImageRef, over the trimmed text.
unfoldable pub local_image_ref : Bytes → Bytes
unfolding split_container_image_ref image_ref_repo_looks_like_registry
local_image_ref image =
    let (repo, tag) = split_container_image_ref image in
    if is_empty image || has_prefix image (codes "localhost/")
    then image
    else if image_ref_repo_looks_like_registry repo
    then image
    else codes "localhost/" ++ repo ++ b':' ∷ tag

unfoldable pub kind_node_local_image_ref : Bytes → Bytes
unfolding local_image_ref
kind_node_local_image_ref image = local_image_ref (trim_space image)

-- GetRegistryContainerForCNI.
unfoldable pub get_registry_container_for_cni : Config → String → Option RegistryContainerConfig
get_registry_container_for_cni c cni_type = elim c.registry [
  | none ↦ none
  | some r ↦ find (λ (rc : RegistryContainerConfig). str_eq rc.cni cni_type) r.containers
]

-- GetRegistryNodeEndpoint: the gateway of the management network in VM mode, where there is one.
unfoldable pub get_registry_node_endpoint : Config → Bytes
get_registry_node_endpoint c =
    let local = codes "localhost:" ++ default_registry_port in
    if is_vm_mode c
    then (elim (get_network_by_type c mgmt_network_name) [
      | none ↦ local
      | some n ↦
          if str_eq n.gateway "" then local else codes n.gateway ++ b':' ∷ default_registry_port
    ])
    else local

unfoldable pub get_registry_container_endpoint : Bytes
get_registry_container_endpoint = default_registry_container_name ++ b':' ∷ default_registry_port

unfoldable pub get_registry_local_endpoint : Bytes
get_registry_local_endpoint = codes "localhost:" ++ default_registry_port

unfoldable pub get_registry_image_ref : Config → Bytes → Bytes
unfolding get_registry_node_endpoint
get_registry_image_ref c registry_tag = get_registry_node_endpoint c ++ b'/' ∷ registry_tag

unfoldable pub get_registry_local_image_ref : Bytes → Bytes
unfolding get_registry_local_endpoint
get_registry_local_image_ref registry_tag = get_registry_local_endpoint ++ b'/' ∷ registry_tag

-- OvnKubernetesImageForHelm.
unfoldable pub ovn_kubernetes_image_for_helm : Config → Bytes → Bytes
unfolding get_registry_image_ref kind_node_local_image_ref get_registry_container_for_cni
ovn_kubernetes_image_for_helm c default_image =
    elim (get_registry_container_for_cni c cni_ovn_kubernetes) [
      | none ↦ default_image
      | some rc ↦
          if is_registry_enabled c
          then get_registry_image_ref c (codes rc.tag)
          else if is_kind_mode c
          then (if is_registry_image_build_only c
              then kind_node_local_image_ref (codes rc.tag)
              else codes rc.tag)
          else get_registry_image_ref c (codes rc.tag)
    ]

-- The loop of GetRegistryInsecureEndpoints, with the endpoints kept so far.
unfoldable pub endpoints_from : List Bytes → List String → List Bytes
endpoints_from seen [] = []
endpoints_from seen (endpoint ∷ endpoints) =
    let normalized = trim_space (codes endpoint) in
    let skipped = endpoints_from seen endpoints in
    let kept = endpoints_from (normalized ∷ seen) endpoints in
    if is_empty normalized
    then skipped
    else if any (λ s. same s normalized) seen
    then skipped
    else normalized ∷ kept

configured_endpoints : Option RegistryConfig → List Bytes
unfolding endpoints_from
configured_endpoints none = []
configured_endpoints (some r) = endpoints_from [] r.insecure_endpoints

-- GetRegistryInsecureEndpoints.
unfoldable pub get_registry_insecure_endpoints : Config → List Bytes
unfolding configured_endpoints get_registry_node_endpoint
get_registry_insecure_endpoints c =
    let out = configured_endpoints c.registry in
    if not (is_registry_enabled c)
    then []
    else if is_empty out
    then get_registry_node_endpoint c ∷ []
    else out

-- With the registry enabled, the endpoints are never none: those that are configured, or the one of the nodes.
pub get_registry_insecure_endpoints-is_empty :
    (c : Config)
    → is_registry_enabled c ≡ true
    → is_empty (get_registry_insecure_endpoints c) ≡ false
unfolding get_registry_insecure_endpoints
get_registry_insecure_endpoints-is_empty c h = ground arith

prefixed : (cs : Bytes) → local_image_ref (codes "localhost/" ++ cs) ≡ codes "localhost/" ++ cs
unfolding local_image_ref
prefixed cs = refl

unchanged :
    (image : Bytes)
    → (is_empty image
        || has_prefix image (codes "localhost/")
        || image_ref_repo_looks_like_registry (split_container_image_ref image).0)
      ≡ true
    → local_image_ref image ≡ image
unfolding local_image_ref
unchanged image h = ground arith

qualified :
    (image : Bytes)
    → (is_empty image
        || has_prefix image (codes "localhost/")
        || image_ref_repo_looks_like_registry (split_container_image_ref image).0)
      ≡ false
    → local_image_ref image
      ≡ codes "localhost/"
        ++ ((split_container_image_ref image).0 ++ b':' ∷ (split_container_image_ref image).1)
unfolding local_image_ref
qualified image h = ground arith

-- A local image reference is its own local image reference.
pub local_image_ref_idem :
    (image : Bytes) → local_image_ref (local_image_ref image) ≡ local_image_ref image
local_image_ref_idem image =
    elim (Bool-cases (
      is_empty image
      || has_prefix image (codes "localhost/")
      || image_ref_repo_looks_like_registry (split_container_image_ref image).0)) [
        | inl e ↦ ap local_image_ref (unchanged image e)
        | inr e ↦ ap local_image_ref (qualified image e) ∙ prefixed _ ∙ sym (qualified image e)
      ]
