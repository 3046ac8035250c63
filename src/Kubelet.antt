-- ===== src/Kubelet.antt =====
-- mergeNodeIPIntoKubeadmArgsLine of pkg/k8s/kubelet_node_ip.go: the flags of kubelet, once they have been
-- split at white space. A flag is its bytes.
pub mod Merge
pub mod Tests
use dpu_simulator.Base.{
  ℕ, suc, ◌+◌, Bool, true, false, not, ◌&&◌, List, [], ◌∷◌, ◌++◌, if◌then◌else◌, ltb, ◌==◌, keep,
}
use dpu_simulator.Base.Text.{Bytes, codes, same, has_prefix}

abbrev pub node_ip_prefix : Bytes
node_ip_prefix = codes "--node-ip="

unfoldable pub is_node_ip : Bytes → Bool
is_node_ip flag = has_prefix flag node_ip_prefix

-- `desired`, from the text of the address.
unfoldable pub desired_flag : Bytes → Bytes
desired_flag node_ip = node_ip_prefix ++ node_ip

unfoldable pub is_flag : Bytes → Bytes → Bool
is_flag desired flag = same flag desired

-- desiredCount and otherCount.
unfoldable pub desired_count : Bytes → List Bytes → ℕ
desired_count desired [] = 0
desired_count desired (f ∷ fields) =
    let rest = desired_count desired fields in
    if is_node_ip f && is_flag desired f then suc rest else rest

unfoldable pub other_count : Bytes → List Bytes → ℕ
other_count desired [] = 0
other_count desired (f ∷ fields) =
    let rest = other_count desired fields in
    if is_node_ip f && not (is_flag desired f) then suc rest else rest

-- The loop of the first branch, with `seenDesired`.
unfoldable pub keep_first : Bytes → Bool → List Bytes → List Bytes
keep_first desired seen [] = []
keep_first desired seen (f ∷ fields) =
    let skipped = keep_first desired seen fields in
    let after = keep_first desired true fields in
    if is_node_ip f
    then (if is_flag desired f && not seen then desired ∷ after else skipped)
    else f ∷ skipped

unfoldable pub keep_others : List Bytes → List Bytes
keep_others [] = []
keep_others (f ∷ fields) = let rest = keep_others fields in if is_node_ip f then rest else f ∷ rest

-- The flags that are joined into the new line.
unfoldable pub merge_flags : Bytes → List Bytes → List Bytes
merge_flags desired fields =
    if ltb 0 (desired_count desired fields) && other_count desired fields == 0
    then keep_first desired false fields
    else keep_others fields ++ desired ∷ []
