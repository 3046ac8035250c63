-- ===== src/Kubelet/Merge.antt =====
-- What the merge of pkg/k8s/kubelet_node_ip.go does to the flags.
use dpu_simulator.Base.{
  ◌<◌, ◌≡◌, ◌∙◌, sym, not, keep, refl, Bool, true, false, List, [], ◌∷◌, ◌++◌, arith, if◌then◌else◌,
}
use dpu_simulator.Base.Text.{Bytes, codes, has_prefix}
use dpu_simulator.Kubelet.{
  is_node_ip, desired_flag, desired_count, keep_first, keep_others, merge_flags,
}

-- A flag that sets the node address.
unfoldable pub is_ip_flag : Bytes → Bool
is_ip_flag flag = has_prefix flag (codes "--node-ip=")

-- The flags for a node address, in order.
unfoldable pub node_ips : List Bytes → List Bytes
node_ips [] = []
node_ips (f ∷ fields) = let rest = node_ips fields in if is_node_ip f then f ∷ rest else rest

desired-is_node_ip : (ip : Bytes) → is_node_ip (desired_flag ip) ≡ true
unfolding is_node_ip desired_flag
desired-is_node_ip ip = refl

module _ (desired : Bytes) (d : is_node_ip desired ≡ true) where
  node_ips-keep_others :
      (fields : List Bytes) → node_ips (keep_others fields ++ desired ∷ []) ≡ desired ∷ []
  unfolding node_ips keep_others
  node_ips-keep_others [] = rw d
  node_ips-keep_others (f ∷ fields) = ground (arith, node_ips-keep_others fields)

  keep_others-append :
      (fields : List Bytes) → keep_others (keep_others fields ++ desired ∷ []) ≡ keep_others fields
  unfolding keep_others
  keep_others-append [] = rw d
  keep_others-append (f ∷ fields) = ground (arith, keep_others-append fields)

  node_ips-after : (fields : List Bytes) → node_ips (keep_first desired true fields) ≡ []
  unfolding node_ips keep_first
  node_ips-after [] = refl
  node_ips-after (f ∷ fields) = ground (arith, node_ips-after fields)

  node_ips-keep_first :
      (fields : List Bytes)
      → 0 < desired_count desired fields
      → node_ips (keep_first desired false fields) ≡ desired ∷ []
  unfolding node_ips keep_first desired_count
  node_ips-keep_first [] h = absurd (omega arith)
  node_ips-keep_first (f ∷ fields) h =
      ground (arith, node_ips-keep_first fields, node_ips-after fields, d)

  keep_others-keep_first :
      (seen : Bool) (fields : List Bytes)
      → keep_others (keep_first desired seen fields) ≡ keep_others fields
  unfolding keep_others keep_first
  keep_others-keep_first seen [] = refl
  keep_others-keep_first seen (f ∷ fields) =
      ground (arith, keep_others-keep_first seen fields, keep_others-keep_first true fields, d)

  merged_ips : (fields : List Bytes) → node_ips (merge_flags desired fields) ≡ desired ∷ []
  unfolding merge_flags
  merged_ips fields = ground (arith, node_ips-keep_first fields, node_ips-keep_others fields)

  merged_others :
      (fields : List Bytes) → keep_others (merge_flags desired fields) ≡ keep_others fields
  unfolding merge_flags
  merged_others fields =
      ground (arith, keep_others-keep_first false fields, keep_others-append fields)

same_flags : (f : Bytes) → is_ip_flag f ≡ is_node_ip f
unfolding is_ip_flag is_node_ip
same_flags f = refl

node_ips-keep : (fields : List Bytes) → node_ips fields ≡ keep is_ip_flag fields
unfolding node_ips
node_ips-keep [] = refl
node_ips-keep (f ∷ fields) = ground (arith, node_ips-keep fields, same_flags f)

keep_others-keep :
    (fields : List Bytes) → keep_others fields ≡ keep (λ f. not (is_ip_flag f)) fields
unfolding keep_others
keep_others-keep [] = refl
keep_others-keep (f ∷ fields) = ground (arith, keep_others-keep fields, same_flags f)

-- After a merge the flags hold the wanted node address and no other, once, and the other flags are as
-- they were, in the same order.
pub merge_flags_lem :
    (ip : Bytes) (fields : List Bytes)
    → let merged = merge_flags (desired_flag ip) fields in
      (keep is_ip_flag merged ≡ (codes "--node-ip=" ++ ip) ∷ [])
      × (keep (λ f. not (is_ip_flag f)) merged ≡ keep (λ f. not (is_ip_flag f)) fields)
unfolding desired_flag
merge_flags_lem ip fields =
    let merged = merge_flags (desired_flag ip) fields in
    (
      sym (node_ips-keep merged) ∙ merged_ips (desired_flag ip) (desired-is_node_ip ip) fields,
      sym (keep_others-keep merged)
          ∙ merged_others (desired_flag ip) (desired-is_node_ip ip) fields
          ∙ keep_others-keep fields,
    )
