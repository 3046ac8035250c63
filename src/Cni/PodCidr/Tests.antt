-- ===== src/Cni/PodCidr/Tests.antt =====
-- The cases of TestPodCIDRWithPerNodePrefix.
use dpu_simulator.Base.{◌≡◌, refl, true, Option, none, some, String, if◌then◌else◌}
use dpu_simulator.Base.Text.{Bytes, codes, same, atoi}
use dpu_simulator.Cni.PodCidr.{
  Subnet, fits_cluster, split_parts, split_slashes, accept, prefix_of_parts,
  pod_cidr_with_per_node_prefix, IsPerNode, pod_cidr_with_per_node_prefix-IsPerNode,
}

-- `net.ParseCIDR` on two texts.
abbrev parse_some : Bytes → Option Subnet
parse_some text =
    if same text (codes "10.244.0.0/16")
    then some (record { is_ipv4 = true; cluster_prefix = 16 })
    else if same text (codes "10.244.0.0/24")
    then some (record { is_ipv4 = true; cluster_prefix = 24 })
    else none

abbrev annotated : String → Option Bytes
annotated text = pod_cidr_with_per_node_prefix parse_some (codes text)

prefix_added : annotated "10.244.0.0/16" ≡ some (codes "10.244.0.0/16/24")
unfolding pod_cidr_with_per_node_prefix prefix_of_parts accept fits_cluster split_slashes
    split_parts atoi
prefix_added = refl

too_small : annotated "10.244.0.0/24" ≡ none
unfolding pod_cidr_with_per_node_prefix prefix_of_parts accept fits_cluster split_slashes
    split_parts atoi
too_small = refl

prefix_kept : annotated "10.244.0.0/16/26" ≡ some (codes "10.244.0.0/16/26")
unfolding pod_cidr_with_per_node_prefix prefix_of_parts accept fits_cluster split_slashes
    split_parts atoi
prefix_kept = refl

prefix_too_short : annotated "10.244.0.0/24/24" ≡ none
unfolding pod_cidr_with_per_node_prefix prefix_of_parts accept fits_cluster split_slashes
    split_parts atoi
prefix_too_short = refl

not_a_cidr : annotated "not-a-cidr" ≡ none
unfolding pod_cidr_with_per_node_prefix prefix_of_parts accept fits_cluster split_slashes
    split_parts atoi
not_a_cidr = refl

pod_cidr_with_per_node_prefix-IsPerNode_example :
    IsPerNode parse_some (codes "10.244.0.0/16/24")
    × (annotated "10.244.0.0/16/24" ≡ some (codes "10.244.0.0/16/24"))
pod_cidr_with_per_node_prefix-IsPerNode_example =
    pod_cidr_with_per_node_prefix-IsPerNode parse_some (codes "10.244.0.0/16")
      (codes "10.244.0.0/16/24") prefix_added
