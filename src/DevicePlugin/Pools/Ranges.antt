-- ===== src/DevicePlugin/Pools/Ranges.antt =====
-- Which interface belongs to which pool.
use dpu_simulator.Base.{
  ℕ, ◌+◌, ◌^◌, ◌≤◌, ◌<◌, ◌≡◌, Bool, true, false, ◌&&◌, arith, String, if◌then◌else◌, leb, ltb, zero,
  suc, ◌-◌, ◌==◌,
}
use dpu_simulator.Base.Int.{ℤ, pos, pos_part, ◌<ℤ◌, ◌≤ℤ◌}
use dpu_simulator.DevicePlugin.Names.{
  host_data_if, host_data_if_index-host_data_if, host_data_if_index-gateway,
}
use dpu_simulator.DevicePlugin.Pools.{
  ResourcePool, pools, mgmt_pool, vf_pool, build_resource_pools, pod_vf_start_of, pod_vf_matcher,
  host_data_if_in_range, host_data_if_at_least,
}

pod_vf_start_of-pos :
    (m u : ℕ) → m + u + 1 < 2 ^ 63 → pod_vf_start_of (pos m) (pos u) ≡ pos (m + u + 1)
unfolding pod_vf_start_of
pod_vf_start_of-pos m u h = ground arith

-- Counts in range, with one index left for a pod, are accepted.
pub build_resource_pools-accepts :
    (m u n : ℕ)
    → 1 ≤ m
    → m + u + 2 ≤ n
    → n < 2 ^ 63
    → build_resource_pools (pos m) (pos u) (pos n)
      ≡ pools (mgmt_pool (pos m)) (vf_pool (pos (m + u + 1)) (pos n))
unfolding build_resource_pools
build_resource_pools-accepts m u n h k l = ground (arith, pod_vf_start_of-pos m u (omega arith))

-- The interface with index `i` is in a range exactly when `i` is.
in_range-host_data_if :
    (low high i : ℕ)
    → 0 < i
    → i < 2 ^ 63
    → host_data_if_in_range (pos low) (pos high) (host_data_if (pos i)) ≡ (leb low i && leb i high)
unfolding host_data_if_in_range
in_range-host_data_if low high i h lt =
    rw (host_data_if_index-host_data_if i h lt, host_data_if_in_range) (ground arith)

pub data Range : Type 0 where
  gateway management uplink pod outside : Range

-- The use that the simulator makes of the host-to-DPU interface with an index.
abbrev pub range_of : ℕ → ℕ → ℕ → ℕ → Range
range_of m u n i =
    if i == 0
    then gateway
    else if leb i m
    then management
    else if leb i (m + u)
    then uplink
    else if ltb i n
    then pod
    else outside

abbrev pub is_management : Range → Bool
is_management management = true
is_management _ = false

abbrev pub is_pod : Range → Bool
is_pod pod = true
is_pod _ = false

gateway-in_range : (low high : ℤ) → host_data_if_in_range low high (host_data_if (pos 0)) ≡ false
unfolding host_data_if_in_range
gateway-in_range low high = rw (host_data_if_index-gateway, host_data_if_in_range)

pub mgmt_pool-host_data_if :
    (m u n i : ℕ)
    → i < 2 ^ 63
    → (mgmt_pool (pos m)).matches_iface (host_data_if (pos i)) ≡ is_management (range_of m u n i)
unfolding mgmt_pool
mgmt_pool-host_data_if m u n zero lt = rw (gateway-in_range (pos 1) (pos m))
mgmt_pool-host_data_if m u n (suc i) lt =
    rw (in_range-host_data_if 1 m (suc i) (omega arith) lt) (ground arith)

pod_vf_matcher-bounded :
    (start n : ℕ) (name : String)
    → 0 < n
    → pod_vf_matcher (pos start) (pos n) name ≡ host_data_if_in_range (pos start) (pos (n - 1)) name
unfolding pod_vf_matcher
pod_vf_matcher-bounded start n name h = ground arith

pod_vf_matcher-gateway :
    (start n : ℕ) → pod_vf_matcher (pos start) (pos n) (host_data_if (pos 0)) ≡ false
unfolding pod_vf_matcher host_data_if_in_range host_data_if_at_least
pod_vf_matcher-gateway start n = ground (arith, host_data_if_index-gateway)

pub vf_pool-host_data_if :
    (m u n i : ℕ)
    → m + u + 2 ≤ n
    → i < 2 ^ 63
    → (vf_pool (pos (m + u + 1)) (pos n)).matches_iface (host_data_if (pos i))
      ≡ is_pod (range_of m u n i)
unfolding vf_pool
vf_pool-host_data_if m u n zero h lt = ground (arith, pod_vf_matcher-gateway (m + u + 1) n)
vf_pool-host_data_if m u n (suc i) h lt = ground (
  arith,
  in_range-host_data_if (m + u + 1) (n - 1) (suc i) (omega arith) lt,
  pod_vf_matcher-bounded (m + u + 1) n (host_data_if (pos (suc i))),
)

-- For m ≥ 1 management interfaces, u uplinks and n pairs that leave an index to the pods, n within an
-- `int`, the pools are built, and the interface with an index `i` within an `int` is in the management
-- pool exactly when `i` is one of 1 to m, and in the pod pool exactly when it is one of m + u + 1 to
-- n - 1: the gateway, the uplinks and the indices from n on are in neither.
pub build_resource_pools_ranges :
    (m u n i : ℕ)
    → 1 ≤ m
    → m + u + 2 ≤ n
    → n < 2 ^ 63
    → i < 2 ^ 63
    → (mgmt vf : ResourcePool) × (build_resource_pools (pos m) (pos u) (pos n) ≡ pools mgmt vf)
      × (mgmt.matches_iface (host_data_if (pos i)) ≡ is_management (range_of m u n i))
      × (vf.matches_iface (host_data_if (pos i)) ≡ is_pod (range_of m u n i))
build_resource_pools_ranges m u n i h k l lt = (
  mgmt_pool (pos m),
  vf_pool (pos (m + u + 1)) (pos n),
  build_resource_pools-accepts m u n h k l,
  mgmt_pool-host_data_if m u n i lt,
  vf_pool-host_data_if m u n i k lt,
)

-- What a successful build says of its arguments and of the pools.
build_resource_pools-inv :
    (m u n : ℤ) {mgmt vf : ResourcePool}
    → build_resource_pools m u n ≡ pools mgmt vf
    → (pos 1 ≤ℤ m) × (pos 0 ≤ℤ u) × (mgmt ≡ mgmt_pool m) × (vf ≡ vf_pool (pod_vf_start_of m u) n)
unfolding build_resource_pools
build_resource_pools-inv m u n e = ground arith

pod_vf_start_of-lt :
    (m u : ℤ)
    → pos 1 ≤ℤ m
    → pos 0 ≤ℤ u
    → pos_part m + pos_part u + 1 < 2 ^ 63
    → m <ℤ pod_vf_start_of m u
unfolding pod_vf_start_of
pod_vf_start_of-lt m u h k l = ground arith

matchers_disjoint :
    (m start n : ℤ) (name : String)
    → m <ℤ start
    → host_data_if_in_range (pos 1) m name ≡ true
    → pod_vf_matcher start n name ≡ false
unfolding pod_vf_matcher
matchers_disjoint m start n name h i = ground arith

-- Where the pools are built and the sum of the counts and 1 fits an `int`, a name in the management
-- pool is not in the pod pool.
pub build_resource_pools_disjoint :
    (m u n : ℤ) {mgmt vf : ResourcePool}
    → pos_part m + pos_part u + 1 < 2 ^ 63
    → build_resource_pools m u n ≡ pools mgmt vf
    → (name : String) → mgmt.matches_iface name ≡ true
    → vf.matches_iface name ≡ false
unfolding mgmt_pool vf_pool
build_resource_pools_disjoint m u n h e name i =
    let (lm, lu, em, ev) = build_resource_pools-inv m u n e in
    rw ev (
      matchers_disjoint m (pod_vf_start_of m u) n name (pod_vf_start_of-lt m u lm lu h)
        (rw em at i))

pod_vf_start_of-wrapped :
    (m u : ℕ)
    → m < 2 ^ 63
    → u < 2 ^ 63
    → 2 ^ 63 ≤ m + u + 1
    → pod_vf_start_of (pos m) (pos u) ≤ℤ pos 0
unfolding pod_vf_start_of
pod_vf_start_of-wrapped m u hm hu o = ground arith

pod_vf_matcher-wrapped :
    (m u i : ℕ)
    → m < 2 ^ 63
    → u < 2 ^ 63
    → 2 ^ 63 ≤ m + u + 1
    → 0 < i
    → i < 2 ^ 63
    → pod_vf_matcher (pod_vf_start_of (pos m) (pos u)) (pos 0) (host_data_if (pos i)) ≡ true
unfolding pod_vf_matcher host_data_if_at_least
pod_vf_matcher-wrapped m u i hm hu o h lt =
    ground (arith, pod_vf_start_of-wrapped m u hm hu o, host_data_if_index-host_data_if i h lt)

-- Where m management interfaces and u uplinks each fit an `int` and m + u + 1 does not, and num_pairs
-- is 0, the pools are built and every interface with an index of 1 to m is in both.
pub build_resource_pools_overlap :
    (m u i : ℕ)
    → m < 2 ^ 63
    → u < 2 ^ 63
    → 2 ^ 63 ≤ m + u + 1
    → 1 ≤ i
    → i ≤ m
    → (mgmt vf : ResourcePool) × (build_resource_pools (pos m) (pos u) (pos 0) ≡ pools mgmt vf)
      × (mgmt.matches_iface (host_data_if (pos i)) ≡ true)
      × (vf.matches_iface (host_data_if (pos i)) ≡ true)
build_resource_pools_overlap m u i hm hu o h k = (
  mgmt_pool (pos m),
  vf_pool (pod_vf_start_of (pos m) (pos u)) (pos 0),
  unfold build_resource_pools in ground arith,
  unfold mgmt_pool in rw (in_range-host_data_if 1 m i h (omega arith)) (ground arith),
  unfold vf_pool in pod_vf_matcher-wrapped m u i hm hu o h (omega arith),
)
