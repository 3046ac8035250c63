-- ===== src/Config/Network/Interfaces.antt =====
-- From the configuration to the device plugin: the pools that are built from an accepted host-to-DPU
-- network, and the interfaces that it reserves for uplinks.
use dpu_simulator.Base.{
  ℕ, zero, suc, ◌+◌, ◌<◌, ◌≤◌, ◌^◌, ◌≡◌, Bool, true, false, [], arith, String, str_eq, str_eq_iff,
  append-eq-nil, sym, ◌∙◌, All, subst,
}
use dpu_simulator.Base.Int.{ℤ, pos, negsuc, pos_part, ◌≤ℤ◌, ◌+ℤ◌, wrap_64}
use dpu_simulator.Config.Types.{NetworkConfig, Config, host_to_dpu_network_type}
use dpu_simulator.Config.Mode.{is_offload_dpu}
use dpu_simulator.Config.Topology.{uplink_names, kind_dpu_gateway_subnet_required_ips}
use mathlib.Core.Bool.{false≢true}
use dpu_simulator.Config.Cidr.{validate_ipv4_cidr_capacity}
use dpu_simulator.Config.Network.{
  omitted_mgmt_count, check_counts, check_host_to_dpu, validate_network, defaulted_num_pairs,
  with_nic_model, defaulted_gateway_subnet, disallowed_for_host_to_dpu, gateway_subnet_errors,
}
use dpu_simulator.Config.Network.Budget.{check_counts-offload}
use dpu_simulator.DevicePlugin.Names.{host_data_if}
use dpu_simulator.DevicePlugin.Pools.{ResourcePool, pools, mgmt_pool, vf_pool, build_resource_pools}
use dpu_simulator.DevicePlugin.Pools.Ranges.{
  build_resource_pools-accepts, mgmt_pool-host_data_if, vf_pool-host_data_if, range_of,
  is_management, is_pod,
}

-- The counts of a network leave the gateway, its uplinks, at least one management interface and at
-- least one pod interface.
pub record FitsPairs (n : NetworkConfig) : Type 0 where
  pub mgmt_pos : pos 1 ≤ℤ n.mgmt_port_vfs_count
  pub uplink_pos : pos 0 ≤ℤ n.uplink_vfs_count
  pub within :
      pos_part n.mgmt_port_vfs_count + pos_part n.uplink_vfs_count + 2 ≤ pos_part n.num_pairs

-- The same for any value of the offload switch that is on.
check_counts-on :
    (offload : Bool) (num_pairs mgmt uplink : ℤ)
    → offload ≡ true
    → pos 1 ≤ℤ num_pairs
    → (check_counts offload num_pairs mgmt uplink).errors ≡ []
    → (pos 1 ≤ℤ (check_counts offload num_pairs mgmt uplink).mgmt)
      × (pos 0 ≤ℤ (check_counts offload num_pairs mgmt uplink).uplink)
      × (pos_part (check_counts offload num_pairs mgmt uplink).mgmt
            + pos_part (check_counts offload num_pairs mgmt uplink).uplink
            + 2
          ≤ pos_part num_pairs)
check_counts-on true num_pairs mgmt uplink h p e = check_counts-offload num_pairs mgmt uplink p e
check_counts-on false num_pairs mgmt uplink h p e = absurd (false≢true h)

counts-FitsPairs :
    (n : NetworkConfig) (offload : Bool)
    → offload ≡ true
    → (check_counts offload
        (defaulted_num_pairs n.num_pairs)
        n.mgmt_port_vfs_count
        n.uplink_vfs_count).errors
      ≡ []
    → FitsPairs (record n {
      num_pairs = defaulted_num_pairs n.num_pairs;
      gateway_subnet = defaulted_gateway_subnet n.gateway_subnet;
      mgmt_port_vfs_count =
          (check_counts offload
            (defaulted_num_pairs n.num_pairs)
            n.mgmt_port_vfs_count
            n.uplink_vfs_count).mgmt;
      uplink_vfs_count =
          (check_counts offload
            (defaulted_num_pairs n.num_pairs)
            n.mgmt_port_vfs_count
            n.uplink_vfs_count).uplink;
    })
counts-FitsPairs n offload o e =
    let (m, u, w) =
      check_counts-on offload (defaulted_num_pairs n.num_pairs) n.mgmt_port_vfs_count
        n.uplink_vfs_count o (ground arith) e in
    record { mgmt_pos = m; uplink_pos = u; within = w }

check_host_to_dpu-FitsPairs :
    (c : Config) (n : NetworkConfig)
    → is_offload_dpu c ≡ true
    → (check_host_to_dpu c n).1 ≡ []
    → FitsPairs (check_host_to_dpu c n).0
unfolding check_host_to_dpu
check_host_to_dpu-FitsPairs c n o e =
    let (_, rest) = append-eq-nil (disallowed_for_host_to_dpu n) _ e in
    let (_, counts) =
      append-eq-nil
        (gateway_subnet_errors (
          validate_ipv4_cidr_capacity (defaulted_gateway_subnet n.gateway_subnet)
            (kind_dpu_gateway_subnet_required_ips c)))
        _ rest in
    counts-FitsPairs n (is_offload_dpu c) o counts

validate_network-host_to_dpu :
    (c : Config) (n : NetworkConfig)
    → n.network_type ≡ host_to_dpu_network_type
    → ((validate_network c n).0 ≡ (check_host_to_dpu c (with_nic_model n)).0)
      × ((validate_network c n).1 ≡ [] → (check_host_to_dpu c (with_nic_model n)).1 ≡ [])
unfolding validate_network
validate_network-host_to_dpu c n t =
    let is : str_eq n.network_type host_to_dpu_network_type ≡ true =
      (str_eq_iff n.network_type host_to_dpu_network_type).1 t in
    (rw is, λ e. (append-eq-nil _ _ (rw is at e)).1)

-- A host-to-DPU network that is accepted under offload has counts that fit its pairs: at least one
-- management interface, no negative number of uplinks, and room for the gateway and one more interface.
pub validate_network-FitsPairs :
    (c : Config) (n : NetworkConfig)
    → n.network_type ≡ host_to_dpu_network_type
    → is_offload_dpu c ≡ true
    → (validate_network c n).1 ≡ []
    → FitsPairs (validate_network c n).0
validate_network-FitsPairs c n t o e =
    let (same, clean) = validate_network-host_to_dpu c n t in
    rw same (check_host_to_dpu-FitsPairs c (with_nic_model n) o (clean e))

-- A name is in neither pool.
abbrev pub InNoPool : ResourcePool → ResourcePool → String → Type 0
InNoPool mgmt vf name = (mgmt.matches_iface name ≡ false) × (vf.matches_iface name ≡ false)

sum_wrapped : (m i : ℕ) → m + i < 2 ^ 63 → wrap_64 (pos m +ℤ pos i) ≡ pos (m + i)
unfolding ◌+ℤ◌
sum_wrapped m i h = ground arith

-- What holds of the interfaces with the indices of a loop holds of all its names.
uplink_names-All :
    (P : String → Type 0) (m k i : ℕ)
    → m + i + k < 2 ^ 63
    → ((j : ℕ) → i ≤ j → j < i + k → P (host_data_if (pos (m + j))))
    → All P (uplink_names (pos m) k i)
unfolding uplink_names
uplink_names-All P m zero i b h = tt
uplink_names-All P m (suc k) i b h = (
  subst (λ x. P (host_data_if x)) (sym (sum_wrapped m i (omega arith)))
      (h i (omega arith) (omega arith)),
  uplink_names-All P m k (suc i) (omega arith) (λ j l r. h j (omega arith) (omega arith)),
)

-- The interface with the index of an uplink is in neither pool.
uplink-outside :
    (m u n j : ℕ)
    → 1 ≤ j
    → j ≤ u
    → (is_management (range_of m u n (m + j)) ≡ false) × (is_pod (range_of m u n (m + j)) ≡ false)
uplink-outside m u n j h k = (ground arith, ground arith)

-- The uplinks of counts that fit are in neither of the pools that are built from them.
uplink_names-InNoPool :
    (m u n : ℕ)
    → 1 ≤ m
    → m + u + 2 ≤ n
    → n < 2 ^ 63
    → (mgmt vf : ResourcePool) × (build_resource_pools (pos m) (pos u) (pos n) ≡ pools mgmt vf)
      × All (InNoPool mgmt vf) (uplink_names (pos m) u 1)
uplink_names-InNoPool m u n h k l = (
  mgmt_pool (pos m),
  vf_pool (pos (m + u + 1)) (pos n),
  build_resource_pools-accepts m u n h k l,
  uplink_names-All (InNoPool (mgmt_pool (pos m)) (vf_pool (pos (m + u + 1)) (pos n))) m u 1
      (omega arith)
      (λ j a b.
        let (om, ov) = uplink-outside m u n j a (omega arith) in
        (
          mgmt_pool-host_data_if m u n (m + j) (omega arith) ∙ om,
          vf_pool-host_data_if m u n (m + j) k (omega arith) ∙ ov,
        )),
)

-- The same for integers: their parts are what they stand for.
uplinks_of_integers :
    (m u n : ℤ)
    → pos 1 ≤ℤ m
    → pos 0 ≤ℤ u
    → pos_part m + pos_part u + 2 ≤ pos_part n
    → pos_part n < 2 ^ 63
    → (mgmt vf : ResourcePool) × (build_resource_pools m u n ≡ pools mgmt vf)
      × All (InNoPool mgmt vf) (uplink_names m (pos_part u) 1)
uplinks_of_integers (pos m) (pos u) (pos n) hm hu w lt =
    uplink_names-InNoPool m u n (ground arith) w lt
uplinks_of_integers (negsuc m) u n hm hu w lt = absurd (ground arith)
uplinks_of_integers (pos m) (negsuc u) n hm hu w lt = absurd (ground arith)
uplinks_of_integers (pos m) (pos u) (negsuc n) hm hu w lt = absurd (ground arith)

-- Under offload, a host-to-DPU network that is accepted without an error, with num_pairs within an
-- `int`, gives the device plugin counts from which it builds its pools, and none of the interfaces
-- that are reserved for uplinks is in a pool.
pub validate_network-build_resource_pools :
    (c : Config) (n : NetworkConfig)
    → n.network_type ≡ host_to_dpu_network_type
    → is_offload_dpu c ≡ true
    → (validate_network c n).1 ≡ []
    → pos_part (validate_network c n).0.num_pairs < 2 ^ 63
    → (mgmt vf : ResourcePool) × (build_resource_pools
          (validate_network c n).0.mgmt_port_vfs_count
          (validate_network c n).0.uplink_vfs_count
          (validate_network c n).0.num_pairs
        ≡ pools mgmt vf)
      × All (InNoPool mgmt vf) (
          uplink_names
            (validate_network c n).0.mgmt_port_vfs_count
            (pos_part (validate_network c n).0.uplink_vfs_count)
            1)
validate_network-build_resource_pools c n t o e lt =
    let fits = validate_network-FitsPairs c n t o e in
    uplinks_of_integers _ _ _ fits.mgmt_pos fits.uplink_pos fits.within lt

-- Without offload, with one interface pair and a management count that is not positive, every number
-- of uplinks is accepted and kept.
pub check_counts-skipped :
    (mgmt : ℤ) (uplink : ℕ)
    → mgmt ≤ℤ pos 0
    → ((check_counts false (pos 1) mgmt (pos uplink)).errors ≡ [])
      × ((check_counts false (pos 1) mgmt (pos uplink)).uplink ≡ pos uplink)
unfolding check_counts omitted_mgmt_count
check_counts-skipped mgmt uplink h = (ground arith, ground arith)
