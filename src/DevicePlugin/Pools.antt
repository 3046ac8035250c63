-- ===== src/DevicePlugin/Pools.antt =====
-- pkg/deviceplugin/device_plugin.go: the resource pools, their matchers and the counts that are
-- read from the environment. A Go `int` is a ℤ in 64 bits, and a sum of two wraps around.
pub mod Ranges
use Prim.Native.String.{◌++◌ as concat}
use dpu_simulator.Base.{
  ℕ, ◌+◌, ◌≡◌, refl, Bool, true, false, not, ◌&&◌, ◌||◌, List, [], ◌∷◌, Option, none, some, arith,
  String, if◌then◌else◌, str_eq,
}
use dpu_simulator.Base.Int.{ℤ, pos, negsuc, leb_ℤ, ltb_ℤ, ◌+ℤ◌, ◌-ℤ◌, wrap_64}
use dpu_simulator.Base.Text.{Bytes, codes, itoa, atoi, trim_space}
use dpu_simulator.DevicePlugin.Names.{
  host_gateway_interface_index, host_data_if, host_data_if_index,
}

-- hostDataIfInRange and hostDataIfAtLeast: a matcher of interface names.
unfoldable pub host_data_if_in_range : ℤ → ℤ → String → Bool
host_data_if_in_range low high name = elim (host_data_if_index name) [
  | none ↦ false
  | some idx ↦ leb_ℤ low idx && leb_ℤ idx high
]

unfoldable pub host_data_if_at_least : ℤ → String → Bool
host_data_if_at_least start name = elim (host_data_if_index name) [
  | none ↦ false
  | some idx ↦ leb_ℤ start idx
]

pub record ResourcePool : Type 0 where
  pub resource_name : String
  pub socket_name : String
  pub env_var_name : String
  pub matches_iface : String → Bool
  pub host_data_if_index_start : ℤ
  pub host_data_if_index_end : ℤ

pub data PoolError : Type 0 where
  mgmt_port_vfs_count_too_small : ℤ → PoolError
  uplink_vfs_count_negative : ℤ → PoolError
  no_pod_vf : ℤ → ℤ → ℤ → PoolError

pub data PoolResult : Type 0 where
  pools : ResourcePool → ResourcePool → PoolResult
  refused : PoolError → PoolResult

unfoldable pub pod_vf_matcher : ℤ → ℤ → String → Bool
unfolding host_data_if_in_range host_data_if_at_least ◌-ℤ◌
pod_vf_matcher pod_vf_start num_pairs name =
    if ltb_ℤ (pos 0) num_pairs
    then host_data_if_in_range pod_vf_start (num_pairs -ℤ pos 1) name
    else host_data_if_at_least pod_vf_start name

unfoldable pub pod_vf_end : ℤ → ℤ
unfolding ◌-ℤ◌
pod_vf_end num_pairs = if ltb_ℤ (pos 0) num_pairs then num_pairs -ℤ pos 1 else pos 0

unfoldable pub mgmt_pool : ℤ → ResourcePool
mgmt_pool mgmt_port_vfs_count =
    let mgmt_vf_start = pos (host_gateway_interface_index + 1) in
    record {
      resource_name = "dpusim.io/mgmtvf";
      socket_name = "dpusim-mgmtvf.sock";
      env_var_name = "PCIDEVICE_DPUSIM_IO_MGMTVF";
      matches_iface = host_data_if_in_range mgmt_vf_start mgmt_port_vfs_count;
      host_data_if_index_start = mgmt_vf_start;
      host_data_if_index_end = mgmt_port_vfs_count;
    }

unfoldable pub vf_pool : ℤ → ℤ → ResourcePool
unfolding pod_vf_matcher pod_vf_end
vf_pool pod_vf_start num_pairs = record {
  resource_name = "dpusim.io/vf";
  socket_name = "dpusim-vf.sock";
  env_var_name = "PCIDEVICE_DPUSIM_IO_VF";
  matches_iface = pod_vf_matcher pod_vf_start num_pairs;
  host_data_if_index_start = pod_vf_start;
  host_data_if_index_end = pod_vf_end num_pairs;
}

-- `mgmtPortVFsCount + uplinkVFsCount + 1`, each sum in 64 bits.
unfoldable pub pod_vf_start_of : ℤ → ℤ → ℤ
unfolding ◌+ℤ◌
pod_vf_start_of mgmt_port_vfs_count uplink_vfs_count =
    wrap_64 (wrap_64 (mgmt_port_vfs_count +ℤ uplink_vfs_count) +ℤ pos 1)

unfoldable pub build_resource_pools : ℤ → ℤ → ℤ → PoolResult
unfolding ◌-ℤ◌
build_resource_pools mgmt_port_vfs_count uplink_vfs_count num_pairs =
    let pod_vf_start = pod_vf_start_of mgmt_port_vfs_count uplink_vfs_count in
    if ltb_ℤ mgmt_port_vfs_count (pos 1)
    then refused (mgmt_port_vfs_count_too_small mgmt_port_vfs_count)
    else if ltb_ℤ uplink_vfs_count (pos 0)
    then refused (uplink_vfs_count_negative uplink_vfs_count)
    else if ltb_ℤ (pos 0) num_pairs && ltb_ℤ (num_pairs -ℤ pos 1) pod_vf_start
    then refused (no_pod_vf num_pairs mgmt_port_vfs_count uplink_vfs_count)
    else pools (mgmt_pool mgmt_port_vfs_count) (vf_pool pod_vf_start num_pairs)

-- MatcherDescription.
unfoldable pub matcher_description : ResourcePool → String
unfolding host_data_if
matcher_description p =
    let first = p.host_data_if_index_start in
    let last = p.host_data_if_index_end in
    if ltb_ℤ (pos 0) last
    then (if leb_ℤ first last && leb_ℤ last first
        then host_data_if first
        else concat (host_data_if first) (concat ".." (host_data_if last)))
    else if ltb_ℤ (pos 0) first
    then concat (host_data_if first) ".."
    else "custom"

-- MgmtPortVFsCountFromEnv over the value of the variable; `none` is the error.
unfoldable pub mgmt_port_vfs_count_from_env : String → Option ℤ
mgmt_port_vfs_count_from_env value = elim (atoi (trim_space (codes value))) [
  | none ↦ none
  | some count ↦ if ltb_ℤ count (pos 1) then none else some count
]

optional_count : Bytes → Option ℤ
optional_count [] = some (pos 0)
optional_count (c ∷ cs) = elim (atoi (c ∷ cs)) [
  | none ↦ none
  | some count ↦ if ltb_ℤ count (pos 0) then none else some count
]

-- optionalCountFromEnv: a variable that is unset or blank is 0.
unfoldable pub optional_count_from_env : String → Option ℤ
unfolding optional_count
optional_count_from_env value = optional_count (trim_space (codes value))
