-- ===== src/Config/Network.antt =====
-- The loop over `networks` in validateAndSetDefaults of pkg/config/config.go: the checks of one network
-- and the defaults that it gets. The counts keep every difference here within an `int`: what is
-- subtracted is not negative, and num_pairs is at least 1.
pub mod Budget
pub mod Interfaces
use dpu_simulator.Base.{
  ℕ, zero, suc, Bool, true, false, not, ◌&&◌, ◌||◌, List, [], ◌∷◌, ◌++◌, Option, none, some, String,
  str_eq, if◌then◌else◌, when,
}
use dpu_simulator.Base.Int.{ℤ, pos, negsuc, leb_ℤ, ltb_ℤ, ◌-ℤ◌}
use dpu_simulator.Config.Types.{NetworkConfig, Config, host_to_dpu_network_type}
use dpu_simulator.Config.Mode.{is_offload_dpu}
use dpu_simulator.Config.Topology.{
  default_dpu_host_gateway_subnet, kind_dpu_gateway_subnet_required_ips,
}
use dpu_simulator.Config.Cidr.{CidrError, validate_ipv4_cidr_capacity}

-- One constructor for each message, with the name of the field where the message varies only in it.
pub data NetworkError : Type 0 where
  required not_allowed : String → NetworkError
  invalid_gateway_subnet : CidrError → NetworkError
  mgmt_over_budget : ℤ → NetworkError
  uplink_negative : NetworkError
  mgmt_too_small_for_offload : NetworkError
  counts_over_budget : ℤ → NetworkError

abbrev pub default_mgmt_port_vfs_count : ℤ
default_mgmt_port_vfs_count = pos 2

-- defaultDPUHostMgmtPortVFs.
unfoldable pub default_dpu_host_mgmt_port_vfs : ℤ → ℤ
unfolding ◌-ℤ◌
default_dpu_host_mgmt_port_vfs num_pairs =
    let available = num_pairs -ℤ pos 2 in
    if leb_ℤ available (pos 0)
    then pos 0
    else if ltb_ℤ available default_mgmt_port_vfs_count
    then available
    else default_mgmt_port_vfs_count

-- What is given where mgmt_port_vfs_count is omitted or not positive.
unfoldable pub omitted_mgmt_count : ℤ → ℤ → ℤ
unfolding default_dpu_host_mgmt_port_vfs ◌-ℤ◌
omitted_mgmt_count num_pairs uplink =
    let default = default_dpu_host_mgmt_port_vfs num_pairs in
    let room = num_pairs -ℤ pos 2 -ℤ uplink in
    let clamped = if ltb_ℤ room default then room else default in
    if ltb_ℤ clamped (pos 0) then pos 0 else clamped

-- The fields that a HostToDpu network must leave empty.
unfoldable pub disallowed_for_host_to_dpu : NetworkConfig → List NetworkError
disallowed_for_host_to_dpu n =
    when (not (str_eq n.bridge_name "")) (not_allowed "bridge_name")
    ++ when (not (str_eq n.gateway "")) (not_allowed "gateway")
    ++ when (not (str_eq n.subnet_mask "")) (not_allowed "subnet_mask")
    ++ when (not (str_eq n.dhcp_start "")) (not_allowed "dhcp_start")
    ++ when (not (str_eq n.dhcp_end "")) (not_allowed "dhcp_end")
    ++ when (not (str_eq n.mode "")) (not_allowed "mode")
    ++ when n.use_ovs (not_allowed "use_ovs")
    ++ when (not (str_eq n.attach_to "")) (not_allowed "attach_to")

unfoldable pub gateway_subnet_errors : Option CidrError → List NetworkError
gateway_subnet_errors none = []
gateway_subnet_errors (some e) = invalid_gateway_subnet e ∷ []

abbrev pub defaulted_num_pairs : ℤ → ℤ
defaulted_num_pairs num_pairs = if leb_ℤ num_pairs (pos 0) then pos 1 else num_pairs

abbrev pub defaulted_gateway_subnet : String → String
defaulted_gateway_subnet s = if str_eq s "" then default_dpu_host_gateway_subnet else s

abbrev pub clamped_uplink : ℤ → ℤ
clamped_uplink uplink = if ltb_ℤ uplink (pos 0) then pos 0 else uplink

-- The counts, with the errors on them: `offload`, then num_pairs (with its default), then the two counts
-- as they are configured.
pub record Counts : Type 0 where
  pub mgmt : ℤ
  pub uplink : ℤ
  pub errors : List NetworkError

unfoldable pub check_counts : Bool → ℤ → ℤ → ℤ → Counts
check_counts offload num_pairs mgmt uplink =
    let available = num_pairs -ℤ pos 2 in
    let uplink' = clamped_uplink uplink in
    let mgmt' = if leb_ℤ mgmt (pos 0) then omitted_mgmt_count num_pairs uplink' else mgmt in
    record {
      mgmt = mgmt';
      uplink = uplink';
      errors =
          when (ltb_ℤ (pos 0) mgmt && ltb_ℤ available mgmt) (mgmt_over_budget available)
          ++ when (ltb_ℤ uplink (pos 0)) uplink_negative
          ++ when (offload && ltb_ℤ mgmt' (pos 1)) mgmt_too_small_for_offload
          ++ when
              (ltb_ℤ (pos 0) uplink' && leb_ℤ mgmt' available && ltb_ℤ (available -ℤ mgmt') uplink')
              (counts_over_budget available);
    }

unfoldable pub check_host_to_dpu : Config → NetworkConfig → NetworkConfig × List NetworkError
unfolding disallowed_for_host_to_dpu gateway_subnet_errors check_counts
check_host_to_dpu c n =
    let num_pairs = defaulted_num_pairs n.num_pairs in
    let gateway_subnet = defaulted_gateway_subnet n.gateway_subnet in
    let counts =
      check_counts (is_offload_dpu c) num_pairs n.mgmt_port_vfs_count n.uplink_vfs_count in
    (
      record n {
        num_pairs = num_pairs;
        gateway_subnet = gateway_subnet;
        mgmt_port_vfs_count = counts.mgmt;
        uplink_vfs_count = counts.uplink;
      },
      disallowed_for_host_to_dpu n
          ++ (gateway_subnet_errors (
                validate_ipv4_cidr_capacity gateway_subnet (kind_dpu_gateway_subnet_required_ips c))
              ++ counts.errors),
    )

is_zero : ℤ → Bool
is_zero (pos zero) = true
is_zero _ = false

-- A network of another type.
unfoldable pub check_bridged : NetworkConfig → NetworkConfig × List NetworkError
unfolding is_zero
check_bridged n = (
  record n {
    mode = if str_eq n.mode "" then "nat" else n.mode;
    attach_to = if str_eq n.attach_to "" then "any" else n.attach_to;
  },
  when (str_eq n.bridge_name "") (required "bridge_name")
      ++ when (ltb_ℤ (pos 0) n.num_pairs) (not_allowed "num_pairs")
      ++ when (not (is_zero n.mgmt_port_vfs_count)) (not_allowed "mgmt_port_vfs_count")
      ++ when (not (is_zero n.uplink_vfs_count)) (not_allowed "uplink_vfs_count")
      ++ when (not (str_eq n.gateway_subnet "")) (not_allowed "gateway_subnet"),
)

abbrev pub with_nic_model : NetworkConfig → NetworkConfig
with_nic_model n = record n { nic_model = if str_eq n.nic_model "" then "virtio" else n.nic_model }

-- One round of the loop.
unfoldable pub validate_network : Config → NetworkConfig → NetworkConfig × List NetworkError
validate_network c n =
    let (checked, errors) =
      if str_eq n.network_type host_to_dpu_network_type
      then check_host_to_dpu c (with_nic_model n)
      else check_bridged (with_nic_model n) in
    (
      checked,
      when (str_eq n.name "") (required "name")
          ++ when (str_eq n.network_type "") (required "type")
          ++ errors,
    )
