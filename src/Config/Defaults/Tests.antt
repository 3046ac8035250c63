-- ===== src/Config/Defaults/Tests.antt =====
-- A configuration that is loaded twice.
use Prim.Native.String.{String}
use dpu_simulator.Base.{◌≡◌, refl, true, false, [], ◌∷◌, none, some, ap, sym, ◌∙◌, str_eq}
use dpu_simulator.Base.Text.{codes, atoi, all_digits, digit, digits, itoa}
use dpu_simulator.Base.Trim.{trim_text, push_unless_blank, trim_end, trim_start}
use dpu_simulator.Config.Types.{Config}
use dpu_simulator.Config.Tests.{node, two_clusters}
use dpu_simulator.Config.Endpoints.{
  no_endpoint, no_port, with_scheme, validate_registry_endpoint, contains_bytes, split_host_port,
}
use dpu_simulator.Config.Defaults.{
  Home, expand_tilde, is_clean, validate_and_set_defaults, load_config, each_set, validate_ssh,
  expand_key_path, behind_slash, is_prefix, validate_endpoint, validate_registry,
  with_kubernetes_defaults,
}
use dpu_simulator.Config.Defaults.Settled.Entries.{IsPlain}
use dpu_simulator.Config.Defaults.Accepted.{load_config_idem}
use dpu_simulator.Config.Network.{
  validate_network, check_host_to_dpu, omitted_mgmt_count, check_counts,
  default_dpu_host_mgmt_port_vfs, disallowed_for_host_to_dpu, gateway_subnet_errors,
}
use dpu_simulator.Config.Cidr.{
  validate_ipv4_cidr_capacity, parse_cidr, parse_ipv4, usable_ipv4_address_count,
  validate_ipv4_cidr,
}
use dpu_simulator.Config.Topology.{kind_dpu_gateway_subnet_required_ips}
use dpu_simulator.Config.Mode.{
  is_kind_mode, is_vm_mode, has_registry, is_registry_enabled, is_registry_image_build_only,
}
use dpu_simulator.Config.Nodes.{
  get_host_dpu_pairs, get_kind_node_container_name, container_name_from, get_host_dpu_pairs_kind,
  get_kind_nodes_for_cluster, host_by_name,
}
use dpu_simulator.Config.Validate.{
  each, check_os, check_build_only, check_cluster, check_container, check_host_of, check_hosts,
  check_kind, check_kind_node, check_kind_references,
}
use dpu_simulator.Base.Int.{◌-ℤ◌}
use dpu_simulator.Config.Addons.{normalize_from, validate_and_normalize_addons}

abbrev root_home : Home
root_home = record { dir = some "/root"; join = λ s. String.◌∷◌ "/" s }

root_home-IsPlain : IsPlain root_home
unfolding is_prefix str_eq
root_home-IsPlain = record {
  dir_plain = λ dir e. ap (is_prefix "~") (sym (some_inj e)) ∙ at_root;
  join_plain = λ s. refl;
}
  where
    some_inj : {s t : String} → some s ≡ some t → s ≡ t
    some_inj e = cc

    at_root : is_prefix "~" "/root" ≡ false
    at_root = refl

-- With an unset password, a path to expand, a cluster without subnets and an endpoint in blanks.
abbrev sparse : Config
sparse = record two_clusters {
  kind = some (record {
    nodes =
        node "h0" "" "h" "control-plane" ""
        ∷ node "h1" "host" "h" "worker" ""
        ∷ node "d1" "dpu" "d" "worker" "h1"
        ∷ [];
  });
  ssh = record { user = "core"; key_path = "~/id"; password = "" };
  registry = some (record {
    enabled = some true;
    insecure_endpoints = " reg:5000 " ∷ [];
    containers = record { name = "ovn"; cni = "ovn-kubernetes"; tag = "ovn:dev" } ∷ [];
  });
}

abbrev loaded : Config
loaded = (validate_and_set_defaults root_home sparse).0

is_loaded : load_config root_home sparse ≡ some loaded
unfolding load_config validate_and_set_defaults str_eq each_set validate_network check_host_to_dpu
    validate_ipv4_cidr_capacity parse_cidr kind_dpu_gateway_subnet_required_ips is_kind_mode
    get_host_dpu_pairs is_vm_mode get_kind_node_container_name omitted_mgmt_count each check_os
    validate_ssh expand_key_path expand_tilde ◌-ℤ◌ all_digits atoi digit digits itoa
    push_unless_blank trim_end trim_start trim_text normalize_from validate_and_normalize_addons
    parse_ipv4 usable_ipv4_address_count validate_ipv4_cidr behind_slash is_clean is_prefix
    validate_endpoint validate_registry with_kubernetes_defaults contains_bytes split_host_port
    validate_registry_endpoint has_registry is_registry_enabled is_registry_image_build_only
    check_counts default_dpu_host_mgmt_port_vfs disallowed_for_host_to_dpu gateway_subnet_errors
    container_name_from get_host_dpu_pairs_kind get_kind_nodes_for_cluster host_by_name
    check_build_only check_cluster check_container check_host_of check_hosts check_kind
    check_kind_node check_kind_references
is_loaded = refl

given_defaults : loaded.ssh ≡ record { user = "core"; key_path = "/id"; password = "redhat" }
unfolding validate_and_set_defaults validate_ssh str_eq expand_key_path expand_tilde
given_defaults = refl

load_config_idem_example : load_config root_home loaded ≡ some loaded
load_config_idem_example = load_config_idem root_home root_home-IsPlain sparse loaded is_loaded

endpoints :
    (validate_registry_endpoint (codes "reg:5000") ≡ none)
    × (validate_registry_endpoint (codes "[::1]:5000") ≡ none)
    × (validate_registry_endpoint (codes "::1:5000") ≡ some no_endpoint)
    × (validate_registry_endpoint (codes "reg:65536") ≡ some no_port)
    × (validate_registry_endpoint (codes "http://reg:1") ≡ some with_scheme)
unfolding validate_registry_endpoint atoi
endpoints = (refl, refl, refl, refl, refl)
