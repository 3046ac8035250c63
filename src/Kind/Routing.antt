-- ===== src/Kind/Routing.antt =====
-- pkg/kind/routing.go: the iptables rules between the Kind network and the DPU gateway network. What
-- `json.Unmarshal` reads from the answer of `network inspect` is an argument, as are the commands.
use Prim.Native.String.{◌++◌ as concat}
use dpu_simulator.Base.{
  ℕ, zero, suc, Bool, false, not, ◌&&◌, List, [], ◌∷◌, Option, none, some, String, str_eq,
  if◌then◌else◌, leb, ltb, length,
}
use dpu_simulator.Base.Text.{codes, itoa}
use dpu_simulator.Config.Cidr.{IpNet, parse_cidr}
use dpu_simulator.Config.Gateway.{dotted}

abbrev pub Rule : Type 0
Rule = List String

-- A chain of the filter table, or PREROUTING of the raw table.
pub data Chain : Type 0 where
  filter : String → Chain
  raw_prerouting : Chain

-- The commands `iptables -C`, `-I` and `-D`.
abbrev pub check_args : Chain → Rule → List String
check_args (filter chain) rule = "sudo" ∷ "iptables" ∷ "-C" ∷ chain ∷ rule
check_args raw_prerouting rule = "sudo" ∷ "iptables" ∷ "-t" ∷ "raw" ∷ "-C" ∷ "PREROUTING" ∷ rule

abbrev pub insert_args : Chain → Rule → List String
insert_args (filter chain) rule = "sudo" ∷ "iptables" ∷ "-I" ∷ chain ∷ "1" ∷ rule
insert_args raw_prerouting rule =
    "sudo" ∷ "iptables" ∷ "-t" ∷ "raw" ∷ "-I" ∷ "PREROUTING" ∷ "1" ∷ rule

abbrev pub delete_args : Chain → Rule → List String
delete_args (filter chain) rule = "sudo" ∷ "iptables" ∷ "-D" ∷ chain ∷ rule
delete_args raw_prerouting rule = "sudo" ∷ "iptables" ∷ "-t" ∷ "raw" ∷ "-D" ∷ "PREROUTING" ∷ rule

abbrev pub list_args : String → List String
list_args chain = "sudo" ∷ "iptables" ∷ "-nL" ∷ chain ∷ []

-- `subnet.String()` of an IPv4 subnet.
unfoldable pub subnet_string : IpNet → String
subnet_string subnet = concat (dotted subnet.address) (concat "/" (itoa subnet.ones))

abbrev comment : Rule
comment =
    "-m" ∷ "comment" ∷ "--comment" ∷ "dpu-simulator-kind-gateway-routing" ∷ "-j" ∷ "ACCEPT" ∷ []

unfoldable pub forward_rule_args : String → String → IpNet → IpNet → Rule
unfolding subnet_string
forward_rule_args in_bridge out_bridge src_subnet dst_subnet =
    "-i"
    ∷ in_bridge
    ∷ "-o"
    ∷ out_bridge
    ∷ "-s"
    ∷ subnet_string src_subnet
    ∷ "-d"
    ∷ subnet_string dst_subnet
    ∷ comment

unfoldable pub raw_prerouting_rule_args : String → IpNet → IpNet → Rule
unfolding subnet_string
raw_prerouting_rule_args in_bridge src_subnet dst_subnet =
    "-i" ∷ in_bridge ∷ "-s" ∷ subnet_string src_subnet ∷ "-d" ∷ subnet_string dst_subnet ∷ comment

-- The fields of containerNetworkInspect: the bridge options of `Options` and `options`, and the texts
-- under `IPAM`, `ipam` and `subnets`. A field that the answer leaves out is the empty text.
pub record NetworkInspect : Type 0 where
  pub id : String
  pub id_lower : String
  pub name : String
  pub name_lower : String
  pub driver : String
  pub driver_lower : String
  pub network_interface : String
  pub bridge_option : String
  pub bridge_option_lower : String
  pub ipam : List String
  pub ipam_lower : List String
  pub subnets : List String

pub record NetworkInfo : Type 0 where
  pub name : String
  pub bridge : String
  pub subnet : IpNet

pub record PodmanInfo : Type 0 where
  pub network_backend : String
  pub rootless_network_cmd : String
  pub rootless : Bool

unfoldable pub first_non_empty : List String → String
first_non_empty [] = ""
first_non_empty (v ∷ values) = if not (str_eq v "") then v else first_non_empty values

-- `s[:n]`.
unfoldable pub take_text : ℕ → String → String
take_text zero s = ""
take_text (suc n) String.[] = ""
take_text (suc n) (String.◌∷◌ c s) = String.◌∷◌ c (take_text n s)

unfoldable pub network_bridge_name : NetworkInspect → String
unfolding first_non_empty take_text
network_bridge_name n =
    let id = first_non_empty (n.id ∷ n.id_lower ∷ []) in
    let driver = first_non_empty (n.driver ∷ n.driver_lower ∷ []) in
    if not (str_eq n.network_interface "")
    then n.network_interface
    else if not (str_eq n.bridge_option "")
    then n.bridge_option
    else if not (str_eq n.bridge_option_lower "")
    then n.bridge_option_lower
    else if str_eq driver "bridge" && leb 12 (length (codes id))
    then concat "br-" (take_text 12 id)
    else ""

-- parseIPv4CIDR of pkg/kind/network.go.
unfoldable pub parse_ipv4_cidr : String → Option IpNet
parse_ipv4_cidr cidr = elim (parse_cidr cidr) [
  | none ↦ none
  | some subnet ↦ if ltb 30 subnet.ones then none else some subnet
]

unfoldable pub first_subnet : List String → Option IpNet
unfolding parse_ipv4_cidr
first_subnet [] = none
first_subnet (s ∷ configs) = elim (parse_ipv4_cidr s) [
  | none ↦ first_subnet configs
  | some subnet ↦ some subnet
]

unfoldable pub network_subnet : NetworkInspect → Option IpNet
unfolding first_subnet
network_subnet n = elim (first_subnet n.ipam) [
  | some subnet ↦ some subnet
  | none ↦ elim (first_subnet n.ipam_lower) [
    | some subnet ↦ some subnet
    | none ↦ first_subnet n.subnets
  ]
]

unfoldable pub network_info_from_inspect : String → NetworkInspect → Option NetworkInfo
unfolding first_non_empty network_bridge_name network_subnet
network_info_from_inspect default_name n =
    let name = first_non_empty (n.name ∷ n.name_lower ∷ default_name ∷ []) in
    let bridge = network_bridge_name n in
    if str_eq bridge "" then none else elim (network_subnet n) [
      | none ↦ none
      | some subnet ↦ some (record { name = name; bridge = bridge; subnet = subnet })
    ]

unfoldable pub podman_uses_rootless_pasta : Option PodmanInfo → Bool
podman_uses_rootless_pasta none = false
podman_uses_rootless_pasta (some info) = info.rootless && str_eq info.rootless_network_cmd "pasta"

-- The two directions of the traffic between the networks.
unfoldable pub raw_rules : NetworkInfo → String → IpNet → List Rule
unfolding raw_prerouting_rule_args
raw_rules kind bridge subnet =
    raw_prerouting_rule_args bridge subnet kind.subnet
    ∷ raw_prerouting_rule_args kind.bridge kind.subnet subnet
    ∷ []

unfoldable pub forward_rules : NetworkInfo → String → IpNet → List Rule
unfolding forward_rule_args
forward_rules kind bridge subnet =
    forward_rule_args kind.bridge bridge kind.subnet subnet
    ∷ forward_rule_args bridge kind.bridge subnet kind.subnet
    ∷ []
