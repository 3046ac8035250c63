-- ===== src/Config/Defaults.antt =====
-- validateAndSetDefaults of pkg/config/config.go as a whole, and LoadConfig behind the reading of the file. The
-- errors stand by section; they are joined in the order of the sections.
pub mod Settled
pub mod Accepted
pub mod Tests
use Prim.Native.String.{◌++◌ as concat}
use dpu_simulator.Base.{
  ℕ, suc, Bool, true, false, not, ◌&&◌, ◌||◌, List, [], ◌∷◌, ◌++◌, Option, none, some, String,
  str_eq, if◌then◌else◌, when, map,
}
use dpu_simulator.Base.Text.{codes}
use dpu_simulator.Base.Trim.{trim_text}
use dpu_simulator.Config.Endpoints.{EndpointError, empty_value, validate_registry_endpoint}
use dpu_simulator.Config.Mode.{is_empty}
use dpu_simulator.Config.Network.{NetworkError, validate_network}
use dpu_simulator.Config.Types.{
  Config, NetworkConfig, VmConfig, BareMetalConfig, BareMetalBootcConfig, SshConfig, ClusterConfig,
  KubernetesConfig, RegistryConfig,
}
use dpu_simulator.Config.Validate.{
  FieldError, required, each, is_blank, check_vm, check_bare_metal, with_type, check_bootc,
  check_os, check_kind, check_cluster, check_container, check_build_only, check_hosts,
}

-- os.UserHomeDir and filepath.Join, as expandTilde calls them: the path of the home directory and of what
-- is in it.
pub record Home : Type 0 where
  pub dir : Option String
  pub join : String → String

unfoldable pub is_prefix : String → String → Bool
is_prefix String.[] s = true
is_prefix (String.◌∷◌ c p) String.[] = false
is_prefix (String.◌∷◌ c p) (String.◌∷◌ d s) =
    str_eq (String.◌∷◌ c String.[]) (String.◌∷◌ d String.[]) && is_prefix p s

-- `path[2:]`.
unfoldable pub behind_slash : String → String
behind_slash (String.◌∷◌ c (String.◌∷◌ d s)) = s
behind_slash s = String.[]

-- expandTilde; `none` is its error.
unfoldable pub expand_tilde : Home → String → Option String
unfolding is_prefix behind_slash
expand_tilde home path = if not (is_prefix "~" path) then some path else (elim home.dir [
  | none ↦ none
  | some dir ↦
      if str_eq path "~"
      then some dir
      else if is_prefix "~/" path
      then some (home.join (behind_slash path))
      else some path
])

pub data PathError : Type 0 where
  not_expanded no_credentials : PathError

-- A key path that is there is expanded; one that cannot be is left.
unfoldable pub expand_key_path : Home → String → String × List PathError
expand_key_path home path = if is_blank path then (path, []) else (elim (expand_tilde home path) [
  | none ↦ (path, not_expanded ∷ [])
  | some expanded ↦ (expanded, [])
])

-- The `bootstrap_ssh` section, from the user of the configuration.
unfoldable pub check_bootstrap : Home → String → SshConfig → SshConfig × List PathError
check_bootstrap home user b =
    let own_user = if is_blank user then "root" else user in
    let (key_path, errors) = expand_key_path home b.key_path in
    (
      record b { user = (if is_blank b.user then own_user else b.user); key_path = key_path },
      errors ++ when (is_blank key_path && is_blank b.password) no_credentials,
    )

-- What one entry has got: errors on its fields and on its paths.
pub record NodeErrors : Type 0 where
  pub fields : List FieldError
  pub paths : List PathError

unfoldable pub bootstrapped : Home → String → Option SshConfig → Option SshConfig × List PathError
bootstrapped home user none = (none, [])
bootstrapped home user (some b) =
    let (b', errors) = check_bootstrap home user b in (some b', errors)

unfoldable pub bootc_of :
    Option BareMetalBootcConfig → Option BareMetalBootcConfig × List FieldError
bootc_of none = (none, [])
bootc_of (some b) = let (b', errors) = check_bootc b in (some b', errors)

pub data NodeError : Type 0 where
  on_field : FieldError → NodeError
  on_path : PathError → NodeError

-- One round of the loop over the bare-metal nodes.
unfoldable pub validate_bare_metal :
    Home → String → BareMetalConfig → BareMetalConfig × List NodeError
validate_bare_metal home user node =
    let (bootstrap_ssh, path_errors) = bootstrapped home user node.bootstrap_ssh in
    let (bootc, bootc_errors) = bootc_of node.bootc in
    (
      record (with_type node) { bootstrap_ssh = bootstrap_ssh; bootc = bootc },
      map on_field (check_bare_metal node)
          ++ (map on_path path_errors ++ map on_field bootc_errors),
    )

unfoldable pub validate_ssh : Home → SshConfig → SshConfig × List PathError
validate_ssh home s =
    let (key_path, errors) = expand_key_path home s.key_path in
    (
      record s {
        user = (if is_blank s.user then "root" else s.user);
        password = (if is_blank s.password then "redhat" else s.password);
        key_path = key_path;
      },
      errors,
    )

option_list : {A : Type 0} → Option A → List A
option_list none = []
option_list (some a) = a ∷ []

-- One round of the loop over the insecure endpoints.
unfoldable pub validate_endpoint : String → String × List EndpointError
unfolding option_list validate_registry_endpoint trim_text
validate_endpoint endpoint =
    let normalized = trim_text endpoint in
    (
      normalized,
      if is_blank normalized
          then empty_value ∷ []
          else option_list (validate_registry_endpoint (codes normalized)),
    )

-- A loop that writes each entry back, with the errors of the entries.
unfoldable pub each_set : {A E : Type 0} → (A → A × List E) → List A → List A × List E
each_set f [] = ([], [])
each_set f (x ∷ xs) =
    let (y, errors) = f x in let (ys, more) = each_set f xs in (y ∷ ys, errors ++ more)

unfoldable pub validate_registry :
    Option RegistryConfig → Option RegistryConfig × List EndpointError × List (ℕ × FieldError)
unfolding each_set
validate_registry none = (none, [], [])
validate_registry (some r) =
    let (endpoints, errors) = each_set validate_endpoint r.insecure_endpoints in
    (
      some (record r { insecure_endpoints = endpoints }),
      errors,
      each check_container 0 r.containers,
    )

-- The errors of each section. An entry's index is left out where the loop writes its entries.
pub record Report : Type 0 where
  pub networks : List NetworkError
  pub vms : List (ℕ × FieldError)
  pub bare_metal : List NodeError
  pub operating_system : List FieldError
  pub ssh : List PathError
  pub kind : List (ℕ × FieldError)
  pub clusters : List FieldError
  pub endpoints : List EndpointError
  pub containers : List (ℕ × FieldError)
  pub build_only : List FieldError
  pub hosts : List (ℕ × FieldError) × List (ℕ × FieldError)

unfoldable pub is_clean : Report → Bool
is_clean r =
    is_empty r.networks
    && is_empty r.vms
    && is_empty r.bare_metal
    && is_empty r.operating_system
    && is_empty r.ssh
    && is_empty r.kind
    && is_empty r.clusters
    && is_empty r.endpoints
    && is_empty r.containers
    && is_empty r.build_only
    && is_empty r.hosts.0
    && is_empty r.hosts.1

unfoldable pub with_kubernetes_defaults : KubernetesConfig → List ClusterConfig → KubernetesConfig
with_kubernetes_defaults k clusters = record k {
  version = if is_blank k.version then "1.33" else k.version;
  kubeconfig_dir = if is_blank k.kubeconfig_dir then "kubeconfig" else k.kubeconfig_dir;
  clusters = clusters;
}

unfoldable pub validate_and_set_defaults : Home → Config → Config × Report
unfolding with_kubernetes_defaults
validate_and_set_defaults home c =
    let (networks, network_errors) = each_set (validate_network c) c.networks in
    let (bare_metal, node_errors) = each_set (validate_bare_metal home c.ssh.user) c.bare_metal in
    let (ssh, ssh_errors) = validate_ssh home c.ssh in
    let (clusters, cluster_errors) = each_set check_cluster c.kubernetes.clusters in
    let (registry, endpoint_errors, container_errors) = validate_registry c.registry in
    (
      record c {
        networks = networks;
        bare_metal = bare_metal;
        ssh = ssh;
        kubernetes = with_kubernetes_defaults c.kubernetes clusters;
        registry = registry;
      },
      record {
        networks = network_errors;
        vms = each check_vm 0 c.vms;
        bare_metal = node_errors;
        operating_system = check_os c;
        ssh = ssh_errors;
        kind = check_kind c;
        clusters = cluster_errors;
        endpoints = endpoint_errors;
        containers = container_errors;
        build_only = check_build_only c;
        hosts = check_hosts c;
      },
    )

-- LoadConfig, from the configuration that was read.
unfoldable pub load_config : Home → Config → Option Config
unfolding is_clean
load_config home c =
    let (checked, report) = validate_and_set_defaults home c in
    if is_clean report then some checked else none
