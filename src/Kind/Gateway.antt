-- ===== src/Kind/Gateway.antt =====
-- The gateway routing of pkg/kind/routing.go as a whole: how it is set up, and how it is taken down.
pub mod Effects
pub mod Setup
pub mod Cleanup
use Prim.Native.String.{◌++◌ as concat}
use dpu_simulator.Base.{
  ℕ, ◌+◌, Bool, true, false, not, ◌&&◌, List, [], ◌∷◌, Option, none, some, String, str_eq,
  if◌then◌else◌,
}
use dpu_simulator.Config.Cidr.{IpNet}
use dpu_simulator.Kind.Routing.{
  Rule, Chain, filter, raw_prerouting, subnet_string, forward_rules, raw_rules, NetworkInspect,
  NetworkInfo, PodmanInfo, network_info_from_inspect, podman_uses_rootless_pasta,
}
use dpu_simulator.Kind.Iptables.{ensure_rule, delete_rule, iptables_chain_exists, wait_until}
use dpu_simulator.Platform.Executor.{
  Executor, Action, done, fail, ◌>>=◌, ◌>>◌, must, ask, each, sh_quote,
}

abbrev pub dpu_kind_gateway_network_name : String
dpu_kind_gateway_network_name = "dpu-sim-gateway"

module _ {W : Type 0} (x : Executor W) where
  -- enableIPv4BridgeForwarding, with the wait for the file.
  unfoldable pub wait_for_ipv4_forwarding_sysctl : ℕ → String → Action W Unit
  unfolding wait_until
  wait_for_ipv4_forwarding_sysctl fuel bridge w =
      let path = concat "/proc/sys/net/ipv4/conf/" (concat bridge "/forwarding") in
      let (found, w') = wait_until x fuel (x.now w + 10_000_000_000) path w in
      elim found [ some true ↦ (some tt, w') | _ ↦ (none, w') ]

  unfoldable pub enable_ipv4_bridge_forwarding : ℕ → String → Action W Unit
  unfolding wait_for_ipv4_forwarding_sysctl
  enable_ipv4_bridge_forwarding fuel bridge = do
    wait_for_ipv4_forwarding_sysctl fuel bridge
    must (
        x.run_cmd
          ("sudo" ∷ "sysctl" ∷ "-w" ∷ concat "net.ipv4.conf." (concat bridge ".forwarding=1") ∷ []))

  unfoldable pub firewalld_is_running : Action W Bool
  firewalld_is_running = ask (x.run_cmd ("firewall-cmd" ∷ "--state" ∷ []))

  unfoldable pub allow_bridge_forwarding_with_firewalld : List String → Action W Unit
  unfolding firewalld_is_running each
  allow_bridge_forwarding_with_firewalld bridges = do
    running ← firewalld_is_running
    elim running [
      | false ↦ done tt
      | true ↦
          each
            (λ b. must (
              x.run_cmd
                ("sudo" ∷ "firewall-cmd" ∷ "--zone=trusted" ∷ "--change-interface" ∷ b ∷ [])))
            bridges
    ]

  unfoldable pub cleanup_firewalld_bridge_forwarding : List String → Action W Unit
  unfolding firewalld_is_running each
  cleanup_firewalld_bridge_forwarding bridges = do
    running ← firewalld_is_running
    elim running [
      | false ↦ done tt
      | true ↦
          each
            (λ b. do
              ask (
                  x.run_cmd
                    ("sudo" ∷ "firewall-cmd" ∷ "--zone=trusted" ∷ "--remove-interface" ∷ b ∷ []))
              done tt)
            bridges
    ]

  unfoldable pub forwarding_rule_chains : String → Action W (List String)
  unfolding iptables_chain_exists
  forwarding_rule_chains container_bin =
      if str_eq container_bin "docker"
      then (do
        exists ← iptables_chain_exists x "DOCKER-USER"
        done (if exists then "DOCKER-USER" ∷ "FORWARD" ∷ [] else "FORWARD" ∷ []))
      else done ("FORWARD" ∷ [])

  unfoldable pub setup_rules : String → NetworkInfo → String → IpNet → Action W Unit
  unfolding each ensure_rule raw_rules forward_rules forwarding_rule_chains
  setup_rules container_bin kind bridge subnet = do
    each (ensure_rule x raw_prerouting) (raw_rules kind bridge subnet)
    chains ← forwarding_rule_chains container_bin
    each (λ c. each (ensure_rule x (filter c)) (forward_rules kind bridge subnet)) chains

  unfoldable pub cleanup_forward_rules : ℕ → NetworkInfo → NetworkInfo → String → Action W Unit
  unfolding iptables_chain_exists each delete_rule forward_rules
  cleanup_forward_rules fuel kind gateway chain = do
    exists ← iptables_chain_exists x chain
    if exists
        then each (delete_rule x fuel (filter chain))
            (forward_rules kind gateway.bridge gateway.subnet)
        else done tt

  unfoldable pub cleanup_rules : ℕ → NetworkInfo → NetworkInfo → Action W Unit
  unfolding each cleanup_forward_rules delete_rule raw_rules
  cleanup_rules fuel kind gateway = do
    each (cleanup_forward_rules fuel kind gateway) ("DOCKER-USER" ∷ "FORWARD" ∷ [])
    each (delete_rule x fuel raw_prerouting) (raw_rules kind gateway.bridge gateway.subnet)

  -- What `json.Unmarshal` makes of the answers is not in this program.
  module _ (decode_networks : String → Option (List NetworkInspect))
      (decode_podman : String → Option PodmanInfo) where
    unfoldable pub inspect_container_network : String → String → Action W NetworkInfo
    unfolding sh_quote network_info_from_inspect
    inspect_container_network container_bin network_name = do
      stdout ←
          x.execute_with_timeout
            (concat (sh_quote container_bin) (concat " network inspect " (sh_quote network_name)))
            30_000_000_000
      elim (decode_networks stdout) [
        | none ↦ fail
        | some [] ↦ fail
        | some (network ∷ networks) ↦ elim (network_info_from_inspect network_name network) [
          | none ↦ fail
          | some info ↦ done info
        ]
      ]

    unfoldable pub inspect_podman_info : Action W PodmanInfo
    inspect_podman_info = do
      stdout ← x.execute_with_timeout "podman info --format json" 30_000_000_000
      elim (decode_podman stdout) [ none ↦ fail | some info ↦ done info ]

    unfoldable pub ensure_gateway_routing_supported : String → Action W Unit
    unfolding inspect_podman_info podman_uses_rootless_pasta
    ensure_gateway_routing_supported container_bin =
        if not (str_eq container_bin "podman") then done tt else (do
          info ← inspect_podman_info
          elim (podman_uses_rootless_pasta (some info)) [ true ↦ fail | false ↦ done tt ])

    unfoldable pub setup_dpu_gateway_routing : ℕ → String → IpNet → Action W Unit
    unfolding inspect_container_network subnet_string enable_ipv4_bridge_forwarding
        allow_bridge_forwarding_with_firewalld setup_rules
    setup_dpu_gateway_routing fuel container_bin gateway_subnet = do
      kind ← inspect_container_network container_bin "kind"
      gateway ← inspect_container_network container_bin dpu_kind_gateway_network_name
      elim (str_eq (subnet_string gateway.subnet) (subnet_string gateway_subnet)) [
        | false ↦ fail
        | true ↦ do
          enable_ipv4_bridge_forwarding fuel kind.bridge
          enable_ipv4_bridge_forwarding fuel gateway.bridge
          allow_bridge_forwarding_with_firewalld (kind.bridge ∷ gateway.bridge ∷ [])
          setup_rules container_bin kind gateway.bridge gateway_subnet
      ]

    -- A network that cannot be inspected ends it without an error.
    unfoldable pub cleanup_dpu_gateway_routing : ℕ → String → Action W Unit
    unfolding inspect_container_network cleanup_rules cleanup_firewalld_bridge_forwarding
    cleanup_dpu_gateway_routing fuel container_bin w =
        let (kind, w1) = inspect_container_network container_bin "kind" w in
        let (gateway, w2) =
          inspect_container_network container_bin dpu_kind_gateway_network_name w1 in
        elim kind [
          | none ↦ (some tt, w2)
          | some k ↦ elim gateway [
            | none ↦ (some tt, w2)
            | some g ↦
                (cleanup_rules fuel k g
                    >> cleanup_firewalld_bridge_forwarding (k.bridge ∷ g.bridge ∷ []))
                  w2
          ]
        ]
