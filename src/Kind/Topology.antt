-- ===== src/Kind/Topology.antt =====
-- SetupHostToDpuNetwork, CreateVethTopology, prepareDPUGatewayNetwork and CleanupVethTopology of
-- pkg/kind/veth.go, over the steps that they take.
pub mod Fresh
pub mod Tests
use dpu_simulator.Base.{
  ℕ, zero, suc, Bool, not, List, [], ◌∷◌, ◌++◌, Option, none, some, String, if◌then◌else◌,
}
use dpu_simulator.Base.Int.{ℤ, pos, pos_part}
use dpu_simulator.Config.Types.{Config, NetworkConfig}
use dpu_simulator.Config.Mode.{is_offload_dpu}
use dpu_simulator.Config.Nodes.{HostDpuPair, get_host_dpu_pairs}
use dpu_simulator.Config.Topology.{
  dpu_host_gateway_subnet, get_host_to_dpu_network, get_host_to_dpu_num_pairs,
}
use dpu_simulator.Config.Cidr.{IpNet, get_first_usable, get_free_ipv4_address}
use dpu_simulator.Kind.Routing.{parse_ipv4_cidr}
use dpu_simulator.Kind.Veth.{veth_host_end}
use dpu_simulator.Platform.Executor.{Action, done, fail, ◌>>=◌, ◌>>◌, ask}

-- The functions that these call, with the addresses that the container runtime answers.
pub record Steps (W : Type 0) : Type 0 where
  pub routing_supported : Action W Unit
  pub gateway_network : IpNet → Action W Unit
  pub connect_dpu : String → Action W (Option ℕ)
  pub gateway_routing : IpNet → Action W Unit
  pub container_pid : String → Action W String
  pub data_veths : HostDpuPair → ℕ → String → String → ℤ → Action W Unit
  pub assign_gateway_ip : String → ℕ → IpNet → Action W Unit
  pub delete_link : String → W → Bool × W

-- The gateway subnet and the addresses in use in it, where there is one.
abbrev pub Gateway : Type 0
Gateway = Option (IpNet × List (Option ℕ))

-- The error of a result that is none.
abbrev or_fail : {W A : Type 0} → Option A → Action W A
or_fail none = fail
or_fail (some a) = done a

module _ {W : Type 0} (s : Steps W) (c : Config) where
  -- The addresses of the DPUs, behind those in use.
  unfoldable pub connect_dpus : List HostDpuPair → List (Option ℕ) → Action W (List (Option ℕ))
  connect_dpus [] used = done used
  connect_dpus (pair ∷ pairs) used =
      s.connect_dpu pair.dpu_node >>= λ ip. connect_dpus pairs (used ++ ip ∷ [])

  unfoldable pub prepare_gateway : IpNet → List HostDpuPair → Action W Gateway
  prepare_gateway subnet pairs = do
    s.routing_supported
    s.gateway_network subnet
    first ← or_fail (get_first_usable subnet)
    used ← connect_dpus pairs (some first ∷ [])
    s.gateway_routing subnet
    done (some (subnet, used))

  unfoldable pub prepare_dpu_gateway_network : List HostDpuPair → Action W Gateway
  prepare_dpu_gateway_network pairs =
      if not (is_offload_dpu c)
      then done none
      else (or_fail (parse_ipv4_cidr (dpu_host_gateway_subnet c)) >>= λ subnet.
          prepare_gateway subnet pairs)

  -- The host of a pair gets a free address of the gateway subnet.
  unfoldable pub give_address : HostDpuPair → Gateway → Action W Gateway
  give_address pair none = done none
  give_address pair (some (subnet, used)) =
      if is_offload_dpu c
      then (or_fail (get_free_ipv4_address subnet used) >>= λ ip.
          s.assign_gateway_ip pair.host_node ip subnet
          >> done (some (subnet, used ++ some ip ∷ [])))
      else done (some (subnet, used))

  -- The loop over the pairs, from an index on.
  unfoldable pub create_pairs : ℤ → ℕ → List HostDpuPair → Gateway → Action W Unit
  create_pairs num_pairs i [] gateway = done tt
  create_pairs num_pairs i (pair ∷ pairs) gateway = do
    host_pid ← s.container_pid pair.host_node
    dpu_pid ← s.container_pid pair.dpu_node
    s.data_veths pair i host_pid dpu_pid num_pairs
    gateway' ← give_address pair gateway
    create_pairs num_pairs (suc i) pairs gateway'

  unfoldable pub create_veth_topology : List HostDpuPair → ℤ → Action W Unit
  create_veth_topology pairs num_pairs =
      prepare_dpu_gateway_network pairs >>= create_pairs num_pairs 0 pairs

  -- The errors of the deletions are not looked at.
  unfoldable pub cleanup_pair : ℕ → ℕ → ℕ → W → W
  cleanup_pair pair i zero w = w
  cleanup_pair pair i (suc rounds) w =
      cleanup_pair pair (suc i) rounds (s.delete_link (veth_host_end pair i) w).1

  unfoldable pub cleanup_veth_topology : ℕ → List HostDpuPair → ℤ → W → W
  cleanup_veth_topology i [] num_pairs w = w
  cleanup_veth_topology i (pair ∷ pairs) num_pairs w =
      cleanup_veth_topology (suc i) pairs num_pairs (cleanup_pair i 0 (pos_part num_pairs) w)

  unfoldable pub set_up_pairs : List HostDpuPair → Action W Unit
  set_up_pairs [] w = done tt w
  set_up_pairs (pair ∷ pairs) w =
      create_veth_topology (pair ∷ pairs) (get_host_to_dpu_num_pairs c)
        (cleanup_veth_topology 0 (pair ∷ pairs) (get_host_to_dpu_num_pairs c) w)

  unfoldable pub setup_host_to_dpu_network : Action W Unit
  setup_host_to_dpu_network w = elim (get_host_to_dpu_network c) [
    | none ↦ done tt w
    | some network ↦ set_up_pairs (get_host_dpu_pairs c "") w
  ]
