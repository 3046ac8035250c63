-- ===== src/Kind/Topology/Tests.antt =====
-- A topology of two pairs.
use dpu_simulator.Base.{
  ap, String, ℕ, ◌++◌, ◌≡◌, refl, true, List, [], ◌∷◌, Option, none, some, arith,
}
use dpu_simulator.Base.Int.{pos}
use dpu_simulator.Config.Tests.{two_clusters}
use dpu_simulator.Config.Nodes.{HostDpuPair}
use dpu_simulator.Config.Cidr.{IpNet, get_free_ipv4_address}
use dpu_simulator.Config.Cidr.Addresses.{IsSubnet}
use dpu_simulator.Kind.Topology.{Steps, give_address, create_pairs}
use dpu_simulator.Kind.Topology.Fresh.{Assigns, AllGiven, create_pairs-Given}
use dpu_simulator.Platform.Executor.{done}

-- The world is the addresses that were assigned.
abbrev quiet : Steps (List (String × ℕ))
quiet = record {
  routing_supported = done tt;
  gateway_network = λ subnet. done tt;
  connect_dpu = λ node. done none;
  gateway_routing = λ subnet. done tt;
  container_pid = λ node. done "100";
  data_veths = λ pair i host_pid dpu_pid num_pairs. done tt;
  assign_gateway_ip = λ node ip subnet w. (some tt, w ++ (node, ip) ∷ []);
  delete_link = λ name w. (true, w);
}

abbrev subnet : IpNet
subnet = record { address = 3232235776; ones = 29; bits = 32 }

subnet-IsSubnet : IsSubnet subnet
subnet-IsSubnet = record { is_ipv4 = refl; prefix = omega arith; fits = omega arith; masked = refl }

abbrev pairs : List HostDpuPair
pairs =
    record { host_node = "h1"; dpu_node = "d1" } ∷ record { host_node = "h2"; dpu_node = "d2" } ∷ []

abbrev bridge : List (Option ℕ)
bridge = some 3232235777 ∷ some 3232235782 ∷ []

quiet-Assigns : Assigns quiet (λ w. w)
quiet-Assigns = record {
  pid_keeps = λ node w. refl;
  veths_keep = λ pair i host_pid dpu_pid num_pairs w. refl;
  assign_adds = λ node ip subnet w ok. refl;
}

-- The first host gets 192.168.0.5, and the second 192.168.0.4.
two_hosts :
    create_pairs quiet two_clusters (pos 2) 0 pairs (some (subnet, bridge)) []
    ≡ (some tt, ("h1", 3232235781) ∷ ("h2", 3232235780) ∷ [])
unfolding create_pairs give_address get_free_ipv4_address
two_hosts = refl

create_pairs-Given_example :
    AllGiven subnet bridge pairs []
      (create_pairs quiet two_clusters (pos 2) 0 pairs (some (subnet, bridge)) []).1
create_pairs-Given_example =
    create_pairs-Given quiet (λ w. w) quiet-Assigns two_clusters refl (pos 2) 0 pairs subnet bridge
      (some (subnet, bridge)) [] subnet-IsSubnet (omega arith) refl (ap (λ r. r.0) two_hosts)
