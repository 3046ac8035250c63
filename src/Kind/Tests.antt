-- ===== src/Kind/Tests.antt =====
-- A host with iptables and a clock, and runs of pkg/kind/routing.go on it.
use Prim.Native.String.{◌++◌ as concat}
use dpu_simulator.Base.Text.{itoa}
use dpu_simulator.Base.{
  zero, suc, ℕ, ◌+◌, ◌≡◌, ◌≢◌, ◌⊎◌, ◌<◌, ap, refl, Bool, true, false, List, [], ◌∷◌, none, some,
  String, str_eq, str_eq_ne, arith, length, if◌then◌else◌, Bool-cases, inl, inr,
}
use dpu_simulator.Config.Nodes.{get_kind_node_container_name, get_kind_nodes_for_cluster}
use dpu_simulator.Config.Tests.{two_clusters, node}
use dpu_simulator.Kind.Clusters.{KindNode, build_node, build_nodes}
use dpu_simulator.Kind.Clusters.Named.{
  KindNames, count_role, get_kind_node_container_name-KindNames,
}
use dpu_simulator.Kind.Routing.{
  Rule, Chain, filter, raw_prerouting, NetworkInfo, check_args, insert_args, delete_args, raw_rules,
  forward_rules,
}
use dpu_simulator.Kind.Iptables.Table.{Table, Iptables, has, remove_first, at, place}
use dpu_simulator.Kind.Gateway.Setup.{Chains}
use dpu_simulator.Kind.Gateway.Cleanup.{unrouted, cleanup_rules-setup_rules}
use dpu_simulator.Kind.Gateway.{setup_rules, cleanup_rules, forwarding_rule_chains}
use dpu_simulator.Kind.Iptables.{ensure_rule, wait_until}
use dpu_simulator.Kind.Iptables.Wait.{Clock, wait_until_ends}
use dpu_simulator.Platform.Executor.{Executor, each}

-- `before` is what the chains hold, `time` the clock; a file is there from the seventh second on.
record Host : Type 0 where
  table : Table
  time : ℕ

data Command : Type 0 where
  check insert delete : Chain → Rule → Command
  listing : String → Command
  other : Command

abbrev of_option : String → Chain → Rule → Command
of_option op c r =
    if str_eq op "-C"
    then check c r
    else if str_eq op "-D"
    then delete c r
    else if str_eq op "-I"
    then (elim r [ [] ↦ other | one ∷ rule ↦ insert c rule ])
    else if str_eq op "-nL"
    then (elim c [ filter name ↦ listing name | raw_prerouting ↦ other ])
    else other

abbrev command : List String → Command
command (sudo ∷ iptables ∷ op ∷ rest) =
    if str_eq op "-t"
    then (elim rest [
      | raw ∷ op2 ∷ prerouting ∷ rule ↦ of_option op2 raw_prerouting rule
      | _ ↦ other
    ])
    else (elim rest [ chain ∷ rule ↦ of_option op (filter chain) rule | _ ↦ other ])
command args = other

abbrev run : Command → Host → Bool × Host
run (check c r) w = (has r (w.table c), w)
run (insert c r) w = (true, record w { table = at c (◌∷◌ r) w.table })
run (delete c r) w =
    if has r (w.table c)
    then (true, record w { table = at c (remove_first r) w.table })
    else (false, w)
run (listing c) w = (str_eq c "FORWARD", w)
run other w = (true, w)

abbrev host : Executor Host
host = record {
  run_cmd = λ args. run (command args);
  execute = λ cmd w. (none, w);
  execute_with_timeout = λ cmd d w. (none, w);
  file_exists = λ path w. (some (str_eq path "/proc/sys/net/ipv4/conf/br0/forwarding"), w);
  now = λ w. w.time;
  sleep = λ d w. record w { time = w.time + d };
}

command-check : (c : Chain) (r : Rule) → command (check_args c r) ≡ check c r
unfolding str_eq
command-check (filter c) r = refl
command-check raw_prerouting r = refl

command-insert : (c : Chain) (r : Rule) → command (insert_args c r) ≡ insert c r
unfolding str_eq
command-insert (filter c) r = refl
command-insert raw_prerouting r = refl

command-delete : (c : Chain) (r : Rule) → command (delete_args c r) ≡ delete c r
unfolding str_eq
command-delete (filter c) r = refl
command-delete raw_prerouting r = refl

delete_runs :
    (c : Chain) (r : Rule) (w : Host)
    → (run (delete c r) w).1.table
      ≡ (if (run (delete c r) w).0 then at c (remove_first r) w.table else w.table)
delete_runs c r w = elim (Bool-cases (has r (w.table c))) [ inl e ↦ rw e refl | inr e ↦ rw e refl ]

host-Iptables : Iptables host (λ w. w.table)
host-Iptables = record {
  check_answer = λ c r w. ap (λ k. (run k w).0) (command-check c r);
  check_keeps = λ c r w. ap (λ k. (run k w).1.table) (command-check c r);
  insert_puts = λ c r w. rw (command-insert c r) refl;
  delete_removes = λ c r w. rw (command-delete c r) (delete_runs c r w);
}

host-Chains : Chains host (λ w. w.table) (λ c. str_eq c "FORWARD")
unfolding str_eq
host-Chains = record { list_answer = λ c w. refl; list_keeps = λ c w. refl }

host-works :
    (c : Chain) (r : Rule) (w : Host)
    → has r (w.table c) ≡ true
    → (host.run_cmd (delete_args c r) w).0 ≡ true
host-works c r w e = rw (command-delete c r, e) refl

host-Clock : Clock host
host-Clock = record { slept = λ d w. omega arith; looked = λ path w. omega arith }

abbrev kind_network : NetworkInfo
kind_network = record {
  name = "kind";
  bridge = "br0";
  subnet = record { address = 2886860800; ones = 16; bits = 32 };
}

abbrev gateway_network : NetworkInfo
gateway_network = record {
  name = "dpu-sim-gateway";
  bridge = "br1";
  subnet = record { address = 3232235520; ones = 24; bits = 32 };
}

-- FORWARD holds a rule of someone else.
abbrev busy : Host
busy = record {
  table = λ c. elim c [ filter name ↦ (("-j" ∷ "DROP" ∷ []) ∷ []) | raw_prerouting ↦ [] ];
  time = 7;
}

wait_until_ends_example :
    let (r, w') = wait_until host 21 10_000_000_007 "/proc/sys/net/ipv4/conf/br1/forwarding" busy in
    (r ≡ some true) ⊎ ((r ≡ some false) × (10_000_000_007 < w'.time + 500_000_000))
wait_until_ends_example =
    wait_until_ends host host-Clock 21 10_000_000_007 "/proc/sys/net/ipv4/conf/br1/forwarding" busy
      (omega arith) (omega arith)

abbrev after_setup : Host
after_setup =
    (setup_rules host "podman" kind_network gateway_network.bridge gateway_network.subnet busy).1

after_setup-Fits : (c : Chain) → length (after_setup.table c) < 9
unfolding setup_rules each ensure_rule raw_rules forward_rules forwarding_rule_chains has str_eq at
after_setup-Fits (filter name) = elim (Bool-cases (str_eq "FORWARD" name)) [
  | inl e ↦ rw e (omega arith)
  | inr e ↦ rw e (omega arith)
]
after_setup-Fits raw_prerouting = omega arith

cleanup_rules-setup_rules_example :
    (cleanup_rules host 9 kind_network gateway_network after_setup).1.table (filter "FORWARD")
    ≡ unrouted
        (λ c. str_eq c "FORWARD")
        kind_network
        "br1"
        gateway_network.subnet
        busy.table
        (filter "FORWARD")
unfolding setup_rules each ensure_rule raw_rules forward_rules forwarding_rule_chains has str_eq at
    place
cleanup_rules-setup_rules_example =
    cleanup_rules-setup_rules host (λ w. w.table) (λ c. str_eq c "FORWARD") host-Iptables
      host-Chains host-works 9 "podman" kind_network gateway_network busy refl refl after_setup-Fits
      (filter "FORWARD")

different_names : ◌≢◌ {A = String} "h0" "h1"
unfolding str_eq
different_names = str_eq_ne {s = "h0"} {t = "h1"} refl

abbrev numbered_role : String → String → ℕ → String
numbered_role cluster role zero = concat cluster (concat "-" role)
numbered_role cluster role (suc k) = concat (concat cluster (concat "-" role)) (itoa (suc (suc k)))

abbrev kind_names : String → List KindNode → KindNode → String
kind_names cluster before node = numbered_role cluster node.role (count_role node.role before)

kind_names-KindNames : KindNames kind_names
kind_names-KindNames = record {
  first_of_role = λ cluster before node e. ap (numbered_role cluster node.role) e;
  later_of_role = λ cluster before node k e. ap (numbered_role cluster node.role) e;
}

get_kind_node_container_name-KindNames_example :
    get_kind_node_container_name two_clusters "h" "h1"
    ≡ kind_names "h"
        (build_nodes true (node "h0" "" "h" "control-plane" "" ∷ []))
        (build_node false (node "h1" "host" "h" "worker" ""))
unfolding get_kind_nodes_for_cluster str_eq
get_kind_node_container_name-KindNames_example =
    get_kind_node_container_name-KindNames kind_names kind_names-KindNames two_clusters "h"
      (node "h0" "" "h" "control-plane" "" ∷ []) [] (node "h1" "host" "h" "worker" "") refl
      ((different_names, inl refl), tt) (inr refl) false
