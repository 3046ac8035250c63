-- ===== src/Kind/Topology/Fresh.antt =====
-- The addresses that CreateVethTopology gives to the hosts.
use mathlib.Core.List.{append-nil, append_assoc}
use dpu_simulator.Base.{
  String, ℕ, suc, ◌≡◌, ◌≤◌, ◌∙◌, ap, sym, refl, true, List, [], ◌∷◌, ◌++◌, Option, none, some,
  length,
}
use dpu_simulator.Base.Int.{ℤ}
use dpu_simulator.Config.Types.{Config}
use dpu_simulator.Config.Mode.{is_offload_dpu}
use dpu_simulator.Config.Nodes.{HostDpuPair}
use dpu_simulator.Config.Cidr.{IpNet, get_free_ipv4_address}
use dpu_simulator.Config.Cidr.Addresses.{
  last_usable, IsSubnet, HighestFree, get_free_ipv4_address-some,
}
use dpu_simulator.Kind.Topology.{Steps, Gateway, or_fail, give_address, create_pairs}
use dpu_simulator.Platform.Executor.{behind}

-- Each address is the highest usable one that neither was in use before nor was given to a host before.
unfoldable pub Given : IpNet → List (Option ℕ) → List ℕ → Type 0
Given subnet used [] = Unit
Given subnet used (a ∷ given) =
    HighestFree used subnet.address (last_usable subnet) a
    × Given subnet (used ++ some a ∷ []) given

some_inj : {A : Type 0} {a b : A} → some a ≡ some b → a ≡ b
some_inj e = cc

or_fail-some : {W A : Type 0} (o : Option A) (w : W) {a : A} → (or_fail o w).0 ≡ some a → o ≡ some a
or_fail-some none w e = e
or_fail-some (some a) w e = e

-- The hosts of the pairs, each with an address.
unfoldable pub hosts_with : List HostDpuPair → List ℕ → List (String × ℕ)
hosts_with (pair ∷ pairs) (a ∷ given) = (pair.host_node, a) ∷ hosts_with pairs given
hosts_with pairs given = []

-- The addresses that hosts have got, in the order in which they got them: the assignment of an address that
-- succeeds adds one, and the other steps of the loop none.
pub record Assigns {W : Type 0} (s : Steps W) (assigned : W → List (String × ℕ)) : Type 0 where
  pub pid_keeps : (node : String) (w : W) → assigned (s.container_pid node w).1 ≡ assigned w
  pub veths_keep :
      (pair : HostDpuPair) (i : ℕ) (host_pid dpu_pid : String) (num_pairs : ℤ) (w : W)
      → assigned (s.data_veths pair i host_pid dpu_pid num_pairs w).1 ≡ assigned w
  pub assign_adds :
      (node : String) (ip : ℕ) (subnet : IpNet) (w : W)
      → (s.assign_gateway_ip node ip subnet w).0 ≡ some tt
      → assigned (s.assign_gateway_ip node ip subnet w).1 ≡ assigned w ++ (node, ip) ∷ []

-- Each host of the pairs has got a free address, in order, and no other address was given.
abbrev pub AllGiven :
    IpNet → List (Option ℕ) → List HostDpuPair → List (String × ℕ) → List (String × ℕ) → Type 0
AllGiven subnet used pairs before behind =
    (given : List ℕ) × Given subnet used given
    × (length given ≡ length pairs)
    × (behind ≡ before ++ hosts_with pairs given)

AllGiven-suc :
    (subnet : IpNet) (used : List (Option ℕ)) (pair : HostDpuPair) (pairs : List HostDpuPair)
    (a : ℕ) (before then behind : List (String × ℕ))
    → HighestFree used subnet.address (last_usable subnet) a
    → then ≡ before ++ (pair.host_node, a) ∷ []
    → AllGiven subnet (used ++ some a ∷ []) pairs then behind
    → AllGiven subnet used (pair ∷ pairs) before behind
unfolding Given hosts_with
AllGiven-suc subnet used pair pairs a before then behind free e (given, rest, many, final) = (
  a ∷ given,
  (free, rest),
  ap suc many,
  final
      ∙ ap (λ xs. xs ++ hosts_with pairs given) e
      ∙ append_assoc before ((pair.host_node, a) ∷ []) (hosts_with pairs given),
)

or_fail-keeps : {W A : Type 0} (o : Option A) (w : W) → (or_fail o w).1 ≡ w
or_fail-keeps none w = refl
or_fail-keeps (some a) w = refl

module _ {W : Type 0} (s : Steps W) (assigned : W → List (String × ℕ)) (laws : Assigns s assigned)
    (c : Config) (offload : is_offload_dpu c ≡ true) where
  -- What one host has got.
  GivenOne : HostDpuPair → IpNet → List (Option ℕ) → List (String × ℕ) → Gateway → W → Type 0
  GivenOne pair subnet used before g w =
      (a : ℕ) × (get_free_ipv4_address subnet used ≡ some a)
      × (g ≡ some (subnet, used ++ some a ∷ []))
      × (assigned w ≡ before ++ (pair.host_node, a) ∷ [])

  give_address-known :
      (pair : HostDpuPair) (subnet : IpNet) (used : List (Option ℕ)) (g : Gateway) (w : W)
      → (give_address s c pair (some (subnet, used)) w).0 ≡ some g
      → GivenOne pair subnet used (assigned w) g (give_address s c pair (some (subnet, used)) w).1
  unfolding give_address GivenOne
  give_address-known pair subnet used g w ok =
      let R = λ (w' : W). GivenOne pair subnet used (assigned w) g w' in
      let found = or_fail (get_free_ipv4_address subnet used) in
      rw offload (
        behind R found _ w (rw offload at ok) (λ a e ok1.
          let w1 = (found w).1 in
          behind R (s.assign_gateway_ip pair.host_node a subnet) _ w1 ok1 (λ u assigns last. (
            a,
            or_fail-some (get_free_ipv4_address subnet used) w e,
            sym (some_inj last),
            laws.assign_adds pair.host_node a subnet w1 assigns
                ∙ ap (λ w'. assigned w' ++ (pair.host_node, a) ∷ [])
                    (or_fail-keeps (get_free_ipv4_address subnet used) w),
          ))))

  give_address-GivenOne :
      (pair : HostDpuPair) (subnet : IpNet) (used : List (Option ℕ)) (g g' : Gateway) (w : W)
      → g ≡ some (subnet, used)
      → (give_address s c pair g w).0 ≡ some g'
      → GivenOne pair subnet used (assigned w) g' (give_address s c pair g w).1
  give_address-GivenOne pair subnet used g g' w start ok =
      rw start (give_address-known pair subnet used g' w (rw start at ok))

  -- Under offload, and with an assignment that gives a host the address that it is asked for, where the loop
  -- over the pairs of CreateVethTopology succeeds with an IPv4 gateway subnet of at most 31 prefix bits, each
  -- host has been assigned, in the order of the pairs, the highest usable address that neither was in use nor
  -- was given to a host before it, and nothing else has been assigned.
  pub create_pairs-Given :
      (num_pairs : ℤ) (i : ℕ) (pairs : List HostDpuPair) (subnet : IpNet) (used : List (Option ℕ))
      (g : Gateway) (w : W)
      → IsSubnet subnet
      → subnet.ones ≤ 31
      → g ≡ some (subnet, used)
      → (create_pairs s c num_pairs i pairs g w).0 ≡ some tt
      → AllGiven subnet used pairs
          (assigned w)
          (assigned (create_pairs s c num_pairs i pairs g w).1)
  unfolding create_pairs Given hosts_with GivenOne
  create_pairs-Given num_pairs i [] subnet used g w is_subnet h start ok =
      ([], tt, refl, sym (append-nil (assigned w)))
  create_pairs-Given num_pairs i (pair ∷ pairs) subnet used g w is_subnet h start ok =
      let R = λ (w' : W). AllGiven subnet used (pair ∷ pairs) (assigned w) (assigned w') in
      behind R (s.container_pid pair.host_node) _ w ok (λ host_pid e1 ok1.
        let w1 = (s.container_pid pair.host_node w).1 in
        behind R (s.container_pid pair.dpu_node) _ w1 ok1 (λ dpu_pid e2 ok2.
          let w2 = (s.container_pid pair.dpu_node w1).1 in
          behind R (s.data_veths pair i host_pid dpu_pid num_pairs) _ w2 ok2 (λ u e3 ok3.
            let w3 = (s.data_veths pair i host_pid dpu_pid num_pairs w2).1 in
            behind R (give_address s c pair g) _ w3 ok3 (λ g' e4 ok4.
              let w4 = (give_address s c pair g w3).1 in
              let (a, free, next, added) =
                give_address-GivenOne pair subnet used g g' w3 start e4 in
              let kept =
                laws.veths_keep pair i host_pid dpu_pid num_pairs w2
                ∙ laws.pid_keeps pair.dpu_node w1
                ∙ laws.pid_keeps pair.host_node w in
              AllGiven-suc subnet used pair pairs a (assigned w) (assigned w4) _
                (get_free_ipv4_address-some subnet used a is_subnet h free)
                (added ∙ ap (λ xs. xs ++ (pair.host_node, a) ∷ []) kept)
                (create_pairs-Given num_pairs (suc i) pairs subnet (used ++ some a ∷ []) g' w4
                  is_subnet h next ok4)))))
