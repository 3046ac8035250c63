-- ===== src/Config/Defaults/Accepted.antt =====
-- LoadConfig: what is accepted, with its defaults, is a configuration that is accepted as it stands.
use mathlib.Core.Path.{fun_ext}
use dpu_simulator.Base.{
  ℕ, suc, ◌≡◌, ◌∙◌, ap, sym, refl, Bool, true, not, ◌&&◌, ◌||◌, List, [], ◌∷◌, ◌++◌, Option, none,
  some, String, str_eq, if◌then◌else◌, when, any, arith, Bool-cases, inl, inr, Option-cases,
}
use dpu_simulator.Config.Types.{
  Config, NetworkConfig, VmConfig, BareMetalConfig, KindNodeConfig, ClusterConfig, RegistryConfig,
  KubernetesConfig, host_type, dpu_type,
}
use dpu_simulator.Config.Mode.{is_empty, is_offload_dpu, kind_nodes}
use dpu_simulator.Config.Nodes.Same.{same_kind_mode, same_pairs}
use dpu_simulator.Config.Topology.{kind_dpu_gateway_subnet_required_ips}
use dpu_simulator.Config.Network.{with_nic_model, validate_network, check_host_to_dpu}
use dpu_simulator.Config.Validate.{
  FieldError, is_blank, not_found, is_kind_node_name, each, is_cluster_name, check_kind,
  check_kind_node, check_kind_references, check_build_only, is_host_name, check_host_of,
  check_hosts, check_cluster, with_type, check_vm, check_os,
}
use dpu_simulator.Config.Defaults.{
  Home, each_set, validate_bare_metal, validate_endpoint, validate_registry, Report, is_clean,
  validate_and_set_defaults, load_config, with_kubernetes_defaults,
}
use dpu_simulator.Config.Defaults.Settled.Entries.{
  IsPlain, each_set-Settles, validate_bare_metal-Settles, validate_ssh-Settles,
  check_cluster-Settles, validate_endpoint-Settles, defaulted_idem,
}
use dpu_simulator.Config.Defaults.Settled.Counts.{validate_network-Settles}

each_set-is_empty :
    {A E : Type 0} (f : A → A × List E) (xs : List A) → is_empty (each_set f xs).0 ≡ is_empty xs
unfolding each_set
each_set-is_empty f [] = refl
each_set-is_empty f (x ∷ xs) = refl

-- A test that the written entries pass as the read ones did.
any-each_set :
    {A E : Type 0} (f : A → A × List E) (p : A → Bool) (xs : List A)
    → ((x : A) → p (f x).0 ≡ p x)
    → any p (each_set f xs).0 ≡ any p xs
unfolding each_set
any-each_set f p [] h = refl
any-each_set f p (x ∷ xs) h = rw (h x, any-each_set f p xs h) refl

each_congr :
    {A : Type 0} (f g : A → List FieldError) (i : ℕ) (xs : List A)
    → ((x : A) → f x ≡ g x)
    → each f i xs ≡ each g i xs
each_congr f g i xs h = ap (λ k. each k i xs) (fun_ext h)

-- The checks of the written entries, where they are those of the read ones.
each-each_set :
    {A E : Type 0} (f : A → A × List E) (check : A → List FieldError) (i : ℕ) (xs : List A)
    → ((x : A) → check (f x).0 ≡ check x)
    → each check i (each_set f xs).0 ≡ each check i xs
unfolding each each_set
each-each_set f check i [] h = refl
each-each_set f check i (x ∷ xs) h = rw (h x, each-each_set f check (suc i) xs h) refl

empty-eq-nil : {A : Type 0} (xs : List A) → is_empty xs ≡ true → xs ≡ []
empty-eq-nil [] h = refl
empty-eq-nil (x ∷ xs) h = cc

-- What the checks of a network read of the configuration.
check_host_to_dpu_reads :
    (c d : Config) (n : NetworkConfig)
    → kind_dpu_gateway_subnet_required_ips d ≡ kind_dpu_gateway_subnet_required_ips c
    → is_offload_dpu d ≡ is_offload_dpu c
    → check_host_to_dpu d n ≡ check_host_to_dpu c n
unfolding check_host_to_dpu
check_host_to_dpu_reads c d n required offload = rw (required, offload) refl

validate_network_reads :
    (c d : Config) (n : NetworkConfig)
    → kind_dpu_gateway_subnet_required_ips d ≡ kind_dpu_gateway_subnet_required_ips c
    → is_offload_dpu d ≡ is_offload_dpu c
    → validate_network d n ≡ validate_network c n
unfolding validate_network
validate_network_reads c d n required offload =
    rw (check_host_to_dpu_reads c d (with_nic_model n) required offload) refl

-- A node that is written is as much of a host as the one that was read.
written_node :
    (home : Home) (user name : String) (node : BareMetalConfig)
    → (str_eq (with_type (validate_bare_metal home user node).0).node_type host_type
        && str_eq (validate_bare_metal home user node).0.name name)
      ≡ (str_eq (with_type node).node_type host_type && str_eq node.name name)
unfolding validate_bare_metal
written_node home user name node = rw (defaulted_idem node.node_type host_type) refl

written_host_of :
    (home : Home) (user : String) (d : Config) (node : BareMetalConfig)
    → let node' = (validate_bare_metal home user node).0 in
      check_host_of d (with_type node').node_type node'.host
      ≡ check_host_of d (with_type node).node_type node.host
unfolding validate_bare_metal
written_host_of home user d node =
    ap (λ t. check_host_of d t node.host) (defaulted_idem node.node_type host_type)

module _ (home : Home) (c : Config) where
  written : Config
  written = (validate_and_set_defaults home c).0

  same_required :
      kind_dpu_gateway_subnet_required_ips written ≡ kind_dpu_gateway_subnet_required_ips c
  unfolding written validate_and_set_defaults kind_dpu_gateway_subnet_required_ips
  same_required =
      let bare = each_set-is_empty (validate_bare_metal home c.ssh.user) c.bare_metal in
      rw (same_pairs c written refl refl bare "", same_kind_mode c written refl refl bare) refl

  same_offload : is_offload_dpu written ≡ is_offload_dpu c
  unfolding written validate_and_set_defaults
  same_offload = refl

  same_network : validate_network written ≡ validate_network c
  same_network = fun_ext (λ n. validate_network_reads c written n same_required same_offload)

  same_cluster_name : (name : String) → is_cluster_name written name ≡ is_cluster_name c name
  unfolding written validate_and_set_defaults check_cluster
  same_cluster_name name =
      any-each_set check_cluster (λ cl. str_eq cl.name name) c.kubernetes.clusters (λ cl. refl)

  same_references :
      (node : KindNodeConfig) → check_kind_references written node ≡ check_kind_references c node
  unfolding written validate_and_set_defaults check_kind_references
  same_references node =
      ap
        (λ b.
          when (not (is_blank node.k8s_cluster) && not b) (not_found "k8s_cluster" node.k8s_cluster)
          ++ when
              (str_eq node.node_type "dpu"
                && not (is_blank node.host)
                && not (is_kind_node_name c node.host))
              (not_found "host" node.host))
        (same_cluster_name node.k8s_cluster)

  same_kind : check_kind written ≡ check_kind c
  unfolding written validate_and_set_defaults check_kind
  same_kind =
      ap (λ f. each check_kind_node 0 (kind_nodes c) ++ each f 0 (kind_nodes c))
        (fun_ext same_references)

  same_build_only : check_build_only written ≡ check_build_only c
  unfolding written validate_and_set_defaults check_build_only validate_registry
  same_build_only =
      let bare = each_set-is_empty (validate_bare_metal home c.ssh.user) c.bare_metal in
      elim (Option-cases c.registry) [ inl e ↦ rw e refl | inr (r, e) ↦ rw (e, bare) refl ]

  same_host_name : (name : String) → is_host_name written name ≡ is_host_name c name
  unfolding written validate_and_set_defaults is_host_name
  same_host_name name =
      ap
        (λ b.
          any (λ (vm : VmConfig). str_eq vm.node_type host_type && str_eq vm.name name) c.vms || b)
        (any-each_set (validate_bare_metal home c.ssh.user)
          (λ node. str_eq (with_type node).node_type host_type && str_eq node.name name)
          c.bare_metal (λ node. written_node home c.ssh.user name node))

  same_host_of :
      (node_type host : String)
      → check_host_of written node_type host ≡ check_host_of c node_type host
  unfolding check_host_of
  same_host_of node_type host =
      ap
        (λ b.
          when (str_eq node_type dpu_type && not (is_blank host) && not b) (not_found "host" host))
        (same_host_name host)

  same_hosts : check_hosts written ≡ check_hosts c
  unfolding written validate_and_set_defaults check_hosts
  same_hosts = elim (Bool-cases (is_empty c.vms)) [
    | inl e ↦ rw e refl
    | inr e ↦
        let of_node : (d : Config) → BareMetalConfig → List FieldError =
          λ d node. check_host_of d (with_type node).node_type node.host in
        let vms =
          each_congr (λ (vm : VmConfig). check_host_of written vm.node_type vm.host)
            (λ vm. check_host_of c vm.node_type vm.host) 0 c.vms
            (λ vm. same_host_of vm.node_type vm.host) in
        let nodes =
          each-each_set (validate_bare_metal home c.ssh.user) (of_node written) 0 c.bare_metal
            (λ node. written_host_of home c.ssh.user written node)
          ∙ each_congr (of_node written) (of_node c) 0 c.bare_metal
              (λ node. same_host_of (with_type node).node_type node.host) in
        rw e (λ i. (vms i, nodes i))
  ]

clean_parts :
    (r : Report)
    → is_clean r ≡ true
    → (r.networks ≡ [])
      × (r.bare_metal ≡ [])
      × (r.ssh ≡ [])
      × (r.clusters ≡ [])
      × (r.endpoints ≡ [])
unfolding is_clean
clean_parts r clean = (
  empty-eq-nil r.networks (ground arith),
  empty-eq-nil r.bare_metal (ground arith),
  empty-eq-nil r.ssh (ground arith),
  empty-eq-nil r.clusters (ground arith),
  empty-eq-nil r.endpoints (ground arith),
)

back : {A E : Type 0} {p q : A × List E} → p ≡ (q.0, []) → q.1 ≡ [] → p ≡ q
back {q = q} same clean = same ∙ ap (λ e. (q.0, e)) (sym clean)

kubernetes_again :
    (k : KubernetesConfig) {clusters clusters' : List ClusterConfig}
    → clusters' ≡ clusters
    → with_kubernetes_defaults (with_kubernetes_defaults k clusters) clusters'
      ≡ with_kubernetes_defaults k clusters
unfolding with_kubernetes_defaults
kubernetes_again k same = λ i. record k {
  version = defaulted_idem k.version "1.33" i;
  kubeconfig_dir = defaulted_idem k.kubeconfig_dir "kubeconfig" i;
  clusters = same i;
}

registry-Settles :
    (r : Option RegistryConfig)
    → (validate_registry r).1 ≡ []
    → validate_registry (validate_registry r).0
      ≡ ((validate_registry r).0, [], (validate_registry r).2)
unfolding validate_registry
registry-Settles none h = refl
registry-Settles (some r) h =
    rw
      (each_set-Settles validate_endpoint validate_endpoint validate_endpoint-Settles
        r.insecure_endpoints h)
      refl

module _ (home : Home) (plain : IsPlain home) (c : Config) where
  -- A configuration without errors, with its defaults, is settled.
  settled :
      is_clean (validate_and_set_defaults home c).1 ≡ true
      → validate_and_set_defaults home (validate_and_set_defaults home c).0
        ≡ validate_and_set_defaults home c
  unfolding written validate_and_set_defaults check_os
  settled clean =
      let d = written home c in
      let (net, node, ssh, cluster, endpoint) = clean_parts _ clean in
      let networks =
        back
          (ap (λ f. each_set f d.networks) (same_network home c)
            ∙ each_set-Settles _ _ (validate_network-Settles c) c.networks net)
          net in
      let nodes =
        back
          (each_set-Settles _ _ (validate_bare_metal-Settles home plain c.ssh.user d.ssh.user)
            c.bare_metal node)
          node in
      let ssh_again = back (validate_ssh-Settles home plain c.ssh ssh) ssh in
      let clusters =
        back (each_set-Settles _ _ check_cluster-Settles c.kubernetes.clusters cluster) cluster in
      let registry =
        registry-Settles c.registry endpoint
        ∙ ap (λ e. ((validate_registry c.registry).0, e, (validate_registry c.registry).2))
            (sym endpoint) in
      λ i. (
        record d {
          networks = (networks i).0;
          bare_metal = (nodes i).0;
          ssh = (ssh_again i).0;
          kubernetes = kubernetes_again c.kubernetes (λ j. (clusters j).0) i;
          registry = (registry i).0;
        },
        record {
          networks = (networks i).1;
          vms = each check_vm 0 c.vms;
          bare_metal = (nodes i).1;
          operating_system = check_os c;
          ssh = (ssh_again i).1;
          kind = same_kind home c i;
          clusters = (clusters i).1;
          endpoints = (registry i).1;
          containers = (registry i).2;
          build_only = same_build_only home c i;
          hosts = same_hosts home c i;
        },
      )

  -- A configuration that is loaded, with its defaults, is loaded again as it is: nothing is changed or
  -- refused, where the home directory is an absolute path.
  pub load_config_idem :
      (loaded : Config) → load_config home c ≡ some loaded → load_config home loaded ≡ some loaded
  unfolding load_config
  load_config_idem loaded h = elim (Bool-cases (is_clean (validate_and_set_defaults home c).1)) [
    | inr e ↦ absurd (none≢some (rw (e, load_config) at h))
    | inl e ↦
        let same : (validate_and_set_defaults home c).0 ≡ loaded =
          some_inj (rw (e, load_config) at h) in
        ap (load_config home) (sym same) ∙ ap give (settled e) ∙ rw e (ap some same)
  ]
    where
      give : Config × Report → Option Config
      give p = if is_clean p.1 then some p.0 else none

      none≢some : ¬ (none ≡ some loaded)
      none≢some e = cc

      some_inj : {d : Config} → some d ≡ some loaded → d ≡ loaded
      some_inj e = cc
