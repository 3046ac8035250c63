-- ===== src/Config/Validate/Accepted.antt =====
-- What holds of the nodes of a configuration in which the validation finds no error.
use dpu_simulator.Base.{
  ℕ, suc, ◌≡◌, refl, true, false, not, ◌||◌, List, [], ◌∷◌, arith, str_eq, if◌then◌else◌,
  append-eq-nil, map, All,
}
use dpu_simulator.Config.Mode.{kind_nodes, is_empty}
use dpu_simulator.Config.Types.{Config, VmConfig, KindNodeConfig, dpu_type}
use dpu_simulator.Config.Validate.{
  FieldError, each, is_blank, check_kind_node, check_kind_references, check_kind, is_cluster_name,
  is_kind_node_name, check_vm, check_hosts, check_host_of, is_host_name, is_node_type,
}

map-eq-nil : {A B : Type 0} (f : A → B) (xs : List A) → map f xs ≡ [] → xs ≡ []
map-eq-nil f [] h = refl
map-eq-nil f (x ∷ xs) h = cc

each-All :
    {A : Type 0} (check : A → List FieldError) (i : ℕ) (xs : List A)
    → each check i xs ≡ []
    → All (λ x. check x ≡ []) xs
unfolding each
each-All check i [] h = tt
each-All check i (x ∷ xs) h =
    let (here, rest) = append-eq-nil (map (λ e. (i, e)) (check x)) (each check (suc i) xs) h in
    (map-eq-nil _ (check x) here, each-All check (suc i) xs rest)

All-map :
    {A : Type 0} {P Q : A → Type 0} (f : (x : A) → P x → Q x) (xs : List A) → All P xs → All Q xs
All-map f [] h = tt
All-map f (x ∷ xs) h = (f x h.0, All-map f xs h.1)

All-both :
    {A : Type 0} (P Q : A → Type 0) (xs : List A) → All P xs → All Q xs → All (λ x. P x × Q x) xs
All-both P Q [] h k = tt
All-both P Q (x ∷ xs) h k = ((h.0, k.0), All-both P Q xs h.1 k.1)

-- A Kind node that names a declared cluster, and a declared node as its host where it is a DPU.
pub record KindNodeAccepted (c : Config) (node : KindNodeConfig) : Type 0 where
  pub named : is_blank node.name ≡ false
  pub declared : is_cluster_name c node.k8s_cluster ≡ true
  pub hosted : (not (str_eq node.node_type "dpu") || is_kind_node_name c node.host) ≡ true

clean-KindNodeAccepted :
    (c : Config) (node : KindNodeConfig)
    → (check_kind_node node ≡ []) × (check_kind_references c node ≡ [])
    → KindNodeAccepted c node
unfolding check_kind_node check_kind_references
clean-KindNodeAccepted c node h = record {
  named = ground (arith, h.0);
  declared = ground (arith, h.0, h.1);
  hosted = ground (arith, h.0, h.1);
}

-- A configuration in which the validation of the Kind section finds no error has only nodes that have a
-- name and a cluster of the configuration, and each DPU among them names one of the nodes as its host.
pub check_kind-Accepted : (c : Config) → check_kind c ≡ [] → All (KindNodeAccepted c) (kind_nodes c)
unfolding check_kind
check_kind-Accepted c h =
    let (own, references) = append-eq-nil (each check_kind_node 0 (kind_nodes c)) _ h in
    All-map (clean-KindNodeAccepted c) (kind_nodes c) (
      All-both _ _ (kind_nodes c) (each-All check_kind_node 0 (kind_nodes c) own)
        (each-All (check_kind_references c) 0 (kind_nodes c) references))

-- A VM with a type, and with a host of the configuration where it is a DPU.
pub record VmAccepted (c : Config) (vm : VmConfig) : Type 0 where
  pub typed : is_node_type vm.node_type ≡ true
  pub hosted : (not (str_eq vm.node_type dpu_type) || is_host_name c vm.host) ≡ true

clean-VmAccepted :
    (c : Config) (vm : VmConfig)
    → (check_vm vm ≡ []) × (check_host_of c vm.node_type vm.host ≡ [])
    → VmAccepted c vm
unfolding check_vm check_host_of
clean-VmAccepted c vm h = record { typed = ground (arith, h.0); hosted = ground (arith, h.0, h.1) }

-- Where there are no VMs the check of the hosts is skipped, and there is nothing that it would check.
skipped_or_clean :
    {B : Type 0} (f : VmConfig → List FieldError) (vms : List VmConfig) (a b : B)
    → (if◌then◌else◌ {A = List (ℕ × FieldError) × B} (is_empty vms) ([], a) (each f 0 vms, b)).0
      ≡ []
    → each f 0 vms ≡ []
unfolding each
skipped_or_clean f [] a b h = refl
skipped_or_clean f (vm ∷ vms) a b h = h

-- A configuration in which the validation of the VMs and of the hosts that they name finds no error has
-- only VMs with one of the two types, and each DPU among them names a host of the configuration.
pub check_vms-Accepted :
    (c : Config) → each check_vm 0 c.vms ≡ [] → (check_hosts c).0 ≡ [] → All (VmAccepted c) c.vms
unfolding check_hosts
check_vms-Accepted c h k = All-map (clean-VmAccepted c) c.vms (
    All-both _ _ c.vms (each-All check_vm 0 c.vms h) (
      each-All (λ (vm : VmConfig). check_host_of c vm.node_type vm.host) 0 c.vms
        (skipped_or_clean (λ (vm : VmConfig). check_host_of c vm.node_type vm.host) c.vms _ _ k)))
