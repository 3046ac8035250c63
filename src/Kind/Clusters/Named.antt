-- ===== src/Kind/Clusters/Named.antt =====
-- The containers that Kind makes from BuildKindConfig of pkg/kind/config.go, and their names in
-- GetKindNodeContainerName of pkg/config/config.go.
use Prim.Native.String.{◌++◌ as concat}
use dpu_simulator.Base.{
  ℕ, zero, suc, ◌+◌, ◌≡◌, ◌≢◌, ◌∙◌, ap, sym, refl, ◌⊎◌, inl, inr, Bool, true, false, not, ◌&&◌,
  List, [], ◌∷◌, ◌++◌, String, str_eq, str_eq_iff, str_eq_refl, Bool-cases, if◌then◌else◌, All,
  arith,
}
use dpu_simulator.Base.Text.{itoa}
use dpu_simulator.Config.Nodes.{
  numbered, control_plane_name, worker_name, container_name_from, get_kind_node_container_name,
  get_kind_nodes_for_cluster,
}
use dpu_simulator.Config.Types.{Config, KindNodeConfig}
use dpu_simulator.Kind.Clusters.{KindNode, kind_role, build_node, build_nodes}

unfoldable pub count_role : String → List KindNode → ℕ
count_role role [] = 0
count_role role (n ∷ nodes) =
    let rest = count_role role nodes in if str_eq n.role role then suc rest else rest

-- The documented names of Kind's containers, from the name of the cluster, the nodes before and the node: the
-- first of a role is called by the cluster and the role, the second has a 2 behind that, and so on.
pub record KindNames (name_of : String → List KindNode → KindNode → String) : Type 0 where
  pub first_of_role :
      (cluster : String) (before : List KindNode) (node : KindNode)
      → count_role node.role before ≡ 0
      → name_of cluster before node ≡ concat cluster (concat "-" node.role)
  pub later_of_role :
      (cluster : String) (before : List KindNode) (node : KindNode) (k : ℕ)
      → count_role node.role before ≡ suc k
      → name_of cluster before node
        ≡ concat (concat cluster (concat "-" node.role)) (itoa (suc (suc k)))

numbered-first : (base : String) → numbered base 1 ≡ base
unfolding numbered
numbered-first base = refl

numbered-later :
    (base : String) (k : ℕ) → numbered base (suc (suc k)) ≡ concat base (itoa (suc (suc k)))
unfolding numbered
numbered-later base k = ground arith

name_of-numbered :
    (name_of : String → List KindNode → KindNode → String)
    → KindNames name_of
    → (cluster : String) (before : List KindNode) (node : KindNode) (k : ℕ)
    → count_role node.role before ≡ k
    → numbered (concat cluster (concat "-" node.role)) (suc k) ≡ name_of cluster before node
name_of-numbered name_of names cluster before node zero e =
    numbered-first _ ∙ sym (names.first_of_role cluster before node e)
name_of-numbered name_of names cluster before node (suc k) e =
    numbered-later _ k ∙ sym (names.later_of_role cluster before node k e)

abbrev pub HasRole : KindNodeConfig → Type 0
HasRole n = (n.k8s_role ≡ "control-plane") ⊎ (n.k8s_role ≡ "worker")

ne_false : (a b : String) → a ≢ b → str_eq a b ≡ false
ne_false a b ne = elim (Bool-cases (str_eq a b)) [
  | inl e ↦ absurd (ne ((str_eq_iff a b).0 e))
  | inr e ↦ e
]

roles_differ : str_eq "worker" "control-plane" ≡ false
unfolding str_eq
roles_differ = refl

roles_differ_back : str_eq "control-plane" "worker" ≡ false
unfolding str_eq
roles_differ_back = refl

kind_role-HasRole : (n : KindNodeConfig) → HasRole n → kind_role n.k8s_role ≡ n.k8s_role
unfolding kind_role str_eq
kind_role-HasRole n (inl e) = rw e refl
kind_role-HasRole n (inr e) = rw e refl

-- The flag behind a node.
abbrev next : Bool → KindNodeConfig → Bool
next first m = first && not (str_eq (kind_role m.k8s_role) "control-plane")

count_role-same :
    (role : String) (first : Bool) (m : KindNodeConfig) (before : List KindNodeConfig)
    → HasRole m
    → m.k8s_role ≡ role
    → count_role role (build_nodes first (m ∷ before))
      ≡ suc (count_role role (build_nodes (next first m) before))
unfolding count_role build_nodes build_node
count_role-same role first m before h e = rw (kind_role-HasRole m h ∙ e, str_eq_refl role) refl

count_role-other :
    (role : String) (first : Bool) (m : KindNodeConfig) (before : List KindNodeConfig)
    → HasRole m
    → str_eq m.k8s_role role ≡ false
    → count_role role (build_nodes first (m ∷ before))
      ≡ count_role role (build_nodes (next first m) before)
unfolding count_role build_nodes build_node
count_role-other role first m before h e = rw (kind_role-HasRole m h, e) refl

module _ (cluster : String) (n : KindNodeConfig) (after : List KindNodeConfig) where
  abbrev Other : KindNodeConfig → Type 0
  Other m = (m.name ≢ n.name) × HasRole m

  abbrev count : String → Bool → List KindNodeConfig → ℕ
  count role first before = count_role role (build_nodes first before)

  named_control_plane :
      (before : List KindNodeConfig) (first : Bool) (cp w k : ℕ)
      → All Other before
      → n.k8s_role ≡ "control-plane"
      → k ≡ cp + count "control-plane" first before + 1
      → container_name_from cluster n.name (before ++ n ∷ after) cp w ≡ control_plane_name cluster k
  unfolding container_name_from build_nodes count_role
  named_control_plane [] first cp w k others r e =
      rw (r, str_eq_refl "control-plane", str_eq_refl n.name)
        (ap (control_plane_name cluster) (omega (arith, e)))
  named_control_plane (m ∷ before) first cp w k ((ne, inl role), others) r e =
      rw (role, str_eq_refl "control-plane", ne_false m.name n.name ne)
        (named_control_plane before (next first m) (cp + 1) w k others r
          (omega (arith, e, count_role-same "control-plane" first m before (inl role) role)))
  named_control_plane (m ∷ before) first cp w k ((ne, inr role), others) r e =
      rw (role, roles_differ, str_eq_refl "worker", ne_false m.name n.name ne)
        (named_control_plane before (next first m) cp (w + 1) k others r (
          omega (
            arith,
            e,
            count_role-other "control-plane" first m before (inr role) (rw role roles_differ),
          )))

  named_worker :
      (before : List KindNodeConfig) (first : Bool) (cp w k : ℕ)
      → All Other before
      → n.k8s_role ≡ "worker"
      → k ≡ w + count "worker" first before + 1
      → container_name_from cluster n.name (before ++ n ∷ after) cp w ≡ worker_name cluster k
  unfolding container_name_from build_nodes count_role
  named_worker [] first cp w k others r e =
      rw (r, roles_differ, str_eq_refl "worker", str_eq_refl n.name)
        (ap (worker_name cluster) (omega (arith, e)))
  named_worker (m ∷ before) first cp w k ((ne, inl role), others) r e =
      rw (role, str_eq_refl "control-plane", ne_false m.name n.name ne)
        (named_worker before (next first m) (cp + 1) w k others r (
          omega (
            arith,
            e,
            count_role-other "worker" first m before (inl role) (rw role roles_differ_back),
          )))
  named_worker (m ∷ before) first cp w k ((ne, inr role), others) r e =
      rw (role, roles_differ, str_eq_refl "worker", ne_false m.name n.name ne)
        (named_worker before (next first m) cp (w + 1) k others r
          (omega (arith, e, count_role-same "worker" first m before (inr role) role)))

abbrev place_name : String → List KindNodeConfig → String → String
place_name cluster before role =
    numbered (concat cluster (concat "-" role)) (suc (count_role role (build_nodes true before)))

-- Under the documented naming of Kind, for a node of a cluster with a role, behind nodes with roles and other
-- names, the name that the configuration looks up is the one that Kind gives to the node that is built from
-- it.
pub get_kind_node_container_name-KindNames :
    (name_of : String → List KindNode → KindNode → String)
    → KindNames name_of
    → (c : Config) (cluster : String) (before after : List KindNodeConfig) (n : KindNodeConfig)
    → get_kind_nodes_for_cluster c cluster ≡ before ++ n ∷ after
    → All (λ m. (m.name ≢ n.name) × HasRole m) before
    → HasRole n
    → (first : Bool)
    → get_kind_node_container_name c cluster n.name
      ≡ name_of cluster (build_nodes true before) (build_node first n)
unfolding get_kind_node_container_name control_plane_name worker_name build_node
get_kind_node_container_name-KindNames name_of names c cluster before after n e others (inl r)
      first =
    ap (λ nodes. container_name_from cluster n.name nodes 0 0) e
    ∙ named_control_plane cluster n after before true 0 0 _ others r (omega arith)
    ∙ sym (ap (place_name cluster before) (kind_role-HasRole n (inl r) ∙ r))
    ∙ name_of-numbered name_of names cluster (build_nodes true before) (build_node first n) _ refl
get_kind_node_container_name-KindNames name_of names c cluster before after n e others (inr r)
      first =
    ap (λ nodes. container_name_from cluster n.name nodes 0 0) e
    ∙ named_worker cluster n after before true 0 0 _ others r (omega arith)
    ∙ sym (ap (place_name cluster before) (kind_role-HasRole n (inr r) ∙ r))
    ∙ name_of-numbered name_of names cluster (build_nodes true before) (build_node first n) _ refl
