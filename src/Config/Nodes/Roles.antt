-- ===== src/Config/Nodes/Roles.antt =====
-- Kind nodes whose role is left out, pkg/config/config.go.
use dpu_simulator.Base.{
  ℕ, ◌≤◌, ◌≡◌, ap, ◌∙◌, ◌||◌, List, [], ◌∷◌, arith, String, str_eq, Bool-cases, inl, inr, keep,
  length, ◌&&◌,
}
use dpu_simulator.Config.Types.{Config, KindNodeConfig}
use dpu_simulator.Config.Mode.{kind_nodes}
use dpu_simulator.Config.Nodes.{
  container_name_from, get_kind_node_container_name, get_kind_nodes_for_cluster,
  get_kind_worker_count,
}

role_of_first : KindNodeConfig → List KindNodeConfig → String
role_of_first n [] = n.k8s_role
role_of_first n (m ∷ _) = m.k8s_role

kept_first :
    (cluster : String) (n : KindNodeConfig) (all nodes : List KindNodeConfig)
    → keep (λ (node : KindNodeConfig). str_eq node.k8s_cluster cluster) all ≡ n ∷ nodes
    → n.k8s_role ≡ ""
    → 1
      ≤ length (
          keep
            (λ (node : KindNodeConfig).
              str_eq node.k8s_cluster cluster
              && (str_eq node.k8s_role "worker" || str_eq node.k8s_role ""))
            all)
unfolding role_of_first str_eq
kept_first cluster n [] nodes e r = cc
kept_first cluster n (m ∷ all) nodes e r = elim (Bool-cases (str_eq m.k8s_cluster cluster)) [
  | inl p ↦
      let role : m.k8s_role ≡ "" = ap (role_of_first n) (rw p at e) ∙ r in
      rw (p, role) (omega arith)
  | inr p ↦ rw p (kept_first cluster n all nodes (rw p at e) r)
]

unnamed :
    (cluster name : String) (n : KindNodeConfig) (nodes : List KindNodeConfig) (cp w : ℕ)
    → n.k8s_role ≡ ""
    → container_name_from cluster name (n ∷ nodes) cp w ≡ ""
unfolding container_name_from str_eq
unnamed cluster name n nodes cp w r = rw r

-- The first node of a cluster, where its role is left out: it counts as a worker, but neither it nor a
-- node behind it has a container name.
pub get_kind_node_container_name-no_role :
    (c : Config) (cluster : String) (n : KindNodeConfig) (nodes : List KindNodeConfig)
    (name : String)
    → get_kind_nodes_for_cluster c cluster ≡ n ∷ nodes
    → n.k8s_role ≡ ""
    → (get_kind_node_container_name c cluster name ≡ "") × (1 ≤ get_kind_worker_count c cluster)
unfolding get_kind_node_container_name get_kind_nodes_for_cluster get_kind_worker_count
get_kind_node_container_name-no_role c cluster n nodes name e r = (
  ap (λ ns. container_name_from cluster name ns 0 0) e ∙ unnamed cluster name n nodes 0 0 r,
  kept_first cluster n (kind_nodes c) nodes e r,
)
