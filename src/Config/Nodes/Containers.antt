-- ===== src/Config/Nodes/Containers.antt =====
-- GetKindNodeContainerName of pkg/config/config.go: different nodes of a cluster are different containers.
use dpu_simulator.Base.{
  ℕ, ◌+◌, ◌<◌, ◌≤◌, ◌≡◌, ◌≢◌, refl, sym, ◌∙◌, Bool, true, false, List, [], ◌∷◌, arith, String,
  str_eq, str_eq_iff, if◌then◌else◌, Bool-cases, inl, inr,
}
use dpu_simulator.Config.Types.{Config, KindNodeConfig}
use dpu_simulator.Config.Nodes.{
  control_plane_name, worker_name, container_name_from, get_kind_node_container_name,
  get_kind_nodes_for_cluster,
}
use dpu_simulator.Config.Nodes.Numbered.{
  control_plane_name_inj, worker_name_inj, control_plane_name-ne-worker_name,
}

-- The names that are given from a pair of counts on.
data Named (cluster : String) (cp_idx worker_idx : ℕ) (name : String) : Type 0 where
  nameless : name ≡ "" → Named cluster cp_idx worker_idx name
  control_plane :
      (k : ℕ)
      → cp_idx < k
      → name ≡ control_plane_name cluster k
      → Named cluster cp_idx worker_idx name
  worker :
      (k : ℕ) → worker_idx < k → name ≡ worker_name cluster k → Named cluster cp_idx worker_idx name

Named-mono :
    {cluster name : String} {cp cp' w w' : ℕ}
    → cp' ≤ cp
    → w' ≤ w
    → Named cluster cp w name
    → Named cluster cp' w' name
Named-mono a b (nameless e) = nameless e
Named-mono a b (control_plane k l e) = control_plane k (omega arith) e
Named-mono a b (worker k l e) = worker k (omega arith) e

Named-if :
    {cluster : String} {cp w : ℕ} (b : Bool) {x y : String}
    → Named cluster cp w x
    → Named cluster cp w y
    → Named cluster cp w (if b then x else y)
Named-if true hx hy = hx
Named-if false hx hy = hy

container_name_from-Named :
    (cluster node_name : String) (nodes : List KindNodeConfig) (cp w : ℕ)
    → Named cluster cp w (container_name_from cluster node_name nodes cp w)
unfolding container_name_from
container_name_from-Named cluster node_name [] cp w = nameless refl
container_name_from-Named cluster node_name (n ∷ nodes) cp w =
    Named-if (str_eq n.k8s_role "control-plane")
      (Named-if (str_eq n.name node_name) (control_plane (cp + 1) (omega arith) refl) (
        Named-mono (omega arith) (omega arith)
          (container_name_from-Named cluster node_name nodes (cp + 1) w)))
      (Named-if (str_eq n.k8s_role "worker")
        (Named-if (str_eq n.name node_name) (worker (w + 1) (omega arith) refl) (
          Named-mono (omega arith) (omega arith)
            (container_name_from-Named cluster node_name nodes cp (w + 1))))
        (nameless refl))

-- A name that has just been given is not given again.
control_plane-fresh :
    (cp : ℕ) {cluster name : String} {w : ℕ}
    → Named cluster (cp + 1) w name
    → name ≢ ""
    → control_plane_name cluster (cp + 1) ≢ name
control_plane-fresh cp {cluster} (nameless e) ne h = ne e
control_plane-fresh cp {cluster} (control_plane k l e) ne h =
    omega (arith, control_plane_name_inj cluster (cp + 1) k (h ∙ e))
control_plane-fresh cp {cluster} (worker k l e) ne h =
    control_plane_name-ne-worker_name cluster (cp + 1) k (h ∙ e)

worker-fresh :
    (w : ℕ) {cluster name : String} {cp : ℕ}
    → Named cluster cp (w + 1) name
    → name ≢ ""
    → worker_name cluster (w + 1) ≢ name
worker-fresh w {cluster} (nameless e) ne h = ne e
worker-fresh w {cluster} (control_plane k l e) ne h =
    control_plane_name-ne-worker_name cluster k (w + 1) (sym (h ∙ e))
worker-fresh w {cluster} (worker k l e) ne h =
    omega (arith, worker_name_inj cluster (w + 1) k (h ∙ e))

-- One round: the node that is met gets `x`, which no later node gets.
round_inj :
    (node a b x ra rb : String)
    → (if str_eq node a then x else ra) ≡ (if str_eq node b then x else rb)
    → (if str_eq node a then x else ra) ≢ ""
    → (ra ≢ "" → x ≢ ra)
    → (rb ≢ "" → x ≢ rb)
    → (ra ≡ rb → ra ≢ "" → a ≡ b)
    → a ≡ b
round_inj node a b x ra rb e ne fa fb ih = elim (Bool-cases (str_eq node a)) [
  | inl p ↦ elim (Bool-cases (str_eq node b)) [
    | inl q ↦ sym ((str_eq_iff node a).0 p) ∙ (str_eq_iff node b).0 q
    | inr q ↦
        let h : x ≡ rb = rw (p, q) at e in
        let ne' : x ≢ "" = rw p at ne in absurd (fb (λ z. ne' (h ∙ z)) h)
  ]
  | inr p ↦ elim (Bool-cases (str_eq node b)) [
    | inl q ↦
        let h : ra ≡ x = rw (p, q) at e in let ne' : ra ≢ "" = rw p at ne in absurd (fa ne' (sym h))
    | inr q ↦ let h : ra ≡ rb = rw (p, q) at e in let ne' : ra ≢ "" = rw p at ne in ih h ne'
  ]
]

container_name_from_inj :
    (cluster a b : String) (nodes : List KindNodeConfig) (cp w : ℕ)
    → container_name_from cluster a nodes cp w ≡ container_name_from cluster b nodes cp w
    → container_name_from cluster a nodes cp w ≢ ""
    → a ≡ b
unfolding container_name_from
container_name_from_inj cluster a b [] cp w e ne = absurd (ne refl)
container_name_from_inj cluster a b (n ∷ nodes) cp w e ne =
    elim (Bool-cases (str_eq n.k8s_role "control-plane")) [
      | inl r ↦
          round_inj n.name a b (control_plane_name cluster (cp + 1)) _ _
            (rw (r, if◌then◌else◌) at e) (rw (r, if◌then◌else◌) at ne)
            (control_plane-fresh cp (container_name_from-Named cluster a nodes (cp + 1) w))
            (control_plane-fresh cp (container_name_from-Named cluster b nodes (cp + 1) w))
            (container_name_from_inj cluster a b nodes (cp + 1) w)
      | inr r ↦ elim (Bool-cases (str_eq n.k8s_role "worker")) [
        | inl r' ↦
            round_inj n.name a b (worker_name cluster (w + 1)) _ _ (rw (r, r') at e)
              (rw (r, r') at ne)
              (worker-fresh w (container_name_from-Named cluster a nodes cp (w + 1)))
              (worker-fresh w (container_name_from-Named cluster b nodes cp (w + 1)))
              (container_name_from_inj cluster a b nodes cp (w + 1))
        | inr r' ↦ absurd (ne (rw (r, r')))
      ]
    ]

-- Two different node names of which one has a container name in a cluster do not have the same one.
pub get_kind_node_container_name_inj :
    (c : Config) (cluster a b : String)
    → a ≢ b
    → get_kind_node_container_name c cluster a ≢ ""
    → get_kind_node_container_name c cluster a ≢ get_kind_node_container_name c cluster b
unfolding get_kind_node_container_name
get_kind_node_container_name_inj c cluster a b different ne e =
    different (container_name_from_inj cluster a b (get_kind_nodes_for_cluster c cluster) 0 0 e ne)
