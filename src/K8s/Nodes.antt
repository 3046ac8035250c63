-- ===== src/K8s/Nodes.antt =====
-- The operations of pkg/k8s/client.go on nodes, and those that make an object sure to be there or gone.
use dpu_simulator.Base.{not, ◌&&◌, List, [], ◌∷◌, Option, none, some, String, str_eq, keep}
use dpu_simulator.Base.Maps.{insert_all}
use dpu_simulator.Platform.Executor.{Action, ◌>>=◌}
use dpu_simulator.K8s.Api.{
  Api, found, not_found, unavailable, Creation, created, already_exists, refused, Node, Taint, Pod,
}

unfoldable pub without_taint : String → String → List Taint → List Taint
without_taint key effect taints =
    keep (λ t. not (str_eq t.key key && str_eq t.effect effect)) taints

unfoldable pub is_there_object : Creation → Option (Unit {0})
is_there_object created = some tt
is_there_object already_exists = some tt
is_there_object refused = none

module _ {W : Type 0} (api : Api W) where
  unfoldable pub update_node_with : String → (Node → Node) → Action W Unit
  update_node_with name change =
      api.retry_on_conflict (do node ← api.get_node name; api.update_node (change node))

  unfoldable pub label_node : String → List (String × String) → Action W Unit
  unfolding update_node_with insert_all
  label_node name labels =
      update_node_with name (λ n. record n { labels = insert_all labels n.labels })

  unfoldable pub annotate_node : String → List (String × String) → Action W Unit
  unfolding update_node_with insert_all
  annotate_node name annotations =
      update_node_with name (λ n. record n { annotations = insert_all annotations n.annotations })

  unfoldable pub remove_node_taint : String → String → String → Action W Unit
  unfolding update_node_with without_taint
  remove_node_taint name taint_key effect =
      update_node_with name (λ n. record n { taints = without_taint taint_key effect n.taints })

  unfoldable pub ensure_namespace : String → Action W Unit
  unfolding is_there_object
  ensure_namespace name w = let (c, w') = api.create_namespace name w in (is_there_object c, w')

  unfoldable pub ensure_service_account : String → String → Action W Unit
  unfolding is_there_object
  ensure_service_account namespace name w =
      let (c, w') = api.create_service_account namespace name w in (is_there_object c, w')

  -- A pod that cannot be deleted is left.
  unfoldable pub delete_pods : String → List Pod → W → W
  delete_pods namespace [] w = w
  delete_pods namespace (pod ∷ pods) w =
      delete_pods namespace pods (api.delete_pod namespace pod.name w).1

  unfoldable pub delete_pods_by_label : String → String → Action W Unit
  unfolding delete_pods
  delete_pods_by_label namespace label_selector = do
    pods ← api.list_pods namespace label_selector
    λ w. (some tt, delete_pods namespace pods w)

  unfoldable pub delete_daemon_set : String → String → Action W Unit
  delete_daemon_set namespace name w =
      let w' = (api.get_daemon_set namespace name w).1 in
      elim (api.get_daemon_set namespace name w).0 [
        | found _ ↦ api.remove_daemon_set namespace name w'
        | not_found ↦ (some tt, w')
        | unavailable ↦ (none, w')
      ]
