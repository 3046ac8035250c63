-- ===== src/K8s/Api.antt =====
-- The API server as pkg/k8s/client.go calls it, with the parts of its objects that the client reads. Each
-- call has a timeout, which is an error of the call.
use dpu_simulator.Base.{ℕ, List, Option, String, str_eq, Bool, ◌&&◌, any}
use dpu_simulator.Base.Int.{ℤ}
use dpu_simulator.Platform.Executor.{Action}

-- The result of a read: apierrors.IsNotFound tells the two errors apart.
pub data Answer (A : Type 0) : Type 0 where
  found : A → Answer A
  not_found : Answer A
  unavailable : Answer A

-- The result of a Create: apierrors.IsAlreadyExists tells the two errors apart.
pub data Creation : Type 0 where
  created already_exists refused : Creation

-- A condition of a status, by its type and its status.
pub record Condition : Type 0 where
  pub kind : String
  pub status : String

-- `replicas` is an int32, which may be nil.
pub record Deployment : Type 0 where
  pub name : String
  pub annotations : List (String × String)
  pub template_annotations : List (String × String)
  pub replicas : Option ℤ
  pub selector : List (String × String)
  pub generation : ℕ
  pub observed_generation : ℕ
  pub conditions : List Condition

pub record Taint : Type 0 where
  pub key : String
  pub effect : String

pub record Node : Type 0 where
  pub name : String
  pub labels : List (String × String)
  pub annotations : List (String × String)
  pub taints : List Taint

pub record Pod : Type 0 where
  pub name : String
  pub phase : String
  pub conditions : List Condition

-- A namespace, a name and an object are the arguments, in this order. RetryOnConflict runs its argument
-- again where an update has met a conflict.
pub record Api (W : Type 0) : Type 0 where
  pub get_deployment : String → String → W → Answer Deployment × W
  pub update_deployment : String → Deployment → Action W Unit
  pub get_node : String → Action W Node
  pub update_node : Node → Action W Unit
  pub retry_on_conflict : Action W Unit → Action W Unit
  pub list_pods : String → String → Action W (List Pod)
  pub delete_pod : String → String → Action W Unit
  pub get_daemon_set : String → String → W → Answer Unit × W
  pub remove_daemon_set : String → String → Action W Unit
  pub create_namespace : String → W → Creation × W
  pub create_service_account : String → String → W → Creation × W

unfoldable pub is_true : String → Condition → Bool
is_true kind c = str_eq c.kind kind && str_eq c.status "True"

unfoldable pub is_pod_ready : Pod → Bool
unfolding is_true
is_pod_ready pod = any (is_true "Ready") pod.conditions

unfoldable pub is_deployment_available : Deployment → Bool
unfolding is_true
is_deployment_available d = any (is_true "Available") d.conditions
