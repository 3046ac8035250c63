-- ===== src/K8s/Waits.antt =====
-- The waits of pkg/k8s/client.go: each is a loop that selects between the end of its context and the ticks
-- of a ticker. A run is given by what the loop wakes up to, with what the server answers at each tick.
pub mod Ready
use dpu_simulator.Base.{
  ℕ, suc, ◌^◌, ◌≡◌, ◌∙◌, ap, sym, refl, ◌⊎◌, inl, inr, Bool, true, false, not, ◌&&◌, ◌||◌, List, [],
  ◌∷◌, Option, none, some, String, str_eq, if◌then◌else◌, ltb, length,
}
use dpu_simulator.Base.Int.{ℤ, pos, leb_ℤ}
use dpu_simulator.Base.Maps.{lookup}
use dpu_simulator.Platform.Executor.{Action}
use dpu_simulator.K8s.Api.{
  Creation, created, already_exists, refused, Deployment, Pod, is_pod_ready,
  is_deployment_available,
}
use dpu_simulator.K8s.Deployments.{replicas_or_one, or_empty}

pub data Wake (A : Type 0) : Type 0 where
  context_done : Wake A
  tick : A → Wake A

-- What a tick leads to: `continue`, `return nil` or `return err`.
pub data Verdict : Type 0 where
  again finish abort : Verdict

unfoldable pub then_wait : Verdict → Option Bool → Option Bool
then_wait again rest = rest
then_wait finish rest = some true
then_wait abort rest = some false

-- The loop; `none` is a run that has not returned yet, `some false` an error.
unfoldable pub wait_loop : {A : Type 0} → (A → Verdict) → List (Wake A) → Option Bool
unfolding then_wait
wait_loop judge [] = none
wait_loop judge (context_done ∷ wakes) = some false
wait_loop judge (tick a ∷ wakes) = then_wait (judge a) (wait_loop judge wakes)

unfoldable pub finish_if : Bool → Verdict
finish_if b = if b then finish else again

unfoldable pub judge_running : Option Pod → Verdict
unfolding finish_if
judge_running none = again
judge_running (some pod) = finish_if (str_eq pod.phase "Running" && is_pod_ready pod)

unfoldable pub wait_for_pod_running : List (Wake (Option Pod)) → Option Bool
wait_for_pod_running = wait_loop judge_running

-- readyCount and allReady.
unfoldable pub ready_count : List Pod → ℕ
ready_count [] = 0
ready_count (pod ∷ pods) =
    let rest = ready_count pods in if is_pod_ready pod then suc rest else rest

unfoldable pub all_ready : List Pod → Bool
all_ready [] = true
all_ready (pod ∷ pods) = is_pod_ready pod && all_ready pods

unfoldable pub judge_pods : Option (List Pod) → Verdict
unfolding finish_if
judge_pods none = again
judge_pods (some []) = again
judge_pods (some (pod ∷ pods)) = finish_if (all_ready (pod ∷ pods))

unfoldable pub wait_for_pods_ready : List (Wake (Option (List Pod))) → Option Bool
wait_for_pods_ready = wait_loop judge_pods

-- `!(observed < generation) && isDeploymentAvailable(deployment)`.
unfoldable pub is_settled : Deployment → Bool
is_settled d = not (ltb d.observed_generation d.generation) && is_deployment_available d

unfoldable pub judge_deployment : Option Deployment → Verdict
unfolding finish_if is_settled
judge_deployment none = again
judge_deployment (some d) = finish_if (is_settled d)

unfoldable pub wait_for_deployment_available : List (Wake (Option Deployment)) → Option Bool
wait_for_deployment_available = wait_loop judge_deployment

-- What a tick of WaitForDeploymentPodsReady reads: the deployment, whether its selector can be used, and
-- the pods that the selector lists. An empty selector,
-- which no valid deployment has, lists every pod of the namespace: the code writes `Nothing` as an empty text.
pub record Snapshot : Type 0 where
  pub deployment : Option Deployment
  pub selector_valid : Bool
  pub pods : Option (List Pod)

unfoldable pub judge_listed : Deployment → Option (List Pod) → Verdict
unfolding finish_if replicas_or_one
judge_listed d none = again
judge_listed d (some []) = again
judge_listed d (some (pod ∷ pods)) =
    finish_if (
      all_ready (pod ∷ pods) && leb_ℤ (replicas_or_one d.replicas) (pos (ready_count (pod ∷ pods))))

unfoldable pub judge_settled : Deployment → Snapshot → Verdict
unfolding judge_listed is_settled
judge_settled d s =
    if not (is_settled d)
    then again
    else if not s.selector_valid
    then abort
    else judge_listed d s.pods

unfoldable pub judge_snapshot : Snapshot → Verdict
unfolding judge_settled
judge_snapshot s = elim s.deployment [ none ↦ again | some d ↦ judge_settled d s ]

unfoldable pub wait_for_deployment_pods_ready : List (Wake Snapshot) → Option Bool
wait_for_deployment_pods_ready = wait_loop judge_snapshot

-- A secret, as EnsureServiceAccountTokenSecret reads it; a read has failed, or found none.
pub record Secret : Type 0 where
  pub secret_type : String
  pub annotations : List (String × String)
  pub fields : List (String × String)

pub data SecretRead : Type 0 where
  read : Secret → SecretRead
  missing failed : SecretRead

abbrev pub token_type : String
token_type = "kubernetes.io/service-account-token"

abbrev pub account_key : String
account_key = "kubernetes.io/service-account.name"

abbrev pub has_field : String → Secret → Bool
has_field key s = elim (lookup key s.fields) [ none ↦ false | some _ ↦ true ]

unfoldable pub judge_secret : String → SecretRead → Verdict
unfolding or_empty finish_if
judge_secret service_account missing = again
judge_secret service_account failed = abort
judge_secret service_account (read s) =
    if not (str_eq s.secret_type token_type)
    then abort
    else if not (str_eq (or_empty (lookup account_key s.annotations)) service_account)
    then abort
    else finish_if (has_field "token" s && has_field "ca.crt" s)

-- The first read is made before the first wake.
unfoldable pub ensure_service_account_token_secret :
    String → Creation → SecretRead → List (Wake SecretRead) → Option Bool
unfolding judge_secret
ensure_service_account_token_secret service_account refused first wakes = some false
ensure_service_account_token_secret service_account c first wakes =
    wait_loop (judge_secret service_account) (tick first ∷ wakes)
