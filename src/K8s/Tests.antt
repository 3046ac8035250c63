-- ===== src/K8s/Tests.antt =====
-- A server that holds its deployments in memory, and runs on it.
use dpu_simulator.Base.{
  ℕ, ◌≡◌, ap, sym, refl, ◌↔◌, ◌⊎◌, inl, inr, Bool, true, false, ◌&&◌, List, [], ◌∷◌, Option, none,
  some, String, str_eq, str_eq_iff, str_eq_refl, if◌then◌else◌, arith, Bool-cases, &&-eq-true,
}
use dpu_simulator.Base.Int.{pos}
use dpu_simulator.Base.Maps.{lookup}
use dpu_simulator.Base.Text.{codes, atoi, itoa, digits, digit}
use dpu_simulator.Platform.Executor.{Action}
use dpu_simulator.K8s.Api.{
  Api, unavailable, refused, Deployment, Pod, is_pod_ready, is_deployment_available,
}
use dpu_simulator.K8s.Deployments.{
  suspend_deployment, resume_deployment, suspend_replicas_key, saved_replicas, parse_int_32,
}
use dpu_simulator.K8s.Deployments.Restored.{
  Deployments, Server, answer_of, OthersKept, resume-suspend, resume-suspend_stale,
}
use dpu_simulator.K8s.Nodes.{without_taint}
use dpu_simulator.K8s.Waits.{
  wait_loop, judge_snapshot, all_ready, ready_count, Wake, context_done, tick, Snapshot,
  wait_for_deployment_pods_ready,
}
use dpu_simulator.K8s.Waits.Ready.{BecomesReady, wait_for_deployment_pods_ready-BecomesReady}

abbrev is_at : String → String → String → String → Bool
is_at ns n ns' n' = str_eq ns' ns && str_eq n' n

abbrev memory_update : String → Deployment → Action Deployments Unit
memory_update ns d w = (some tt, λ ns' n'. if is_at ns d.name ns' n' then some d else w ns' n')

-- A deployment is read under its own name.
abbrev named : String → Option Deployment → Option Deployment
named n none = none
named n (some d) = some (record d { name = n })

abbrev shown : Deployments → Deployments
shown w ns n = named n (w ns n)

abbrev memory : Api Deployments
memory = record {
  get_deployment = λ ns n w. (answer_of (shown w ns n), w);
  update_deployment = memory_update;
  get_node = λ n w. (none, w);
  update_node = λ n w. (none, w);
  retry_on_conflict = λ a. a;
  list_pods = λ ns l w. (none, w);
  delete_pod = λ ns n w. (none, w);
  get_daemon_set = λ ns n w. (unavailable, w);
  remove_daemon_set = λ ns n w. (none, w);
  create_namespace = λ n w. (refused, w);
  create_service_account = λ ns n w. (refused, w);
}

-- A server that holds one deployment, under its own name.
abbrev coredns : List (String × String) → ℕ → Deployment
coredns annotations k = record {
  name = "coredns";
  annotations = annotations;
  template_annotations = [];
  replicas = some (pos k);
  selector = ("k8s-app", "kube-dns") ∷ [];
  generation = 1;
  observed_generation = 1;
  conditions = record { kind = "Available"; status = "True" } ∷ [];
}

named_name : (n : String) (o : Option Deployment) (d : Deployment) → named n o ≡ some d → d.name ≡ n
named_name n none d h = cc
named_name n (some e) d h = sym (ap name_or h)
  where
    name_or : Option Deployment → String
    name_or none = n
    name_or (some c) = c.name

memory_update_lem :
    (ns : String) (d : Deployment) (w : Deployments)
    → (shown (memory_update ns d w).1 ns d.name ≡ some d)
      × OthersKept ns d.name (shown w) (shown (memory_update ns d w).1)
memory_update_lem ns d w = (
  rw (str_eq_refl ns, str_eq_refl d.name) refl,
  λ ns' n' ne. others ns' n' ne (Bool-cases (is_at ns d.name ns' n')),
)
  where
    others :
        (ns' n' : String)
        → ¬ ((ns' ≡ ns) × (n' ≡ d.name))
        → (is_at ns d.name ns' n' ≡ true) ⊎ (is_at ns d.name ns' n' ≡ false)
        → shown (memory_update ns d w).1 ns' n' ≡ shown w ns' n'
    others ns' n' ne (inl e) =
        let (same_ns, same_n) = &&-eq-true e in
        absurd (ne ((str_eq_iff ns' ns).0 same_ns, (str_eq_iff n' d.name).0 same_n))
    others ns' n' ne (inr e) = rw e refl

memory-Server : Server memory shown
memory-Server = record {
  get_answer = λ ns n w. inr refl;
  get_keeps = λ ns n w. refl;
  named = λ w ns n d h. named_name n (w ns n) d h;
  update_sets = λ ns d w ok.
      (d, (memory_update_lem ns d w).0, (refl, refl, refl), (memory_update_lem ns d w).1);
}

abbrev cluster : Deployment → Deployments
cluster d ns n = if is_at "kube-system" "coredns" ns n then some d else none

abbrev fresh : Deployment
fresh = coredns [] 2

resume-suspend_example :
    let s = suspend_deployment memory "kube-system" "coredns" false (cluster fresh) in
    let r = resume_deployment memory "kube-system" "coredns" false s.1 in
    (e f : Deployment) × (shown s.1 "kube-system" "coredns" ≡ some e)
    × (e.replicas ≡ some (pos 0))
    × (shown r.1 "kube-system" "coredns" ≡ some f)
    × (f.replicas ≡ fresh.replicas)
    × ((key : String) → lookup key f.annotations ≡ lookup key fresh.annotations)
    × OthersKept "kube-system" "coredns" (shown (cluster fresh)) (shown r.1)
unfolding suspend_deployment resume_deployment lookup str_eq
resume-suspend_example =
    resume-suspend memory shown memory-Server "kube-system" "coredns" false false (cluster fresh)
      fresh 1 refl refl (omega arith) refl refl refl

-- Saved as two replicas, then scaled up to five by hand.
abbrev scaled_up : Deployment
scaled_up = coredns ((suspend_replicas_key, "2") ∷ []) 5

five_run : ¬ (some (pos 5) ≡ some (pos 0))
five_run e = grind arith

resume-suspend_stale_example :
    let s = suspend_deployment memory "kube-system" "coredns" false (cluster scaled_up) in
    let r = resume_deployment memory "kube-system" "coredns" false s.1 in
    (f : Deployment) × (shown r.1 "kube-system" "coredns" ≡ some f) × (f.replicas ≡ some (pos 2))
unfolding suspend_deployment resume_deployment lookup str_eq itoa digits digit
resume-suspend_stale_example =
    resume-suspend_stale memory shown memory-Server "kube-system" "coredns" false false
      (cluster scaled_up) scaled_up 2 refl five_run refl (omega arith) refl refl

-- The count that is restored there is two, not five.
stale_count : saved_replicas (parse_int_32 (codes "2")) ≡ pos 2
unfolding saved_replicas parse_int_32 atoi
stale_count = refl

taints :
    without_taint "a" "NoSchedule" (
      record { key = "a"; effect = "NoSchedule" } ∷ record { key = "a"; effect = "NoExecute" } ∷ [])
    ≡ record { key = "a"; effect = "NoExecute" } ∷ []
unfolding without_taint str_eq
taints = refl

abbrev ready_pod : Pod
ready_pod = record {
  name = "coredns-1";
  phase = "Running";
  conditions = record { kind = "Ready"; status = "True" } ∷ [];
}

abbrev shows : Option Deployment → Option (List Pod) → Snapshot
shows d pods = record { deployment = d; selector_valid = true; pods = pods }

-- The pods come late: one of two is not enough.
abbrev rollout : List (Wake Snapshot)
rollout =
    tick (shows none none)
    ∷ tick (shows (some fresh) (some (ready_pod ∷ [])))
    ∷ tick (shows (some fresh) (some (ready_pod ∷ ready_pod ∷ [])))
    ∷ context_done
    ∷ []

rollout_ready : wait_for_deployment_pods_ready rollout ≡ some true
unfolding wait_for_deployment_pods_ready str_eq wait_loop judge_snapshot is_deployment_available
    all_ready is_pod_ready ready_count
rollout_ready = refl

wait_for_deployment_pods_ready-BecomesReady_example :
    (wait_for_deployment_pods_ready rollout ≡ some true) ↔ BecomesReady rollout
wait_for_deployment_pods_ready-BecomesReady_example =
    wait_for_deployment_pods_ready-BecomesReady rollout
