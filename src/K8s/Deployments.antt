-- ===== src/K8s/Deployments.antt =====
-- SuspendDeployment, ResumeDeployment and RolloutRestartDeployment of pkg/k8s/client.go.
pub mod Restored
use dpu_simulator.Base.{
  ℕ, ◌^◌, ◌-◌, Bool, false, true, List, Option, none, some, String, str_eq, if◌then◌else◌, ◌&&◌,
  not, ◌==◌,
}
use dpu_simulator.Base.Int.{ℤ, pos, negsuc, ltb_ℤ, leb_ℤ}
use dpu_simulator.Base.Maps.{lookup, insert, erase}
use dpu_simulator.Base.Text.{codes, atoi, itoa_int, Bytes}
use dpu_simulator.Platform.Executor.{Action}
use dpu_simulator.K8s.Api.{Api, Answer, found, not_found, unavailable, Deployment}

abbrev pub suspend_replicas_key : String
suspend_replicas_key = "dpu-sim.io/suspend-replicas"

abbrev pub restarted_at_key : String
restarted_at_key = "kubectl.kubernetes.io/restartedAt"

unfoldable pub in_32_bits : Option ℤ → Option ℤ
in_32_bits none = none
in_32_bits (some n) =
    if leb_ℤ (negsuc (2 ^ 31 - 1)) n && ltb_ℤ n (pos (2 ^ 31)) then some n else none

-- strconv.ParseInt(s, 10, 32).
unfoldable pub parse_int_32 : Bytes → Option ℤ
unfolding in_32_bits
parse_int_32 s = in_32_bits (atoi s)

-- What is read of a map under a key that is not there.
unfoldable pub or_empty : Option String → String
or_empty none = ""
or_empty (some s) = s

unfoldable pub has_no_replicas : Option ℤ → Bool
has_no_replicas (some (pos n)) = n == 0
has_no_replicas r = false

-- `prev`.
unfoldable pub replicas_or_one : Option ℤ → ℤ
replicas_or_one none = pos 1
replicas_or_one (some n) = n

-- A count that is saved already is kept.
unfoldable pub save_replicas : ℤ → Option String → List (String × String) → List (String × String)
save_replicas prev (some saved) m = m
save_replicas prev none m = insert suspend_replicas_key (itoa_int prev) m

unfoldable pub suspended : Deployment → Deployment
unfolding save_replicas replicas_or_one
suspended d = record d {
  annotations =
      save_replicas (replicas_or_one d.replicas) (lookup suspend_replicas_key d.annotations)
        d.annotations;
  replicas = some (pos 0);
}

-- `n`: a count that cannot be read or is not positive is 1.
unfoldable pub saved_replicas : Option ℤ → ℤ
saved_replicas none = pos 1
saved_replicas (some n) = if ltb_ℤ n (pos 1) then pos 1 else n

unfoldable pub resumed_from : String → Deployment → Deployment
unfolding saved_replicas parse_int_32
resumed_from saved d =
    if not (str_eq saved "")
    then record d {
      annotations = erase suspend_replicas_key d.annotations;
      replicas = some (saved_replicas (parse_int_32 (codes saved)));
    }
    else record d { replicas = some (pos 1) }

unfoldable pub resumed : Deployment → Deployment
unfolding resumed_from or_empty
resumed d = resumed_from (or_empty (lookup suspend_replicas_key d.annotations)) d

module _ {W : Type 0} (api : Api W) where
  -- How each of the operations begins: a deployment that is not there is an error, or nothing to do.
  unfoldable pub with_deployment :
      String → String → Bool → (Deployment → Action W Unit) → Action W Unit
  with_deployment namespace name ignore_not_found change w =
      let w' = (api.get_deployment namespace name w).1 in
      elim (api.get_deployment namespace name w).0 [
        | found d ↦ change d w'
        | not_found ↦ (if ignore_not_found then some tt else none, w')
        | unavailable ↦ (none, w')
      ]

  unfoldable pub suspend_deployment : String → String → Bool → Action W Unit
  unfolding with_deployment suspended has_no_replicas
  suspend_deployment namespace name ignore_not_found =
      with_deployment namespace name ignore_not_found (λ d w.
        if has_no_replicas d.replicas
        then (some tt, w)
        else api.update_deployment namespace (suspended d) w)

  unfoldable pub resume_deployment : String → String → Bool → Action W Unit
  unfolding with_deployment resumed
  resume_deployment namespace name ignore_not_found =
      with_deployment namespace name ignore_not_found
        (λ d. api.update_deployment namespace (resumed d))

  -- `now` is the time as it is written.
  unfoldable pub rollout_restart_deployment : String → String → String → Bool → Action W Unit
  unfolding with_deployment
  rollout_restart_deployment now namespace name ignore_not_found =
      with_deployment namespace name ignore_not_found (λ d.
        api.update_deployment namespace
          (record d { template_annotations = insert restarted_at_key now d.template_annotations }))
