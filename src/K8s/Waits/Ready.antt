-- ===== src/K8s/Waits/Ready.antt =====
-- When the waits of pkg/k8s/client.go return, and with what.
use dpu_simulator.Base.{
  ◌≤◌, ◌≡◌, ◌∙◌, sym, refl, ◌↔◌, ◌⊎◌, inl, inr, Bool, true, false, ◌&&◌, List, [], ◌∷◌, Option,
  none, some, length, All, In, here, there, arith, &&-eq-true, Option-cases, ◌≢◌,
}
use dpu_simulator.Base.Int.{pos, ◌≤ℤ◌, leb_ℤ}
use dpu_simulator.K8s.Api.{Deployment, Pod, is_pod_ready, is_deployment_available}
use dpu_simulator.K8s.Deployments.{replicas_or_one}
use dpu_simulator.K8s.Waits.{
  Wake, context_done, tick, Verdict, again, finish, abort, wait_loop, ready_count, all_ready,
  is_settled, Snapshot, judge_listed, judge_settled, judge_snapshot, finish_if,
  wait_for_deployment_pods_ready,
}

-- The run in which every tick before the last leaves the loop waiting, and the last finishes it.
pub data FinishesAt {A : Type 0} (judge : A → Verdict) : List (Wake A) → A → Type 0 where
  now : {a : A} {wakes : List (Wake A)} → judge a ≡ finish → FinishesAt judge (tick a ∷ wakes) a
  later :
      {a b : A} {wakes : List (Wake A)}
      → judge a ≡ again
      → FinishesAt judge wakes b
      → FinishesAt judge (tick a ∷ wakes) b

Verdict-cases : (v : Verdict) → (v ≡ again) ⊎ ((v ≡ finish) ⊎ (v ≡ abort))
Verdict-cases again = inl refl
Verdict-cases finish = inr (inl refl)
Verdict-cases abort = inr (inr refl)

again≢finish : again ≢ finish
again≢finish e = cc

again≢abort : again ≢ abort
again≢abort e = cc

module _ {A : Type 0} (judge : A → Verdict) where
  FinishesAt-wait_loop :
      {wakes : List (Wake A)} {a : A} → FinishesAt judge wakes a → wait_loop judge wakes ≡ some true
  unfolding wait_loop
  FinishesAt-wait_loop (now e) = rw e refl
  FinishesAt-wait_loop (later e rest) = rw e (FinishesAt-wait_loop rest)

  wait_loop-FinishesAt :
      (wakes : List (Wake A))
      → wait_loop judge wakes ≡ some true
      → (a : A) × FinishesAt judge wakes a
  unfolding wait_loop
  wait_loop-FinishesAt [] h = cc
  wait_loop-FinishesAt (context_done ∷ wakes) h = cc
  wait_loop-FinishesAt (tick a ∷ wakes) h = elim (Verdict-cases (judge a)) [
    | inl e ↦
        let (b, rest) = wait_loop-FinishesAt wakes (rw (e, wait_loop) at h) in (b, later e rest)
    | inr (inl e) ↦ (a, now e)
    | inr (inr e) ↦ cc
  ]

  -- A wait returns once its context is done.
  pub wait_loop_ends :
      (wakes : List (Wake A))
      → In context_done wakes
      → (b : Bool) × (wait_loop judge wakes ≡ some b)
  unfolding wait_loop
  wait_loop_ends [] m = elim m [ ]
  wait_loop_ends (context_done ∷ wakes) m = (false, refl)
  wait_loop_ends (tick a ∷ wakes) (here e) = cc
  wait_loop_ends (tick a ∷ wakes) (there m) = elim (Verdict-cases (judge a)) [
    | inl e ↦ let (b, rest) = wait_loop_ends wakes m in (b, rw (e, wait_loop) rest)
    | inr (inl e) ↦ (true, rw e refl)
    | inr (inr e) ↦ (false, rw e refl)
  ]

abbrev IsReadyPod : Pod → Type 0
IsReadyPod pod = is_pod_ready pod ≡ true

-- The server has seen the last change of the deployment, calls it available, and lists at least as many
-- pods as it asks for, all of them ready.
pub record IsReady (s : Snapshot) : Type 0 where
  pub d : Deployment
  pub pod : Pod
  pub pods : List Pod
  pub is_there : s.deployment ≡ some d
  pub is_observed : d.generation ≤ d.observed_generation
  pub is_available : is_deployment_available d ≡ true
  pub is_selected : s.selector_valid ≡ true
  pub are_listed : s.pods ≡ some (pod ∷ pods)
  pub are_ready : All IsReadyPod (pod ∷ pods)
  pub are_enough : replicas_or_one d.replicas ≤ℤ pos (length (pod ∷ pods))

-- A deployment that is available, with a selector that is none.
pub record IsBroken (s : Snapshot) : Type 0 where
  pub d : Deployment
  pub is_there : s.deployment ≡ some d
  pub is_observed : d.generation ≤ d.observed_generation
  pub is_available : is_deployment_available d ≡ true
  pub is_selected : s.selector_valid ≡ false

all_ready-All : (pods : List Pod) → all_ready pods ≡ true → All IsReadyPod pods
unfolding all_ready
all_ready-All [] h = tt
all_ready-All (pod ∷ pods) h = let (p, rest) = &&-eq-true h in (p, all_ready-All pods rest)

All-all_ready : (pods : List Pod) → All IsReadyPod pods → all_ready pods ≡ true
unfolding all_ready
All-all_ready [] h = refl
All-all_ready (pod ∷ pods) h = rw (h.0, All-all_ready pods h.1) refl

ready_count-length : (pods : List Pod) → All IsReadyPod pods → ready_count pods ≡ length pods
unfolding ready_count
ready_count-length [] h = refl
ready_count-length (pod ∷ pods) h = rw (h.0, ready_count-length pods h.1) refl

is_settled_parts :
    (d : Deployment)
    → is_settled d ≡ true
    → (d.generation ≤ d.observed_generation) × (is_deployment_available d ≡ true)
unfolding is_settled
is_settled_parts d h = ground arith

is_settled_of :
    (d : Deployment)
    → d.generation ≤ d.observed_generation
    → is_deployment_available d ≡ true
    → is_settled d ≡ true
unfolding is_settled
is_settled_of d h a = ground arith

judge_there :
    (s : Snapshot) (d : Deployment) → s.deployment ≡ some d → judge_snapshot s ≡ judge_settled d s
unfolding judge_snapshot
judge_there s d e = rw e refl

judge_none : (s : Snapshot) → s.deployment ≡ none → judge_snapshot s ≡ again
unfolding judge_snapshot
judge_none s e = rw e refl

IsReady-finish : (s : Snapshot) → IsReady s → judge_snapshot s ≡ finish
unfolding judge_settled judge_listed finish_if
IsReady-finish s r =
    let open_d = is_settled_of r.d r.is_observed r.is_available in
    let ready = All-all_ready (r.pod ∷ r.pods) r.are_ready in
    let count = ready_count-length (r.pod ∷ r.pods) r.are_ready in
    judge_there s r.d r.is_there
    ∙ rw (open_d, r.is_selected, r.are_listed, ready, count) (ground (arith, r.are_enough))

IsBroken-abort : (s : Snapshot) → IsBroken s → judge_snapshot s ≡ abort
unfolding judge_settled
IsBroken-abort s b =
    judge_there s b.d b.is_there
    ∙ rw (is_settled_of b.d b.is_observed b.is_available, b.is_selected) refl

-- What an answer without an error and with a pod is.
judge_listed-finish :
    (d : Deployment) (o : Option (List Pod))
    → judge_listed d o ≡ finish
    → (pod : Pod) × (pods : List Pod) × (o ≡ some (pod ∷ pods))
      × All IsReadyPod (pod ∷ pods)
      × (replicas_or_one d.replicas ≤ℤ pos (length (pod ∷ pods)))
unfolding judge_listed finish_if
judge_listed-finish d none h = cc
judge_listed-finish d (some []) h = cc
judge_listed-finish d (some (pod ∷ pods)) h =
    let both : (all_ready (pod ∷ pods)
          && leb_ℤ (replicas_or_one d.replicas) (pos (ready_count (pod ∷ pods))))
        ≡ true =
      ground arith in
    let (all, enough) = &&-eq-true both in
    let ready = all_ready-All (pod ∷ pods) all in
    (pod, pods, refl, ready, ground (arith, ready_count-length (pod ∷ pods) ready, enough))

judge_listed-abort : (d : Deployment) (o : Option (List Pod)) → judge_listed d o ≢ abort
unfolding judge_listed finish_if
judge_listed-abort d none h = cc
judge_listed-abort d (some []) h = cc
judge_listed-abort d (some (pod ∷ pods)) h = ground arith

judge_settled-open :
    (d : Deployment) (s : Snapshot) → judge_settled d s ≢ again → is_settled d ≡ true
unfolding judge_settled
judge_settled-open d s h = ground arith

finish-IsReady : (s : Snapshot) → judge_snapshot s ≡ finish → IsReady s
unfolding judge_settled
finish-IsReady s h = elim (Option-cases s.deployment) [
  | inl e ↦ absurd (again≢finish (sym (judge_none s e) ∙ h))
  | inr (d, e) ↦
      let h' = sym (judge_there s d e) ∙ h in
      let open_d : is_settled d ≡ true = ground (arith, h') in
      let (observed, available) = is_settled_parts d open_d in
      let valid : s.selector_valid ≡ true = ground (arith, h') in
      let listed : judge_listed d s.pods ≡ finish = ground (arith, h') in
      let (pod, pods, l, r, n) = judge_listed-finish d s.pods listed in
      record {
        d = d;
        pod = pod;
        pods = pods;
        is_there = e;
        is_observed = observed;
        is_available = available;
        is_selected = valid;
        are_listed = l;
        are_ready = r;
        are_enough = n;
      }
]

abort-IsBroken : (s : Snapshot) → judge_snapshot s ≡ abort → IsBroken s
unfolding judge_settled
abort-IsBroken s h = elim (Option-cases s.deployment) [
  | inl e ↦ absurd (again≢abort (sym (judge_none s e) ∙ h))
  | inr (d, e) ↦
      let h' = sym (judge_there s d e) ∙ h in
      let open_d : is_settled d ≡ true = ground (arith, h') in
      let (observed, available) = is_settled_parts d open_d in
      let invalid : s.selector_valid ≡ false = ground (arith, h', judge_listed-abort d s.pods) in
      record {
        d = d;
        is_there = e;
        is_observed = observed;
        is_available = available;
        is_selected = invalid;
      }
]

-- The first wakes are ticks that do not meet a broken selector, up to one that shows all ready.
pub data BecomesReady : List (Wake Snapshot) → Type 0 where
  at_last :
      {s : Snapshot} {wakes : List (Wake Snapshot)} → IsReady s → BecomesReady (tick s ∷ wakes)
  before :
      {s : Snapshot} {wakes : List (Wake Snapshot)}
      → ¬ IsBroken s
      → BecomesReady wakes
      → BecomesReady (tick s ∷ wakes)

FinishesAt-BecomesReady :
    {wakes : List (Wake Snapshot)} {s : Snapshot}
    → FinishesAt judge_snapshot wakes s
    → BecomesReady wakes
FinishesAt-BecomesReady (now {a = a} e) = at_last (finish-IsReady a e)
FinishesAt-BecomesReady (later {a = a} e rest) =
    before (λ b. again≢abort (sym e ∙ IsBroken-abort a b)) (FinishesAt-BecomesReady rest)

BecomesReady-wait_loop :
    {wakes : List (Wake Snapshot)} → BecomesReady wakes → wait_loop judge_snapshot wakes ≡ some true
unfolding wait_loop
BecomesReady-wait_loop (at_last {s = s} r) = rw (IsReady-finish s r) refl
BecomesReady-wait_loop (before {s = s} intact rest) = elim (Verdict-cases (judge_snapshot s)) [
  | inl e ↦ rw e (BecomesReady-wait_loop rest)
  | inr (inl e) ↦ rw e refl
  | inr (inr e) ↦ absurd (intact (abort-IsBroken s e))
]

-- The wait returns without an error exactly where a tick before the end of the context shows that the
-- server has seen the last change of the deployment, that it is available, and that it has all its pods,
-- at least one and each of them ready, and no tick before that meets an available deployment with a selector that is none.
pub wait_for_deployment_pods_ready-BecomesReady :
    (wakes : List (Wake Snapshot))
    → (wait_for_deployment_pods_ready wakes ≡ some true) ↔ BecomesReady wakes
unfolding wait_for_deployment_pods_ready
wait_for_deployment_pods_ready-BecomesReady wakes = (
  λ h. FinishesAt-BecomesReady (wait_loop-FinishesAt judge_snapshot wakes h).1,
  BecomesReady-wait_loop,
)
