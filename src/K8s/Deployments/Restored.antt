-- ===== src/K8s/Deployments/Restored.antt =====
-- What ResumeDeployment gives back after SuspendDeployment, under the documented behaviour of the API server.
use dpu_simulator.Base.{
  ◌≢◌, ℕ, suc, ◌^◌, ◌<◌, ◌≡◌, ◌∙◌, ap, sym, subst, refl, ◌⊎◌, inl, inr, Bool, false, List, Option,
  none, some, String, str_eq, str_eq_iff, str_eq_refl, if◌then◌else◌, ◌==◌, arith, Bool-cases,
}
use dpu_simulator.Base.Int.{ℤ, pos, negsuc}
use dpu_simulator.Base.Maps.{lookup, insert, erase, lookup-insert, lookup-erase}
use dpu_simulator.Base.Text.{codes, itoa, itoa_int, atoi-itoa, itoa-ne-nil}
use dpu_simulator.Platform.Executor.{Action}
use dpu_simulator.K8s.Api.{Api, Answer, found, not_found, unavailable, Deployment}
use dpu_simulator.K8s.Deployments.{
  suspend_replicas_key, parse_int_32, or_empty, has_no_replicas, suspended, save_replicas,
  saved_replicas, replicas_or_one, in_32_bits, resumed_from, resumed, with_deployment,
  suspend_deployment, resume_deployment,
}

-- The deployments that the server holds, by namespace and name.
abbrev pub Deployments : Type 0
Deployments = String → String → Option Deployment

-- What of a deployment an update sets.
abbrev pub Agree : Deployment → Deployment → Type 0
Agree d e = (d.name ≡ e.name) × (d.replicas ≡ e.replicas) × (d.annotations ≡ e.annotations)

abbrev pub answer_of : Option Deployment → Answer Deployment
answer_of none = not_found
answer_of (some d) = found d

abbrev pub OthersKept : String → String → Deployments → Deployments → Type 0
OthersKept namespace name before after =
    (ns n : String) → ¬ ((ns ≡ namespace) × (n ≡ name)) → after ns n ≡ before ns n

-- The documentation of the API server: a deployment is read as it is held, under its name, and an update
-- that succeeds holds what it was sent (nobody else writes in between).
pub record Server {W : Type 0} (api : Api W) (held : W → Deployments) : Type 0 where
  pub get_answer :
      (ns n : String) (w : W)
      → ((api.get_deployment ns n w).0 ≡ unavailable)
        ⊎ ((api.get_deployment ns n w).0 ≡ answer_of (held w ns n))
  pub get_keeps : (ns n : String) (w : W) → held (api.get_deployment ns n w).1 ≡ held w
  pub named : (w : W) (ns n : String) (d : Deployment) → held w ns n ≡ some d → d.name ≡ n
  pub update_sets :
      (ns : String) (d : Deployment) (w : W)
      → (api.update_deployment ns d w).0 ≡ some tt
      → (e : Deployment) × (held (api.update_deployment ns d w).1 ns d.name ≡ some e)
        × Agree e d
        × OthersKept ns d.name (held w) (held (api.update_deployment ns d w).1)

module _ {W : Type 0} (api : Api W) (held : W → Deployments) (laws : Server api held) where
  -- A change of a deployment that is there has been made on what the server held.
  with_deployment_lem :
      (ns n : String) (ignore : Bool) (change : Deployment → Action W Unit) (w : W) (d : Deployment)
      → held w ns n ≡ some d
      → (with_deployment api ns n ignore change w).0 ≡ some tt
      → with_deployment api ns n ignore change w ≡ change d (api.get_deployment ns n w).1
  unfolding with_deployment
  with_deployment_lem ns n ignore change w d h ok =
      elim (laws.get_answer ns n w)
        as (λ _.
          with_deployment api ns n ignore change w ≡ change d (api.get_deployment ns n w).1) [
            | inl e ↦ absurd (none≢some (rw (e, with_deployment) at ok))
            | inr e ↦
                let e' : (api.get_deployment ns n w).0 ≡ found d = e ∙ ap answer_of h in
                rw (e', with_deployment) refl
          ]
    where
      none≢some : ¬ (◌≡◌ {A = Option (Unit {0})} none (some tt))
      none≢some e = cc

  -- The update of a deployment that was read and changed without its name.
  updated :
      (ns n : String) (w : W) (d : Deployment) (change : Deployment → Deployment)
      → held w ns n ≡ some d
      → (change d).name ≡ d.name
      → let w' = (api.get_deployment ns n w).1 in
        (api.update_deployment ns (change d) w').0 ≡ some tt
        → (e : Deployment) × (held (api.update_deployment ns (change d) w').1 ns n ≡ some e)
          × Agree e (change d)
          × OthersKept ns n (held w) (held (api.update_deployment ns (change d) w').1)
  updated ns n w d change h same ok =
      let w' = (api.get_deployment ns n w).1 in
      let dn = same ∙ laws.named w ns n d h in
      let (e, at, agree, others) = laws.update_sets ns (change d) w' ok in
      (
        e,
        subst (λ m. held (api.update_deployment ns (change d) w').1 ns m ≡ some e) dn at,
        agree,
        λ ns' n' ne.
            others ns' n' (λ p. ne (p.0, p.1 ∙ dn)) ∙ ap (λ t. t ns' n') (laws.get_keeps ns n w),
      )

  -- What is held after an operation on `d` that has sent `change d`.
  abbrev Sent : String → String → (Deployment → Deployment) → Deployment → W → W → Type 0
  Sent ns n change d w w' =
      (e : Deployment) × (held w' ns n ≡ some e)
      × Agree e (change d)
      × OthersKept ns n (held w) (held w')

  suspend-Sent :
      (ns n : String) (ignore : Bool) (w : W) (d : Deployment)
      → held w ns n ≡ some d
      → has_no_replicas d.replicas ≡ false
      → (suspend_deployment api ns n ignore w).0 ≡ some tt
      → Sent ns n suspended d w (suspend_deployment api ns n ignore w).1
  unfolding suspend_deployment suspended
  suspend-Sent ns n ignore w d h runs ok =
      let change : Deployment → Action W Unit = λ d w.
        if has_no_replicas d.replicas
        then (some tt, w)
        else api.update_deployment ns (suspended d) w in
      let is_update = with_deployment_lem ns n ignore change w d h ok ∙ rw runs refl in
      subst (λ p. Sent ns n suspended d w p.1) (sym is_update)
        (updated ns n w d suspended h refl (ap (λ p. p.0) (sym is_update) ∙ ok))

  resumed_name : (saved : String) (d : Deployment) → (resumed_from saved d).name ≡ d.name
  unfolding resumed_from
  resumed_name saved d = ground arith

  resume-Sent :
      (ns n : String) (ignore : Bool) (w : W) (d : Deployment)
      → held w ns n ≡ some d
      → (resume_deployment api ns n ignore w).0 ≡ some tt
      → Sent ns n resumed d w (resume_deployment api ns n ignore w).1
  unfolding resume_deployment
  resume-Sent ns n ignore w d h ok =
      let is_update =
        with_deployment_lem ns n ignore (λ d. api.update_deployment ns (resumed d)) w d h ok in
      let same : (resumed d).name ≡ d.name = unfold resumed in resumed_name _ d in
      subst (λ p. Sent ns n resumed d w p.1) (sym is_update)
        (updated ns n w d resumed h same (ap (λ p. p.0) (sym is_update) ∙ ok))

has_replicas : (r : Option ℤ) → r ≢ some (pos 0) → has_no_replicas r ≡ false
unfolding has_no_replicas
has_replicas none runs = refl
has_replicas (some (negsuc n)) runs = refl
has_replicas (some (pos n)) runs = elim (Bool-cases (n == 0)) [
  | inl e ↦ let same : n ≡ 0 = ground arith in absurd (runs (ap (λ k. some (pos k)) same))
  | inr e ↦ e
]

saved_replicas-itoa :
    (k : ℕ)
    → k < 2 ^ 31
    → saved_replicas (parse_int_32 (codes (itoa k))) ≡ pos (if k == 0 then 1 else k)
unfolding saved_replicas parse_int_32
saved_replicas-itoa k h =
    ap (λ o. saved_replicas (in_32_bits o)) (atoi-itoa k (omega arith)) ∙ ground arith

itoa-ne-empty : (k : ℕ) → str_eq (itoa k) "" ≡ false
itoa-ne-empty k = elim (Bool-cases (str_eq (itoa k) "")) [
  | inl e ↦ absurd (itoa-ne-nil k (ap codes ((str_eq_iff (itoa k) "").0 e)))
  | inr e ↦ e
]

-- A suspended deployment has its count saved, unless one was saved already.
lookup-suspended :
    (d : Deployment) (k : ℕ)
    → d.replicas ≡ some (pos k)
    → lookup suspend_replicas_key d.annotations ≡ none
    → lookup suspend_replicas_key (suspended d).annotations ≡ some (itoa k)
unfolding suspended itoa_int replicas_or_one save_replicas
lookup-suspended d k r none_saved =
    rw (none_saved, r)
      (lookup-insert suspend_replicas_key suspend_replicas_key (itoa k) d.annotations
        ∙ rw (str_eq_refl suspend_replicas_key) refl)

-- What resuming makes of a deployment, by the count that is saved.
resumed-replicas :
    (d : Deployment) (saved : String)
    → lookup suspend_replicas_key d.annotations ≡ some saved
    → str_eq saved "" ≡ false
    → ((resumed d).replicas ≡ some (saved_replicas (parse_int_32 (codes saved))))
      × ((resumed d).annotations ≡ erase suspend_replicas_key d.annotations)
unfolding resumed resumed_from or_empty
resumed-replicas d saved h ne = rw (h, ne) (refl, refl)

-- Saving a count and erasing it again.
erase-insert :
    (j v : String) (m : List (String × String))
    → lookup suspend_replicas_key m ≡ none
    → lookup j (erase suspend_replicas_key (insert suspend_replicas_key v m)) ≡ lookup j m
erase-insert j v m h = ground (
  arith,
  lookup-erase suspend_replicas_key j (insert suspend_replicas_key v m),
  lookup-insert suspend_replicas_key j v m,
  str_eq_iff suspend_replicas_key j,
)

erased :
    (d : Deployment) (key : String)
    → lookup suspend_replicas_key d.annotations ≡ none
    → lookup key (erase suspend_replicas_key (suspended d).annotations) ≡ lookup key d.annotations
unfolding suspended save_replicas
erased d key h = rw h (erase-insert key _ d.annotations h)

suspended_saved :
    (d : Deployment) (saved : String)
    → lookup suspend_replicas_key d.annotations ≡ some saved
    → (suspended d).annotations ≡ d.annotations
unfolding suspended save_replicas
suspended_saved d saved h = rw h refl

module _ {W : Type 0} (api : Api W) (held : W → Deployments) (laws : Server api held) where
  -- Under the documented behaviour of the API server, a deployment with replicas and no saved count is
  -- scaled to zero where it is suspended without an error, and where it is resumed after that without
  -- an error it has the replicas and the annotations that it had; no other deployment has changed.
  pub resume-suspend :
      (ns n : String) (ignore ignore' : Bool) (w : W) (d : Deployment) (k : ℕ)
      → held w ns n ≡ some d
      → d.replicas ≡ some (pos (suc k))
      → suc k < 2 ^ 31
      → lookup suspend_replicas_key d.annotations ≡ none
      → let s = suspend_deployment api ns n ignore w in
        let r = resume_deployment api ns n ignore' s.1 in
        s.0 ≡ some tt
        → r.0 ≡ some tt
        → (e f : Deployment) × (held s.1 ns n ≡ some e)
          × (e.replicas ≡ some (pos 0))
          × (held r.1 ns n ≡ some f)
          × (f.replicas ≡ d.replicas)
          × ((key : String) → lookup key f.annotations ≡ lookup key d.annotations)
          × OthersKept ns n (held w) (held r.1)
  unfolding suspended has_no_replicas
  resume-suspend ns n ignore ignore' w d k h reps fits unsaved ok ok' =
      let runs : has_no_replicas d.replicas ≡ false = rw reps (ground arith) in
      let (e, at, agree, others) = suspend-Sent api held laws ns n ignore w d h runs ok in
      let w' = (suspend_deployment api ns n ignore w).1 in
      let (f, at', agree', others') = resume-Sent api held laws ns n ignore' w' e at ok' in
      let saved =
        ap (lookup suspend_replicas_key) agree.2 ∙ lookup-suspended d (suc k) reps unsaved in
      let (replicas, annotations) =
        resumed-replicas e (itoa (suc k)) saved (itoa-ne-empty (suc k)) in
      (
        e,
        f,
        at,
        agree.1,
        at',
        agree'.1 ∙ replicas ∙ ap some (saved_replicas-itoa (suc k) fits ∙ ground arith) ∙ sym reps,
        λ key.
            ap (lookup key) (agree'.2 ∙ annotations ∙ ap (erase suspend_replicas_key) agree.2)
            ∙ erased d key unsaved,
        λ ns' n' ne. others' ns' n' ne ∙ others ns' n' ne,
      )

  -- Under the documented behaviour of the API server, a deployment with replicas that carries a saved
  -- count that fits 32 bits (since it was scaled up by hand while it was suspended), and that is suspended
  -- and resumed without an error, is resumed with that count, or with 1 if that count is 0, whatever number
  -- of replicas it had when it was suspended again.
  pub resume-suspend_stale :
      (ns n : String) (ignore ignore' : Bool) (w : W) (d : Deployment) (k : ℕ)
      → held w ns n ≡ some d
      → d.replicas ≢ some (pos 0)
      → lookup suspend_replicas_key d.annotations ≡ some (itoa k)
      → k < 2 ^ 31
      → let s = suspend_deployment api ns n ignore w in
        let r = resume_deployment api ns n ignore' s.1 in
        s.0 ≡ some tt
        → r.0 ≡ some tt
        → (f : Deployment) × (held r.1 ns n ≡ some f)
          × (f.replicas ≡ some (pos (if k == 0 then 1 else k)))
  resume-suspend_stale ns n ignore ignore' w d k h runs has_saved fits ok ok' =
      let (e, at, agree, others) =
        suspend-Sent api held laws ns n ignore w d h (has_replicas d.replicas runs) ok in
      let w' = (suspend_deployment api ns n ignore w).1 in
      let (f, at', agree', others') = resume-Sent api held laws ns n ignore' w' e at ok' in
      let kept =
        ap (lookup suspend_replicas_key) (agree.2 ∙ suspended_saved d (itoa k) has_saved)
        ∙ has_saved in
      (
        f,
        at',
        agree'.1
            ∙ (resumed-replicas e (itoa k) kept (itoa-ne-empty k)).0
            ∙ ap some (saved_replicas-itoa k fits),
      )
