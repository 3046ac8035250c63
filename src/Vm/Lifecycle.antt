-- ===== src/Vm/Lifecycle.antt =====
-- The operations of pkg/vm/lifecycle.go on one VM.
use dpu_simulator.Base.{
  ◌≡◌, ◌∙◌, ap, subst, sym, refl, inl, inr, Bool, true, false, none, some, String, if◌then◌else◌,
}
use dpu_simulator.Platform.Executor.{Action, done, fail, ◌>>=◌, >>=-some, >>=-first}
use dpu_simulator.Vm.{Libvirt, active_domain, start_vm, stop_vm, destroy_vm, reboot_vm}
use dpu_simulator.Vm.States.{
  VmState, absent, shut_off, running, transient, is_defined, is_running, destroyed, States, Domains,
  Operation, start, stop, destroy, reboot, Step, starts, heeds, goes_on, destroys, reboots,
}

-- What a success of the operations has gone through.
module _ {W : Type 0} (v : Libvirt W) (state : W → States) (laws : Domains v state) where
  pub is_active_lem :
      (n : String) (w : W) (b : Bool) → (v.is_active n w).0 ≡ some b → is_running (state w n) ≡ b
  is_active_lem n w b e = elim (laws.active_answer n w) [ inl f ↦ cc | inr f ↦ cc ]

  pub active_domain_lem :
      (n : String) (w : W) (b : Bool)
      → (active_domain v n w).0 ≡ some b
      → (is_defined (state w n) ≡ true)
        × (is_running (state w n) ≡ b)
        × (state (active_domain v n w).1 ≡ state w)
  unfolding active_domain
  active_domain_lem n w b ok =
      let (tt, e) = >>=-first (v.lookup n) (λ _. v.is_active n) w ok in
      let next = >>=-some (v.lookup n) (λ _. v.is_active n) w e in
      let w1 : W = (v.lookup n w).1 in
      (
        laws.lookup_found n w e,
        ap (λ t. is_running (t n)) (sym (laws.lookup_keeps n w))
            ∙ is_active_lem n w1 b (sym (ap (λ p. p.0) next) ∙ ok),
        ap (λ p. state p.1) next ∙ laws.active_keeps n w1 ∙ laws.lookup_keeps n w,
      )

  -- An operation that tests whether the VM is active, and then does one of two things.
  module _ (op : Operation) (n : String) (a c : Action W Unit) where
    abbrev Ends : Bool → Action W Unit → Type 0
    Ends b m =
        (w w1 : W)
        → state w1 ≡ state w
        → is_defined (state w n) ≡ true
        → is_running (state w n) ≡ b
        → (m w1).0 ≡ some tt
        → Step op (state w n) (state (m w1).1 n)

    abbrev tested : Action W Unit
    tested = active_domain v n >>= λ b. if b then a else c

    tested-Step :
        Ends true a
        → Ends false c
        → (w : W) → (tested w).0 ≡ some tt
        → Step op (state w n) (state (tested w).1 n)
    tested-Step ha hc w ok =
        let (b, e) = >>=-first (active_domain v n) (λ b. if b then a else c) w ok in go b e
      where
        go :
            (b : Bool)
            → (active_domain v n w).0 ≡ some b
            → Step op (state w n) (state (tested w).1 n)
        go b e =
            let next = >>=-some (active_domain v n) (λ b. if b then a else c) w e in
            let (d, r, k) = active_domain_lem n w b e in
            subst (λ p. Step op (state w n) (state p.1 n)) (sym next)
              (branch b r k d (sym (ap (λ p. p.0) next) ∙ ok))
          where
            branch :
                (b : Bool)
                → is_running (state w n) ≡ b
                → state (active_domain v n w).1 ≡ state w
                → is_defined (state w n) ≡ true
                → ((if b then a else c) (active_domain v n w).1).0 ≡ some tt
                → Step op (state w n) (state ((if b then a else c) (active_domain v n w).1).1 n)
            branch true r k d ok = ha w (active_domain v n w).1 k d r ok
            branch false r k d ok = hc w (active_domain v n w).1 k d r ok

  failed_not : ¬ (none ≡ some (tt {0}))
  failed_not h = cc

  idle : (s : VmState) → is_defined s ≡ true → is_running s ≡ false → s ≡ shut_off
  unfolding is_defined is_running
  idle absent d r = cc
  idle shut_off d r = refl
  idle running d r = cc
  idle transient d r = cc

  pub start-Step :
      (n : String) (w : W)
      → (start_vm v n w).0 ≡ some tt
      → Step start (state w n) (state (start_vm v n w).1 n)
  unfolding start_vm
  start-Step n =
      tested-Step start n fail (v.create n) (λ w w1 k d r ok. absurd (failed_not ok))
        (λ w w1 k d r ok.
          subst (Step start (state w n)) (sym ((laws.create_sets n w1).0 ok).0)
            (subst (λ s. Step start s running) (sym (idle _ d r)) starts))

  pub stop-Step :
      (n : String) (w : W)
      → (stop_vm v n w).0 ≡ some tt
      → Step stop (state w n) (state (stop_vm v n w).1 n)
  unfolding stop_vm
  stop-Step n =
      tested-Step stop n (v.shutdown n) fail
        (λ w w1 k d r ok. elim (laws.shutdown_sets n w1) [
          | inl same ↦ subst (Step stop (state w n)) (sym (ap (λ t. t n) (same ∙ k))) (goes_on r)
          | inr (e, _) ↦
              subst (Step stop (state w n)) (sym (e ∙ ap (λ t. destroyed (t n)) k)) (heeds r)
        ])
        (λ w w1 k d r ok. absurd (failed_not ok))

  pub destroy-Step :
      (n : String) (w : W)
      → (destroy_vm v n w).0 ≡ some tt
      → Step destroy (state w n) (state (destroy_vm v n w).1 n)
  unfolding destroy_vm destroyed
  destroy-Step n =
      tested-Step destroy n (v.destroy n) (done tt)
        (λ w w1 k d r ok.
          subst (Step destroy (state w n))
            (sym (((laws.destroy_sets n w1).0 ok).0 ∙ ap (λ t. destroyed (t n)) k)) (destroys d))
        (λ w w1 k d r ok.
          subst (Step destroy (state w n))
            (ap destroyed (idle _ d r) ∙ sym (idle _ d r) ∙ ap (λ t. t n) (sym k)) (destroys d))

  pub reboot-Step :
      (n : String) (w : W)
      → (reboot_vm v n w).0 ≡ some tt
      → Step reboot (state w n) (state (reboot_vm v n w).1 n)
  unfolding reboot_vm
  reboot-Step n =
      tested-Step reboot n (v.reboot n) fail
        (λ w w1 k d r ok.
          subst (Step reboot (state w n)) (sym (ap (λ t. t n) (laws.reboot_keeps n w1 ∙ k)))
            (reboots r))
        (λ w w1 k d r ok. absurd (failed_not ok))
