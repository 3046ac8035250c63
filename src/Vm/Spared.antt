-- ===== src/Vm/Spared.antt =====
-- What DeleteVM of pkg/vm/lifecycle.go comes to, and that the operations there change no other VM.
use dpu_simulator.Base.{
  ◌≡◌, ◌∙◌, ap, refl, ◌⊎◌, inl, inr, Bool, false, true, none, String, if◌then◌else◌, Option-cases,
}
use dpu_simulator.Platform.Executor.{Action, done, fail, ◌>>=◌, ◌>>◌}
use dpu_simulator.Vm.{
  Libvirt, active_domain, start_vm, stop_vm, destroy_vm, reboot_vm, delete_domain, delete_vm,
  delete_files,
}
use dpu_simulator.Vm.States.{
  absent, running, is_defined, destroyed, undefined, States, Domains, Operation, start, stop,
  destroy, reboot, delete, perform, Spares, Spares->>=, Keeps-Spares, Sets-Spares, if-Spares,
}
use dpu_simulator.Vm.Delete.{delete_files-Keeps, delete_domain-absent}

module _ {W : Type 0} (v : Libvirt W) (state : W → States) (laws : Domains v state) where
  -- A deletion fails, or the VM is gone, or it was not found and nothing has changed.
  pub delete_vm_cases :
      (n : String) (w : W)
      → ((delete_vm v n w).0 ≡ none)
        ⊎ ((state (delete_vm v n w).1 n ≡ absent)
            ⊎ (((v.lookup n w).0 ≡ none) × (state (delete_vm v n w).1 ≡ state w)))
  unfolding delete_vm
  delete_vm_cases n w = elim (Option-cases (v.lookup n w).0) [
    | inl e ↦ inr (inr (e, rw (e, delete_vm) (laws.lookup_keeps n w)))
    | inr (u, e) ↦ elim (Option-cases (delete_vm v n w).0) [
      | inl failed ↦ inl failed
      | inr (u', ok) ↦ inr (
          inl (
            rw (e, delete_vm)
              (delete_domain-absent v state laws n (v.lookup n w).1 (rw (e, delete_vm) at ok))))
    ]
  ]

  -- An absent VM is deleted without an error.
  pub delete_vm-none :
      (n : String) (w : W) → state w n ≡ absent → state (delete_vm v n w).1 ≡ state w
  unfolding delete_vm is_defined
  delete_vm-none n w h = elim (Option-cases (v.lookup n w).0) [
    | inl e ↦ rw (e, delete_vm) (laws.lookup_keeps n w)
    | inr (u, e) ↦ absurd (false≢true (rw h at (laws.lookup_found n w e)))
  ]
    where
      false≢true : ¬ (false ≡ true)
      false≢true h = cc

  active_domain-Spares : (n : String) → Spares state n (active_domain v n)
  unfolding active_domain
  active_domain-Spares n =
      Spares->>= state n (v.lookup n) (λ _. v.is_active n)
        (Keeps-Spares state n (v.lookup n) (laws.lookup_keeps n))
        (λ _. Keeps-Spares state n (v.is_active n) (laws.active_keeps n))

  tested-Spares :
      (n : String) (a c : Action W Unit)
      → Spares state n a
      → Spares state n c
      → Spares state n (active_domain v n >>= λ b. if b then a else c)
  tested-Spares n a c ha hc =
      Spares->>= state n (active_domain v n) (λ b. if b then a else c) (active_domain-Spares n)
        (λ b. if-Spares state n b a c ha hc)

  nothing : (n : String) → Spares state n (done tt)
  nothing n w m ne = refl

  failing : (n : String) → Spares state n (fail {A = Unit {0}})
  failing n w m ne = refl

  shutdown-Spares : (n : String) → Spares state n (v.shutdown n)
  shutdown-Spares n w m ne = elim (laws.shutdown_sets n w) [
    | inl e ↦ ap (λ t. t m) e
    | inr (_, others) ↦ others m ne
  ]

  delete_domain-Spares : (n : String) → Spares state n (delete_domain v n)
  unfolding delete_domain
  delete_domain-Spares n =
      Spares->>= state n (v.is_active n) (λ b. first b >> rest)
        (Keeps-Spares state n (v.is_active n) (laws.active_keeps n))
        (λ b.
          Spares->>= state n (first b) (λ _. rest)
            (if-Spares state n b (v.destroy n) (done tt)
              (Sets-Spares state n (v.destroy n) destroyed (laws.destroy_sets n)) (nothing n))
            (λ _.
              Spares->>= state n (v.undefine n) (λ _. delete_files v n)
                (Sets-Spares state n (v.undefine n) undefined (laws.undefine_sets n))
                (λ _. Keeps-Spares state n (delete_files v n) (delete_files-Keeps v state laws n))))
    where
      rest : Action W Unit
      rest = v.undefine n >> delete_files v n

      first : Bool → Action W Unit
      first b = if b then v.destroy n else done tt

  pub delete_vm-Spares : (n : String) → Spares state n (delete_vm v n)
  unfolding delete_vm
  delete_vm-Spares n w m ne = elim (Option-cases (v.lookup n w).0) [
    | inl e ↦ rw (e, delete_vm) (ap (λ t. t m) (laws.lookup_keeps n w))
    | inr (u, e) ↦
        rw (e, delete_vm)
          (delete_domain-Spares n (v.lookup n w).1 m ne ∙ ap (λ t. t m) (laws.lookup_keeps n w))
  ]

  pub perform-Spares : (op : Operation) (n : String) → Spares state n (perform v op n)
  unfolding start_vm stop_vm destroy_vm reboot_vm
  perform-Spares start n =
      tested-Spares n fail (v.create n) (failing n)
        (Sets-Spares state n (v.create n) (λ _. running) (laws.create_sets n))
  perform-Spares stop n = tested-Spares n (v.shutdown n) fail (shutdown-Spares n) (failing n)
  perform-Spares destroy n =
      tested-Spares n (v.destroy n) (done tt)
        (Sets-Spares state n (v.destroy n) destroyed (laws.destroy_sets n)) (nothing n)
  perform-Spares reboot n =
      tested-Spares n (v.reboot n) fail (Keeps-Spares state n (v.reboot n) (laws.reboot_keeps n))
        (failing n)
  perform-Spares delete n = delete_vm-Spares n
