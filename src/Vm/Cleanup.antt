-- ===== src/Vm/Cleanup.antt =====
-- CleanupVMs of pkg/vm/lifecycle.go, and what the operations there do to the VMs as a whole.
use dpu_simulator.Base.{
  ◌++◌, ◌≡◌, ◌≢◌, ◌∙◌, ap, subst, sym, refl, ◌⊎◌, inl, inr, List, [], ◌∷◌, Option, none, some,
  String, str_eq, str_eq_iff, Option-cases, Bool-cases, str_eq_ne, In, here, there,
}
use dpu_simulator.Config.Types.{Config, VmConfig}
use dpu_simulator.Vm.{Libvirt, delete_vm, cleanup_all, cleanup_vms}
use dpu_simulator.Vm.States.{
  VmState, absent, States, Domains, Operation, start, stop, destroy, reboot, delete, perform, Step,
  deletes,
}
use dpu_simulator.Vm.Spared.{delete_vm_cases, delete_vm-none, delete_vm-Spares, perform-Spares}
use dpu_simulator.Vm.Lifecycle.{start-Step, stop-Step, destroy-Step, reboot-Step}

module _ {W : Type 0} (v : Libvirt W) (state : W → States) (laws : Domains v state) where
  -- Under the documented behaviour of libvirt, an operation that succeeds has made a step that it allows, unless
  -- it is a deletion whose lookup of the VM has failed, for whatever reason: this has changed no VM. Whatever its
  -- result, an operation has changed no other VM.
  pub perform-Step :
      (op : Operation) (n : String) (w : W)
      → ((perform v op n w).0 ≡ some tt
          → Step op (state w n) (state (perform v op n w).1 n)
            ⊎ ((op ≡ delete) × ((v.lookup n w).0 ≡ none) × (state (perform v op n w).1 ≡ state w)))
        × ((m : String) → m ≢ n → state (perform v op n w).1 m ≡ state w m)
  perform-Step op n w = (by_operation op, perform-Spares v state laws op n w)
    where
      failed_not : (o : Option (Unit {0})) → o ≡ none → ¬ (o ≡ some tt)
      failed_not o e e' = cc

      by_operation :
          (op : Operation)
          → (perform v op n w).0 ≡ some tt
          → Step op (state w n) (state (perform v op n w).1 n)
            ⊎ ((op ≡ delete) × ((v.lookup n w).0 ≡ none) × (state (perform v op n w).1 ≡ state w))
      by_operation start ok = inl (start-Step v state laws n w ok)
      by_operation stop ok = inl (stop-Step v state laws n w ok)
      by_operation destroy ok = inl (destroy-Step v state laws n w ok)
      by_operation reboot ok = inl (reboot-Step v state laws n w ok)
      by_operation delete ok = elim (delete_vm_cases v state laws n w) [
        | inl failed ↦ absurd (failed_not _ failed ok)
        | inr (inl gone) ↦ inl (subst (Step delete (state w n)) (sym gone) deletes)
        | inr (inr (missed, same)) ↦ inr (refl, missed, same)
      ]

  absent_stays : (n m : String) (w : W) → state w m ≡ absent → state (delete_vm v n w).1 m ≡ absent
  absent_stays n m w h = elim (Bool-cases (str_eq m n)) [
    | inr ne ↦ delete_vm-Spares v state laws n w m (str_eq_ne ne) ∙ h
    | inl e ↦
        let same : m ≡ n = (str_eq_iff m n).0 e in
        ap (λ t. t m) (delete_vm-none v state laws n w (subst (λ k. state w k ≡ absent) same h)) ∙ h
  ]

  all_absent_stays :
      (vms : List VmConfig) (m : String) (w : W)
      → state w m ≡ absent
      → state (cleanup_all v vms w).1 m ≡ absent
  unfolding cleanup_all
  all_absent_stays [] m w h = h
  all_absent_stays (c ∷ vms) m w h = elim (Option-cases (delete_vm v c.name w).0) [
    | inl e ↦
        rw (e, cleanup_all)
          (all_absent_stays vms m (delete_vm v c.name w).1 (absent_stays c.name m w h))
    | inr (u, e) ↦
        rw (e, cleanup_all)
          (all_absent_stays vms m (delete_vm v c.name w).1 (absent_stays c.name m w h))
  ]

  -- What has become of a VM: it is reported, or gone, or as it was and something else is known.
  abbrev Settled : Type 0 → String → VmState → List String × W → Type 0
  Settled Known m before (reported, w) =
      In m reported ⊎ ((state w m ≡ absent) ⊎ ((state w m ≡ before) × Known))

  Settled-before :
      {Known Known' : Type 0} (m : String) (s s' : VmState) (r : List String × W)
      → s ≡ s'
      → (Known → Known')
      → Settled Known m s r
      → Settled Known' m s' r
  Settled-before m s s' r e f (inl reported) = inl reported
  Settled-before m s s' r e f (inr (inl gone)) = inr (inl gone)
  Settled-before m s s' r e f (inr (inr (same, known))) = inr (inr (same ∙ e, f known))

  -- Behind a deletion, the rest of the clean-up has the last word, but for what is reported.
  Settled-suc :
      {Known : Type 0} (d : VmConfig) (vms : List VmConfig) (w : W) (m : String) (s : VmState)
      → Settled Known m s (cleanup_all v vms (delete_vm v d.name w).1)
      → Settled Known m s (cleanup_all v (d ∷ vms) w)
  unfolding cleanup_all
  Settled-suc d vms w m s settled = elim (Option-cases (delete_vm v d.name w).0) [
    | inl err ↦ rw (err, cleanup_all) (elim settled [ inl r ↦ inl (there r) | inr a ↦ inr a ])
    | inr (u, ok) ↦ rw (ok, cleanup_all) settled
  ]

  -- The VM that is deleted first.
  Settled-here :
      {Known : Type 0} (d : VmConfig) (vms : List VmConfig) (w : W)
      → ((v.lookup d.name w).0 ≡ none
          → state (delete_vm v d.name w).1 d.name ≡ state w d.name
          → Settled Known d.name (state w d.name) (cleanup_all v vms (delete_vm v d.name w).1))
      → Settled Known d.name (state w d.name) (cleanup_all v (d ∷ vms) w)
  unfolding cleanup_all
  Settled-here d vms w missed = elim (delete_vm_cases v state laws d.name w) [
    | inl err ↦ rw (err, cleanup_all) (inl (here refl))
    | inr (inl gone) ↦
        Settled-suc d vms w d.name (state w d.name)
          (inr (inl (all_absent_stays vms d.name (delete_vm v d.name w).1 gone)))
    | inr (inr (e, same)) ↦
        Settled-suc d vms w d.name (state w d.name) (missed e (ap (λ t. t d.name) same))
  ]

  Settled-delete :
      {Known : Type 0} (d : VmConfig) (vms : List VmConfig) (w : W) (m : String)
      → Settled Known m
          (state (delete_vm v d.name w).1 m)
          (cleanup_all v vms (delete_vm v d.name w).1)
      → Settled Known m (state w m) (cleanup_all v (d ∷ vms) w)
  Settled-delete {Known} d vms w m settled = elim (Bool-cases (str_eq m d.name)) [
    | inr ne ↦ Settled-suc d vms w m (state w m) (
        Settled-before m _ _ _ (delete_vm-Spares v state laws d.name w m (str_eq_ne ne)) (λ k. k)
          settled)
    | inl e ↦
        let same : m ≡ d.name = (str_eq_iff m d.name).0 e in
        subst (λ k. Settled Known k (state w k) (cleanup_all v (d ∷ vms) w)) (sym same)
          (Settled-here d vms w (λ missed kept.
            Settled-before d.name _ _ _ kept (λ k. k)
              (subst
                (λ k.
                  Settled Known k (state (delete_vm v d.name w).1 k)
                    (cleanup_all v vms (delete_vm v d.name w).1))
                same settled)))
  ]

  cleanup_all-Settled :
      (vms : List VmConfig) (w : W) (m : String) → Settled Unit m (state w m) (cleanup_all v vms w)
  unfolding cleanup_all
  cleanup_all-Settled [] w m = inr (inr (refl, tt))
  cleanup_all-Settled (d ∷ vms) w m =
      Settled-delete d vms w m (cleanup_all-Settled vms (delete_vm v d.name w).1 m)

  -- The deletion of a VM, behind those before it, did not find the VM.
  abbrev pub Missed : List VmConfig → W → VmConfig → Type 0
  Missed vms w c =
      (before : List VmConfig) × (after : List VmConfig) × (vms ≡ before ++ c ∷ after)
      × ((v.lookup c.name (cleanup_all v before w).1).0 ≡ none)

  cleanup_all-suc :
      (d : VmConfig) (vms : List VmConfig) (w : W)
      → (cleanup_all v (d ∷ vms) w).1 ≡ (cleanup_all v vms (delete_vm v d.name w).1).1
  unfolding cleanup_all
  cleanup_all-suc d vms w = elim (Option-cases (delete_vm v d.name w).0) [
    | inl err ↦ rw (err, cleanup_all) refl
    | inr (u, ok) ↦ rw (ok, cleanup_all) refl
  ]

  Missed-suc :
      (d : VmConfig) (vms : List VmConfig) (w : W) (c : VmConfig)
      → Missed vms (delete_vm v d.name w).1 c
      → Missed (d ∷ vms) w c
  Missed-suc d vms w c (before, after, e, missed) = (
    d ∷ before,
    after,
    ap (◌∷◌ d) e,
    ap (λ w'. (v.lookup c.name w').0) (cleanup_all-suc d before w) ∙ missed,
  )

  Missed-here :
      (d : VmConfig) (vms : List VmConfig) (w : W)
      → (v.lookup d.name w).0 ≡ none
      → Missed (d ∷ vms) w d
  unfolding cleanup_all
  Missed-here d vms w missed = ([], vms, refl, missed)

  cleanup_all-configured :
      (vms : List VmConfig) (w : W) (c : VmConfig)
      → In c vms
      → Settled (Missed vms w c) c.name (state w c.name) (cleanup_all v vms w)
  cleanup_all-configured [] w c m = elim m [ ]
  cleanup_all-configured (d ∷ vms) w c (here e) =
      subst
        (λ k. Settled (Missed (d ∷ vms) w k) k.name (state w k.name) (cleanup_all v (d ∷ vms) w)) e
        (Settled-here d vms w (λ missed kept.
          Settled-before d.name _ _ _ kept (λ _. Missed-here d vms w missed)
            (cleanup_all-Settled vms (delete_vm v d.name w).1 d.name)))
  cleanup_all-configured (d ∷ vms) w c (there m) =
      Settled-before c.name _ _ _ refl (Missed-suc d vms w c)
        (Settled-delete d vms w c.name (cleanup_all-configured vms (delete_vm v d.name w).1 c m))

  others_stay :
      (vms : List VmConfig) (w : W) (m : String)
      → ((c : VmConfig) → In c vms → m ≢ c.name)
      → state (cleanup_all v vms w).1 m ≡ state w m
  unfolding cleanup_all
  others_stay [] w m h = refl
  others_stay (d ∷ vms) w m h =
      let one = delete_vm-Spares v state laws d.name w m (h d (here refl)) in
      let rest = others_stay vms (delete_vm v d.name w).1 m (λ c i. h c (there i)) in
      elim (Option-cases (delete_vm v d.name w).0) [
        | inl err ↦ rw (err, cleanup_all) (rest ∙ one)
        | inr (u, ok) ↦ rw (ok, cleanup_all) (rest ∙ one)
      ]

  -- Under the documented behaviour of libvirt, after the clean-up each VM of the configuration is reported, or it
  -- is gone, or it is as it was before and the lookup of it in the clean-up has failed, for whatever reason. A VM
  -- that is not in the configuration is as it was.
  pub cleanup_vms-absent :
      (config : Config) (w : W)
      → ((c : VmConfig)
          → In c config.vms
          → In c.name (cleanup_vms v config w).0
            ⊎ ((state (cleanup_vms v config w).1 c.name ≡ absent)
                ⊎ ((state (cleanup_vms v config w).1 c.name ≡ state w c.name)
                    × Missed config.vms w c)))
        × ((m : String)
            → ((c : VmConfig) → In c config.vms → m ≢ c.name)
            → state (cleanup_vms v config w).1 m ≡ state w m)
  unfolding cleanup_vms
  cleanup_vms-absent config w = (cleanup_all-configured config.vms w, others_stay config.vms w)
