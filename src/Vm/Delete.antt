-- ===== src/Vm/Delete.antt =====
-- DeleteVM of pkg/vm/lifecycle.go, CleanupVMs, and what no operation does to another VM.
use Prim.Native.String.{◌++◌ as concat}
use dpu_simulator.Base.{
  ◌≡◌, ◌∙◌, ap, sym, refl, Bool, true, false, List, [], ◌∷◌, some, String, if◌then◌else◌,
  Option-cases, inl, inr,
}
use dpu_simulator.Platform.Executor.{Action, done, ◌>>=◌, ◌>>◌, >>=-some, >>=-none, >>=-first, each}
use dpu_simulator.Vm.{
  Libvirt, nvram_pattern, delete_domain, delete_files, delete_image, remove_file, remove_if_there,
  delete_uefi_nvram,
}
use dpu_simulator.Vm.Lifecycle.{is_active_lem}
use dpu_simulator.Vm.States.{
  VmState, absent, shut_off, running, transient, is_running, destroyed, undefined, States, Keeps,
  Domains,
}

module _ {W : Type 0} (state : W → States) where
  Keeps->>= :
      {A B : Type 0} (a : Action W A) (f : A → Action W B)
      → Keeps state a
      → ((x : A) → Keeps state (f x))
      → Keeps state (a >>= f)
  Keeps->>= a f ha hf w = elim (Option-cases (a w).0) [
    | inl e ↦ ap (λ p. state p.1) (>>=-none a f w e) ∙ ha w
    | inr (x, e) ↦ ap (λ p. state p.1) (>>=-some a f w e) ∙ hf x (a w).1 ∙ ha w
  ]

  Keeps-each :
      {A : Type 0} (f : A → Action W Unit)
      → ((x : A) → Keeps state (f x))
      → (xs : List A) → Keeps state (each f xs)
  unfolding each
  Keeps-each f h [] w = refl
  Keeps-each f h (x ∷ xs) w = Keeps->>= (f x) (λ _. each f xs) (h x) (λ _. Keeps-each f h xs) w

undefined-destroyed : (s : VmState) → undefined (destroyed s) ≡ absent
unfolding undefined destroyed
undefined-destroyed absent = refl
undefined-destroyed shut_off = refl
undefined-destroyed running = refl
undefined-destroyed transient = refl

undefined_idle : (s : VmState) → is_running s ≡ false → undefined s ≡ absent
unfolding undefined is_running
undefined_idle absent r = refl
undefined_idle shut_off r = refl
undefined_idle running r = cc
undefined_idle transient r = cc

module _ {W : Type 0} (v : Libvirt W) (state : W → States) (laws : Domains v state) where
  delete_image-Keeps : (file : String) → Keeps state (delete_image v file)
  unfolding delete_image remove_file
  delete_image-Keeps file w = go (v.is_missing path w).0
    where
      path : String
      path = concat "/var/lib/libvirt/images/" file

      w' : W
      w' = (v.is_missing path w).1

      go : (b : Bool) → state (if b then (some tt, w') else remove_file v path w').1 ≡ state w
      go true = laws.missing_keeps path w
      go false = laws.remove_keeps path w' ∙ laws.missing_keeps path w

  remove_if_there-Keeps : (path : String) → Keeps state (remove_if_there v path)
  unfolding remove_if_there
  remove_if_there-Keeps path = laws.remove_keeps path

  pub delete_files-Keeps : (n : String) → Keeps state (delete_files v n)
  unfolding delete_files delete_uefi_nvram
  delete_files-Keeps n =
      Keeps->>= state (delete_image v (concat n ".qcow2"))
        (λ _. delete_image v (concat n "-cloud-init.iso") >> delete_uefi_nvram v n)
        (delete_image-Keeps (concat n ".qcow2"))
        (λ _.
          Keeps->>= state (delete_image v (concat n "-cloud-init.iso")) (λ _. delete_uefi_nvram v n)
            (delete_image-Keeps (concat n "-cloud-init.iso"))
            (λ _.
              Keeps->>= state (v.glob (nvram_pattern n))
                (λ matches. each (remove_if_there v) matches) (laws.glob_keeps (nvram_pattern n))
                (λ matches. Keeps-each state (remove_if_there v) remove_if_there-Keeps matches)))

  -- The state of the domain after the tests and the destruction.
  stop_first :
      (n : String) (b : Bool) (w : W)
      → is_running (state w n) ≡ b
      → ((if b then v.destroy n else done tt) w).0 ≡ some tt
      → undefined (state ((if b then v.destroy n else done tt) w).1 n) ≡ absent
  stop_first n true w r ok =
      ap undefined ((laws.destroy_sets n w).0 ok).0 ∙ undefined-destroyed (state w n)
  stop_first n false w r ok = undefined_idle (state w n) r

  -- Past the lookup, a success has removed the domain.
  pub delete_domain-absent :
      (n : String) (w : W)
      → (delete_domain v n w).0 ≡ some tt
      → state (delete_domain v n w).1 n ≡ absent
  unfolding delete_domain
  delete_domain-absent n w ok =
      let (b, e) = >>=-first (v.is_active n) (λ b. first b >> rest) w ok in
      let next = >>=-some (v.is_active n) (λ b. first b >> rest) w e in
      let w1 : W = (v.is_active n w).1 in
      let ok1 : ((first b >> rest) w1).0 ≡ some tt = sym (ap (λ p. p.0) next) ∙ ok in
      let (tt, e1) = >>=-first (first b) (λ _. rest) w1 ok1 in
      let next1 = >>=-some (first b) (λ _. rest) w1 e1 in
      let w2 : W = (first b w1).1 in
      let ok2 : (rest w2).0 ≡ some tt = sym (ap (λ p. p.0) next1) ∙ ok1 in
      let (tt, e2) = >>=-first (v.undefine n) (λ _. delete_files v n) w2 ok2 in
      let next2 = >>=-some (v.undefine n) (λ _. delete_files v n) w2 e2 in
      let running : is_running (state w1 n) ≡ b =
        ap (λ t. is_running (t n)) (laws.active_keeps n w) ∙ is_active_lem v state laws n w b e in
      ap (λ p. state p.1 n) (next ∙ next1 ∙ next2)
      ∙ ap (λ t. t n) (delete_files-Keeps n (v.undefine n w2).1)
      ∙ ((laws.undefine_sets n w2).0 e2).0
      ∙ stop_first n b w1 running e1
    where
      rest : Action W Unit
      rest = v.undefine n >> delete_files v n

      first : Bool → Action W Unit
      first b = if b then v.destroy n else done tt
