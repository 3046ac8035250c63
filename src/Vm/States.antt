-- ===== src/Vm/States.antt =====
-- The states of a libvirt domain, and how the operations of pkg/vm/lifecycle.go move a VM among them.
use dpu_simulator.Base.{
  ◌≡◌, ◌≢◌, ◌∙◌, ap, ◌⊎◌, inl, inr, Bool, true, false, none, some, String, if◌then◌else◌,
  Option-cases,
}
use dpu_simulator.Platform.Executor.{Action, ◌>>=◌, >>=-some, >>=-none}
use dpu_simulator.Vm.{Libvirt, start_vm, stop_vm, destroy_vm, reboot_vm, delete_vm}

-- A transient domain runs, and is gone once it stops.
pub data VmState : Type 0 where
  absent shut_off running transient : VmState

unfoldable pub is_defined : VmState → Bool
is_defined absent = false
is_defined s = true

unfoldable pub is_running : VmState → Bool
is_running running = true
is_running transient = true
is_running s = false

unfoldable pub destroyed : VmState → VmState
destroyed running = shut_off
destroyed transient = absent
destroyed s = s

unfoldable pub undefined : VmState → VmState
undefined shut_off = absent
undefined running = transient
undefined s = s

abbrev pub States : Type 0
States = String → VmState

-- A change of one VM.
abbrev pub OnlyAt : String → VmState → States → States → Type 0
OnlyAt n s before after = (after n ≡ s) × ((m : String) → m ≢ n → after m ≡ before m)

-- What a command has done to the states, by whether it succeeded.
abbrev pub Sets :
    {W : Type 0} → (W → States) → Action W Unit → String → (VmState → VmState) → Type 0
Sets {W} state a n f =
    (w : W)
    → ((a w).0 ≡ some tt → OnlyAt n (f (state w n)) (state w) (state (a w).1))
      × ((a w).0 ≡ none → (m : String) → m ≢ n → state (a w).1 m ≡ state w m)

abbrev pub Keeps : {W A : Type 0} → (W → States) → (W → A × W) → Type 0
Keeps {W} state a = (w : W) → state (a w).1 ≡ state w

-- The documentation of libvirt. A domain that is looked up and found is there; a lookup can fail for any
-- reason. A guest need not heed a shutdown; files are no domains.
pub record Domains {W : Type 0} (v : Libvirt W) (state : W → States) : Type 0 where
  pub lookup_found :
      (n : String) (w : W) → (v.lookup n w).0 ≡ some tt → is_defined (state w n) ≡ true
  pub lookup_keeps : (n : String) → Keeps state (v.lookup n)
  pub active_answer :
      (n : String) (w : W)
      → ((v.is_active n w).0 ≡ none) ⊎ ((v.is_active n w).0 ≡ some (is_running (state w n)))
  pub active_keeps : (n : String) → Keeps state (v.is_active n)
  pub create_sets : (n : String) → Sets state (v.create n) n (λ _. running)
  pub shutdown_sets :
      (n : String) (w : W)
      → (state (v.shutdown n w).1 ≡ state w)
        ⊎ OnlyAt n (destroyed (state w n)) (state w) (state (v.shutdown n w).1)
  pub destroy_sets : (n : String) → Sets state (v.destroy n) n destroyed
  pub reboot_keeps : (n : String) → Keeps state (v.reboot n)
  pub undefine_sets : (n : String) → Sets state (v.undefine n) n undefined
  pub missing_keeps : (path : String) → Keeps state (v.is_missing path)
  pub remove_keeps : (path : String) → Keeps state (v.remove path)
  pub glob_keeps : (pattern : String) → Keeps state (v.glob pattern)

-- `Lifecycle`: what can be asked of a VM.
pub data Operation : Type 0 where
  start stop destroy reboot delete : Operation

abbrev pub perform : {W : Type 0} → Libvirt W → Operation → String → Action W Unit
perform v start = start_vm v
perform v stop = stop_vm v
perform v destroy = destroy_vm v
perform v reboot = reboot_vm v
perform v delete = delete_vm v

-- The moves that an operation makes where it succeeds: there is none from a state that it refuses.
pub data Step : Operation → VmState → VmState → Type 0 where
  starts : Step start shut_off running
  heeds : {s : VmState} → is_running s ≡ true → Step stop s (destroyed s)
  goes_on : {s : VmState} → is_running s ≡ true → Step stop s s
  destroys : {s : VmState} → is_defined s ≡ true → Step destroy s (destroyed s)
  reboots : {s : VmState} → is_running s ≡ true → Step reboot s s
  deletes : {s : VmState} → Step delete s absent

module _ {W : Type 0} (state : W → States) (n : String) where
  -- Whatever the result, no other VM has changed.
  abbrev pub Spares : {A : Type 0} → Action W A → Type 0
  Spares a = (w : W) (m : String) → m ≢ n → state (a w).1 m ≡ state w m

  pub Spares->>= :
      {A B : Type 0} (a : Action W A) (f : A → Action W B)
      → Spares a
      → ((x : A) → Spares (f x))
      → Spares (a >>= f)
  Spares->>= a f ha hf w m ne = elim (Option-cases (a w).0) [
    | inl e ↦ ap (λ p. state p.1 m) (>>=-none a f w e) ∙ ha w m ne
    | inr (x, e) ↦ ap (λ p. state p.1 m) (>>=-some a f w e) ∙ hf x (a w).1 m ne ∙ ha w m ne
  ]

  pub Keeps-Spares : {A : Type 0} (a : Action W A) → Keeps state a → Spares a
  Keeps-Spares a h w m ne = ap (λ t. t m) (h w)

  pub Sets-Spares : (a : Action W Unit) (f : VmState → VmState) → Sets state a n f → Spares a
  Sets-Spares a f h w m ne = elim (Option-cases (a w).0) [
    | inl e ↦ (h w).1 e m ne
    | inr (tt, e) ↦ ((h w).0 e).1 m ne
  ]

  pub if-Spares :
      {A : Type 0} (b : Bool) (a c : Action W A) → Spares a → Spares c → Spares (if b then a else c)
  if-Spares true a c ha hc w m ne = ha w m ne
  if-Spares false a c ha hc w m ne = hc w m ne
