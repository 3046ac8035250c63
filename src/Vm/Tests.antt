-- ===== src/Vm/Tests.antt =====
-- A hypervisor on which every command succeeds, and runs of pkg/vm/lifecycle.go on it.
use dpu_simulator.Base.{
  arith, Option, ◌≡◌, ◌≢◌, refl, ◌⊎◌, inl, inr, true, false, [], none, some, String, str_eq,
  str_eq_iff, str_eq_refl, if◌then◌else◌, Bool-cases, In,
}
use dpu_simulator.Config.Tests.{two_machines}
use dpu_simulator.Config.Types.{VmConfig}
use dpu_simulator.Platform.Executor.{Action}
use dpu_simulator.Vm.{Libvirt, removed, cleanup_vms}
use dpu_simulator.Vm.States.{
  VmState, absent, shut_off, running, is_defined, is_running, destroyed, undefined, States, OnlyAt,
  Sets, Domains, start, delete, perform, Step,
}
use dpu_simulator.Vm.Cleanup.{Missed, perform-Step, cleanup_vms-absent}

abbrev change : String → (VmState → VmState) → Action States Unit
change n f s = (some tt, λ m. if str_eq m n then f (s m) else s m)

abbrev hypervisor : Libvirt States
hypervisor = record {
  lookup = λ n s. (if is_defined (s n) then some tt else none, s);
  is_active = λ n s. (some (is_running (s n)), s);
  create = λ n. change n (λ _. running);
  shutdown = λ n. change n destroyed;
  destroy = λ n. change n destroyed;
  reboot = λ n s. (some tt, s);
  undefine = λ n. change n undefined;
  set_autostart = λ n on s. (some tt, s);
  is_missing = λ path s. (false, s);
  remove = λ path s. (removed, s);
  glob = λ pattern s. (some [], s);
}

change-OnlyAt :
    (n : String) (f : VmState → VmState) (s : States) → OnlyAt n (f (s n)) s (change n f s).1
change-OnlyAt n f s = (rw (str_eq_refl n) refl, λ m ne. other m ne (Bool-cases (str_eq m n)))
  where
    other :
        (m : String) → m ≢ n → (str_eq m n ≡ true) ⊎ (str_eq m n ≡ false) → (change n f s).1 m ≡ s m
    other m ne (inl e) = absurd (ne ((str_eq_iff m n).0 e))
    other m ne (inr e) = rw e refl

change-Sets : (n : String) (f : VmState → VmState) → Sets (λ s. s) (change n f) n f
change-Sets n f s = (λ ok. change-OnlyAt n f s, λ e. absurd (some≢none e))
  where
    some≢none : ¬ (some (tt {0}) ≡ none)
    some≢none h = cc

defined_found :
    (s : VmState) → (if is_defined s then some (tt {0}) else none) ≡ some tt → is_defined s ≡ true
defined_found s e = ground arith

-- The laws, whatever a lookup answers that finds only domains that are there.
answering-Domains :
    (answer : String → States → Option (Unit {0}))
    → ((n : String) (s : States) → answer n s ≡ some tt → is_defined (s n) ≡ true)
    → Domains (record hypervisor { lookup = λ n s. (answer n s, s) }) (λ s. s)
answering-Domains answer found = record {
  lookup_found = found;
  lookup_keeps = λ n s. refl;
  active_answer = λ n s. inr refl;
  active_keeps = λ n s. refl;
  create_sets = λ n. change-Sets n (λ _. running);
  shutdown_sets = λ n s. inr (change-OnlyAt n destroyed s);
  destroy_sets = λ n. change-Sets n destroyed;
  reboot_keeps = λ n s. refl;
  undefine_sets = λ n. change-Sets n undefined;
  missing_keeps = λ path s. refl;
  remove_keeps = λ path s. refl;
  glob_keeps = λ pattern s. refl;
}

hypervisor-Domains : Domains hypervisor (λ s. s)
hypervisor-Domains =
    answering-Domains (λ n s. if is_defined (s n) then some tt else none)
      (λ n s e. defined_found (s n) e)

abbrev two_vms : States
two_vms = λ n. if str_eq n "m1" then running else if str_eq n "m2" then shut_off else absent

perform-Step_example :
    ((perform hypervisor start "m2" two_vms).0 ≡ some tt
      → Step start (two_vms "m2") ((perform hypervisor start "m2" two_vms).1 "m2")
        ⊎ ((start ≡ delete)
            × ((hypervisor.lookup "m2" two_vms).0 ≡ none)
            × ((perform hypervisor start "m2" two_vms).1 ≡ two_vms)))
    × ((m : String) → m ≢ "m2" → (perform hypervisor start "m2" two_vms).1 m ≡ two_vms m)
perform-Step_example = perform-Step hypervisor (λ s. s) hypervisor-Domains start "m2" two_vms

cleanup_vms-absent_example :
    ((c : VmConfig)
      → In c two_machines.vms
      → In c.name (cleanup_vms hypervisor two_machines two_vms).0
        ⊎ (((cleanup_vms hypervisor two_machines two_vms).1 c.name ≡ absent)
            ⊎ (((cleanup_vms hypervisor two_machines two_vms).1 c.name ≡ two_vms c.name)
                × Missed hypervisor (λ s. s) hypervisor-Domains two_machines.vms two_vms c)))
    × ((m : String)
        → ((c : VmConfig) → In c two_machines.vms → m ≢ c.name)
        → (cleanup_vms hypervisor two_machines two_vms).1 m ≡ two_vms m)
cleanup_vms-absent_example =
    cleanup_vms-absent hypervisor (λ s. s) hypervisor-Domains two_machines two_vms

-- A hypervisor that is out of reach: each lookup fails.
abbrev unreachable : Libvirt States
unreachable = record hypervisor { lookup = λ n s. (none, s) }

-- This too is documented behaviour, and the VM stays without being reported.
unreachable-Domains : Domains unreachable (λ s. s)
unreachable-Domains = answering-Domains (λ n s. none) (λ n s e. absurd (none≢some e))
  where
    none≢some : ¬ (none ≡ some (tt {0}))
    none≢some h = cc

kept_silently : cleanup_vms unreachable two_machines two_vms ≡ ([], two_vms)
unfolding cleanup_vms
kept_silently = refl
